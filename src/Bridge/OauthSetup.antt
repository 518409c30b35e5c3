-- ===== src/Bridge/OauthSetup.antt =====
-- http_oauth.go: the secret store and the OAuth server of a bridge. The keyring of each service, the
-- platform of the package oauth and %q are parameters.
pub mod Laws
use lib_agent_mcp.Prelude.{Option, none, some, [], ◌++◌, not, if◌then◌else◌}
use lib_agent_mcp.Prelude.Text.{Text, text, text_eq, is_empty, trim_right}
use lib_agent_mcp.Exec.{Exec}
use lib_agent_mcp.Oauth.Store.{SecretStore, Keyring, keyring_store, keyring_delete_all}
use lib_agent_mcp.Oauth.World.{World}
use lib_agent_mcp.Oauth.Server.{Platform, Server, is_slash, new}
use lib_agent_mcp.Bridge.Io.{
  message, wrapped, done, failed, Io, pure, fail, or_wrap, attempted, ◌>>=◌,
}
use lib_agent_mcp.Bridge.Banner.{mcp_http_path, http_url}

-- oauthService, of the options WithOAuthKeyringService and WithName
unfoldable pub oauth_service : Text → Text → Text
oauth_service keyring_service name =
    if is_empty keyring_service then name ++ text ".mcp" else keyring_service

-- The interface oauthSecretStore.
pub record OauthSecretStore (K : Type 0) : Type 0 where
  pub secrets : SecretStore K
  pub delete_all : Exec K (Unit {0})

-- mcpEndpoint
unfoldable pub mcp_endpoint : Text → Text
mcp_endpoint public_url = trim_right is_slash public_url ++ mcp_http_path

unfoldable pub keyring_secret_store : {K : Type 0} → Keyring K → OauthSecretStore K
keyring_secret_store kr = record { secrets = keyring_store kr; delete_all = keyring_delete_all kr }

module _ {K : Type 0} where
  -- A function of the package oauth, among those of the bridge.
  abbrev pub lift : {A : Type 0} → Exec K A → Io K A
  lift m s = (attempted (m s).0, (m s).1)

  abbrev pub on_secrets : {A : Type 0} → Io K A → Io (World K) A
  on_secrets m w = ((m w.secrets).0, record w { secrets = (m w.secrets).1 })

-- oauth.Server, with the store that it was given.
pub record OauthServer (K : Type 0) : Type 0 where
  pub server : Server
  pub secrets : SecretStore K

-- How the store is opened: openOAuthStore where it is set, and the keyring of a service.
pub record Opener (K : Type 0) : Type 0 where
  pub open_oauth_store : Option (Io K (OauthSecretStore K))
  pub keyring : Text → Keyring K

module _ {K : Type 0} (o : Opener K) where
  abbrev pub opened_keyring : Keyring K → Io K (OauthSecretStore K)
  opened_keyring kr k = if kr.available k then (done (keyring_secret_store kr), k) else (
    failed (
        message (
          text
            "no OS keyring is available on this host, so the local-OAuth secrets can't be read")),
    k,
  )

  abbrev pub store_from : Option (Io K (OauthSecretStore K)) → Text → Io K (OauthSecretStore K)
  store_from (some opener) service = opener
  store_from none service = opened_keyring (o.keyring service)

  -- oauthStore
  unfoldable pub oauth_store : Text → Io K (OauthSecretStore K)
  oauth_store service = store_from o.open_oauth_store service

  module _ (quote : Text → Text) (p : Platform K) where
    -- setupOAuth after the flags are checked
    unfoldable pub setup_local : Text → Text → Io (World K) (Option (OauthServer K))
    setup_local service public_url = do
      store ←
          or_wrap (wrapped (text "--oauth local needs an OS keyring to store its signing key"))
            (on_secrets (oauth_store service))
      server ← lift (
          new (record p { store = store.secrets })
            (record {
              public_url = public_url;
              resource = mcp_endpoint public_url;
              token_ttl = 0;
              scopes = [];
            }))
      pure (some (record { server = server; secrets = store.secrets }))

    -- setupOAuth: the server that it puts into the field oauth, if any
    unfoldable pub setup_oauth : Text → Text → Text → Io (World K) (Option (OauthServer K))
    setup_oauth service mode public_url =
        if is_empty mode
        then pure none
        else if not (text_eq mode (text "local"))
        then fail (message (text "--oauth: only \"local\" is supported, got " ++ quote mode))
        else if is_empty public_url
        then fail (
            message (
              text
                "--oauth local requires --public-url <https-url> (the externally-reachable URL of this server)"))
        else setup_local service public_url

-- The text of writeOAuthBootInfo.
unfoldable pub oauth_boot_info : Text → Text → Text → Text
oauth_boot_info addr public_url code =
    text
      "Connect this MCP server (OAuth 2.1, local — it is its own authorization server):\n  connector URL  : "
    ++ (mcp_endpoint public_url
        ++ (text "          ← add this exact URL (with /mcp) to the connector\n  local listener : "
            ++ (http_url addr
                ++ (text "\n  pairing code   : "
                    ++ (code
                        ++ text
                            "\n  ⚠ Treat the pairing code like a password. Enter it once on the browser\n    approval page when a client connects; it is reusable across clients.\n")))))
