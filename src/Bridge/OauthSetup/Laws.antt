-- ===== src/Bridge/OauthSetup/Laws.antt =====
-- When the set-up of OAuth leaves a server.
use lib_agent_mcp.Prelude.{
  ◌≡◌, inl, inr, arith, Bool, true, false, not, Bool-cases, Option, none, some, [],
}
use lib_agent_mcp.Prelude.Text.{Text, text, text_eq, is_empty}
use lib_agent_mcp.Oauth.World.{World}
use lib_agent_mcp.Oauth.Server.{Platform, new}
use lib_agent_mcp.Bridge.Io.{done, wrapped, or_wrap, >>=-eq-done}
use lib_agent_mcp.Bridge.OauthSetup.{
  OauthServer, Opener, on_secrets, lift, oauth_store, mcp_endpoint, setup_local, setup_oauth,
}

abbrev pub is_given : {A : Type 0} → Option A → Bool
is_given none = false
is_given (some _) = true

module _ {K : Type 0} (o : Opener K) (quote : Text → Text) (p : Platform K) where
  setup_local-is_given :
      (service public_url : Text) (w : World K) {server : Option (OauthServer K)}
      → (setup_local o quote p service public_url w).0 ≡ done server
      → is_given server ≡ true
  unfolding setup_local
  setup_local-is_given service public_url w e =
      let (store, opened, e1, _) =
        >>=-eq-done
          (or_wrap (wrapped (text "--oauth local needs an OS keyring to store its signing key"))
            (on_secrets (oauth_store o service)))
          _ w e in
      let (made, was, e2, _) =
        >>=-eq-done
          (lift (
            new (record p { store = store.secrets })
              (record {
                public_url = public_url;
                resource = mcp_endpoint public_url;
                token_ttl = 0;
                scopes = [];
              })))
          _ _ e1 in
      ground arith

  pub setup_oauth-is_given :
      (service mode public_url : Text) (w : World K) {server : Option (OauthServer K)}
      → (setup_oauth o quote p service mode public_url w).0 ≡ done server
      → is_given server ≡ not (is_empty mode)
  unfolding setup_oauth
  setup_oauth-is_given service mode public_url w e = elim (Bool-cases (is_empty mode)) [
    | inl off ↦ ground (arith, rw (off) at e)
    | inr on ↦ elim (Bool-cases (text_eq mode (text "local"))) [
      | inr other ↦ ground (arith, rw (on, other) at e)
      | inl local ↦ elim (Bool-cases (is_empty public_url)) [
        | inl missing ↦ ground (arith, rw (on, local, missing) at e)
        | inr present ↦
            rw (on) (setup_local-is_given service public_url w (rw (on, local, present) at e))
      ]
    ]
  ]
