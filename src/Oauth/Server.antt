-- ===== src/Oauth/Server.antt =====
-- oauth/server.go: the server's configuration, its construction, and the gate in front of /mcp.
pub mod Laws
use lib_agent_mcp.Prelude.{
  ℕ, ◌*◌, Bool, true, false, Option, none, some, List, [], ◌∷◌, ◌++◌, ◌==◌, if◌then◌else◌,
}
use lib_agent_mcp.Prelude.Text.{Text, text, text_eq, is_empty, trim_space, trim_right, trim_prefix}
use lib_agent_mcp.Exec.{Exec, Result, ok, err, Fault, no_public_url, pure, raise, ◌>>=◌, ◌>>◌}
use lib_agent_mcp.Oauth.Store.{SecretStore}
use lib_agent_mcp.Oauth.MapStore.{Json}
use lib_agent_mcp.Oauth.World.{
  World, Rand, Client, RefreshGrant, PrincipalRecord, Verified, minute, hour,
}
use lib_agent_mcp.Oauth.Token.{Jwt, Issuer, validate, new_issuer}
use lib_agent_mcp.Oauth.Pairing.{code}
use lib_agent_mcp.Oauth.Http.{
  Request, Response, Handler, oauth_error, json_type, bearer_token, write_oauth_error, respond,
}

-- What the package takes from outside: the store, the random source, the hash function, the JWT
-- library, the parser of addresses, and the encodings of documents.
pub record Url : Type 0 where
  pub scheme : Text
  pub host : Text
  pub hostname : Text

pub record Registration : Type 0 where
  pub redirect_uris : List Text
  pub client_name : Text

pub record Platform (S : Type 0) : Type 0 where
  pub store : SecretStore S
  pub rand : Rand
  pub sha256 : Text → List ℕ
  pub jwt : Jwt
  pub parse_url : Text → Option Url
  pub clients_json : Json Client
  pub refresh_json : Json RefreshGrant
  pub principals_json : Json PrincipalRecord
  pub decode_registration : Text → Option Registration

abbrev pub default_token_ttl : ℕ
default_token_ttl = hour

abbrev pub default_auth_code_ttl : ℕ
default_auth_code_ttl = minute

unfoldable pub default_scope : Text
default_scope = text "mcp"

unfoldable pub protected_resource_metadata_path : Text
protected_resource_metadata_path = text "/.well-known/oauth-protected-resource"

unfoldable pub auth_server_metadata_path : Text
auth_server_metadata_path = text "/.well-known/oauth-authorization-server"

unfoldable pub register_path : Text
register_path = text "/oauth/register"

unfoldable pub authorize_path : Text
authorize_path = text "/oauth/authorize"

unfoldable pub token_path : Text
token_path = text "/oauth/token"

-- Config; a TokenTTL of 0 stands for every duration that is not positive.
pub record Config : Type 0 where
  pub public_url : Text
  pub resource : Text
  pub token_ttl : ℕ
  pub scopes : List Text

pub record Server : Type 0 where
  pub public_url : Text
  pub resource : Text
  pub scopes : List Text
  pub issuer : Issuer

abbrev pub is_slash : ℕ → Bool
is_slash c = c == b'/'

abbrev pub or_default_scopes : List Text → List Text
or_default_scopes [] = default_scope ∷ []
or_default_scopes (s ∷ ss) = s ∷ ss

-- resourcePath
unfoldable pub resource_path : Server → Text
resource_path s =
    let p = trim_prefix s.resource s.public_url in if text_eq p (text "/") then [] else p

-- prmURL
unfoldable pub prm_url : Server → Text
prm_url s = s.public_url ++ (protected_resource_metadata_path ++ resource_path s)

-- challenge; %q leaves an address of printable ASCII without a quote or a backslash as it is
unfoldable pub challenge : Server → Text → Response
challenge s desc = record {
  status = 401;
  headers =
      (text "WWW-Authenticate", text "Bearer resource_metadata=\"" ++ (prm_url s ++ text "\""))
      ∷ json_type;
  body = oauth_error (text "invalid_token") desc;
}

module _ {S : Type 0} (p : Platform S) where
  -- New; that the store is given is in the types.
  unfoldable pub new : Config → Exec (World S) Server
  new cfg =
      let public_url = trim_right is_slash cfg.public_url in
      let stripped = trim_right is_slash cfg.resource in
      let resource = if is_empty stripped then public_url else stripped in
      let ttl = if cfg.token_ttl == 0 then default_token_ttl else cfg.token_ttl in
      if is_empty (trim_space cfg.public_url) then raise no_public_url else (do
        issuer ← new_issuer p.store p.rand public_url resource ttl
        pure (record {
          public_url = public_url;
          resource = resource;
          scopes = or_default_scopes cfg.scopes;
          issuer = issuer;
        }))

  -- PairingCode
  unfoldable pub pairing_code : Exec (World S) Text
  pairing_code = code p.store p.rand

  module _ (s : Server) where
    unfoldable pub admitted : (Verified → Handler S) → Result Verified → Handler S
    admitted next (ok v) = next v
    admitted next (err e) = respond (challenge s (text "invalid or expired token"))

    -- Protect: the handler behind it receives the identity that the token carries.
    unfoldable pub protect : ℕ → (Verified → Handler S) → Request → Handler S
    protect now next r =
        let token = bearer_token r in
        if is_empty token
        then respond (challenge s (text "missing bearer token"))
        else admitted next (validate p.jwt s.issuer now token)
