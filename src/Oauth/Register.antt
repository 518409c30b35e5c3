-- ===== src/Oauth/Register.antt =====
-- oauth/register.go: dynamic client registration; and oauth/metadata.go.
pub mod Laws
use lib_agent_mcp.Prelude.{
  ℕ, ◌*◌, Bool, true, false, not, Option, none, some, List, [], ◌∷◌, ◌++◌, ◌||◌, take,
  if◌then◌else◌,
}
use lib_agent_mcp.Prelude.Text.{Text, text, text_eq, is_empty}
use lib_agent_mcp.Oauth.World.{World, Client}
use lib_agent_mcp.Oauth.Clients
use lib_agent_mcp.Oauth.Server.{
  Platform, Server, Url, Registration, register_path, authorize_path, token_path,
}
use lib_agent_mcp.Oauth.Http.{
  Request, Response, Handler, registration, resource_metadata, server_metadata, write_json,
  write_oauth_error, method_not_allowed, respond, handle,
}

abbrev pub max_register_body : ℕ
max_register_body = 64 * 1024

-- `u.IsAbs()` is a scheme that is not empty.
unfoldable pub valid_url : Option Url → Bool
valid_url none = false
valid_url (some u) =
    if is_empty u.scheme || is_empty u.host
    then false
    else if text_eq u.scheme (text "https")
    then true
    else if text_eq u.scheme (text "http")
    then text_eq u.hostname (text "localhost")
      || (text_eq u.hostname (text "127.0.0.1") || text_eq u.hostname (text "::1"))
    else false

module _ {S : Type 0} (p : Platform S) where
  -- validRedirectURI
  unfoldable pub valid_redirect_uri : Text → Bool
  valid_redirect_uri s = valid_url (p.parse_url s)

  -- The loop over the addresses of the request: whether all of them are valid.
  unfoldable pub all_valid : List Text → Bool
  all_valid [] = true
  all_valid (u ∷ us) = let rest = all_valid us in if not (valid_redirect_uri u) then false else rest

  unfoldable pub register_client : Option Registration → Handler S
  register_client none = respond (
      write_oauth_error 400 (text "invalid_client_metadata")
        (text "request body is not valid JSON"))
  register_client (some req) = elim req.redirect_uris [
    | [] ↦
        respond
          (write_oauth_error 400 (text "invalid_redirect_uri") (text "redirect_uris is required"))
    | u ∷ us ↦
        if not (all_valid (u ∷ us))
        then respond (
            write_oauth_error 400 (text "invalid_redirect_uri")
              (text "redirect_uri must be absolute https, or http on a loopback host"))
        else handle (Clients.register p.store p.clients_json p.rand (u ∷ us) req.client_name)
            (λ _.
              respond
                (write_oauth_error 500 (text "server_error") (text "could not register client")))
            (λ c. respond (write_json 201 (registration c.id c.redirect_uris c.name)))
  ]

  -- handleRegister
  unfoldable pub handle_register : Request → Handler S
  handle_register r =
      if not (text_eq r.method (text "POST"))
      then respond method_not_allowed
      else register_client (p.decode_registration (take max_register_body r.body))

-- handleProtectedResourceMetadata
unfoldable pub handle_protected_resource_metadata : Server → Response
handle_protected_resource_metadata s =
    write_json 200 (resource_metadata s.resource (s.public_url ∷ []) s.scopes)

-- handleAuthServerMetadata
unfoldable pub handle_auth_server_metadata : Server → Response
handle_auth_server_metadata s = write_json 200 (
    server_metadata s.public_url (s.public_url ++ authorize_path) (s.public_url ++ token_path)
      (s.public_url ++ register_path) s.scopes)
