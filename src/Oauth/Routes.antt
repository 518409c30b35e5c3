-- ===== src/Oauth/Routes.antt =====
-- RegisterRoutes of oauth/server.go, and the handler behind each route.
pub mod Paths
pub mod Mounted
pub mod Laws
use lib_agent_mcp.Prelude.{
  ℕ, ◌≡◌, refl, Option, none, some, List, [], ◌∷◌, ◌++◌, arith, if◌then◌else◌, Bool-cases, inl, inr,
}
use lib_agent_mcp.Prelude.Text.{Text, text_eq, text_eq_iff, text_eq_refl, is_empty, text}
use lib_agent_mcp.Prelude.Dict.{Dict, lookup}
use lib_agent_mcp.Oauth.Server.{
  Platform, Server, resource_path, prm_url, challenge, protected_resource_metadata_path,
  auth_server_metadata_path, register_path, authorize_path, token_path,
}
use lib_agent_mcp.Oauth.Http.{Request, Body, server_metadata, Response, Handler, respond}
use lib_agent_mcp.Oauth.Grant.{handle_token}
use lib_agent_mcp.Oauth.Authorize.{handle_authorize}
use lib_agent_mcp.Oauth.Register.{
  handle_register, handle_protected_resource_metadata, handle_auth_server_metadata,
}

pub data Endpoint : Type 0 where
  resource_document server_document registration authorization token : Endpoint

-- The patterns that are mounted on a ServeMux, with what they are mounted for. A pattern that is a
-- plain path (Routes/Paths) is served at just that path; what ServeMux makes of the pattern of another
-- resource, such as one that is not below the public address, is not modelled.
unfoldable pub routes : Server → Dict Endpoint
routes s =
    (protected_resource_metadata_path, resource_document)
    ∷ ((if is_empty (resource_path s)
          then []
          else (protected_resource_metadata_path ++ resource_path s, resource_document) ∷ [])
        ++ ((auth_server_metadata_path, server_document)
            ∷ (register_path, registration)
            ∷ (authorize_path, authorization)
            ∷ (token_path, token)
            ∷ []))

module _ {S : Type 0} (p : Platform S) (s : Server) (now : ℕ) where
  -- The handler that is mounted for an endpoint.
  unfoldable pub handle_endpoint : Endpoint → Request → Handler S
  handle_endpoint resource_document r = respond (handle_protected_resource_metadata s)
  handle_endpoint server_document r = respond (handle_auth_server_metadata s)
  handle_endpoint registration r = handle_register p r
  handle_endpoint authorization r = handle_authorize p s now r
  handle_endpoint token r = handle_token p s now r
