-- ===== src/Oauth/Routes/Laws.antt =====
-- That a client which follows the challenge finds its way.
use mathlib.Core.List.{append_assoc}
use lib_agent_mcp.Prelude.{ℕ, true, ◌≡◌, ◌∙◌, refl, Option, some, [], ◌∷◌, ◌++◌}
use lib_agent_mcp.Prelude.Text.{Text, is_empty, text}
use lib_agent_mcp.Prelude.Dict.{Dict}
use lib_agent_mcp.Oauth.World.{World, Verified}
use lib_agent_mcp.Oauth.Server.{
  Platform, Server, resource_path, prm_url, challenge, protect, protected_resource_metadata_path,
  auth_server_metadata_path, register_path, authorize_path, token_path,
}
use lib_agent_mcp.Oauth.Http.{Request, Response, Handler, bearer_token, server_metadata}
use lib_agent_mcp.Oauth.Register.{handle_auth_server_metadata}
use lib_agent_mcp.Oauth.Routes.{
  Endpoint, resource_document, server_document, registration, authorization, token, routes,
}
use lib_agent_mcp.Oauth.Routes.Paths.{IsPlain, IsServeMux}
use lib_agent_mcp.Oauth.Routes.Mounted.{
  resource_routed, lookup-routes, paths_differ, fixed_routed, base_differs, fixed_IsPlain,
  HasPlainPath, resource-IsPlain, routes-IsPlain, routes-AreDistinct,
}

-- What a client follows from the answer that it was refused with: the address of the resource's
-- metadata in the challenge, and the endpoints of the authorization server's metadata, as paths below
-- the public address that `serves` finds.
pub record Discoverable (serves : Dict Endpoint → Text → Option Endpoint) (s : Server)
    (refusal : Response) : Type 0 where
  pub resource : Text
  pub challenged :
      (refusal.status ≡ 401)
      × (refusal.headers
          ≡ (
            text "WWW-Authenticate",
            text "Bearer resource_metadata=\"" ++ ((s.public_url ++ resource) ++ text "\""),
          )
            ∷ (text "Content-Type", text "application/json")
            ∷ [])
  pub resource_served : serves (routes s) resource ≡ some resource_document
  pub server_served : serves (routes s) auth_server_metadata_path ≡ some server_document
  pub authorize : Text
  pub register : Text
  pub exchange : Text
  pub advertised :
      (handle_auth_server_metadata s).body
      ≡ server_metadata s.public_url
          (s.public_url ++ authorize)
          (s.public_url ++ exchange)
          (s.public_url ++ register)
          s.scopes
  pub authorize_served : serves (routes s) authorize ≡ some authorization
  pub register_served : serves (routes s) register ≡ some registration
  pub token_served : serves (routes s) exchange ≡ some token

module _ {S : Type 0} (p : Platform S) (s : Server) where
  protect-missing :
      (now : ℕ) (next : Verified → Handler S) (r : Request) (w : World S)
      → is_empty (bearer_token r) ≡ true
      → (protect p s now next r w).0 ≡ challenge s (text "missing bearer token")
  unfolding protect
  protect-missing now next r w e = rw (e) refl

  -- Over a ServeMux that behaves as documented, and for a resource that is the public address or
  -- lies below it at a plain path: a request without a bearer token is answered 401 with a
  -- challenge that names the address of the resource's metadata; this address and the
  -- authorization, token and registration endpoints that the authorization server's metadata
  -- advertise are the public address followed by paths that are served by the handlers they stand
  -- for, and the well-known path of that metadata is served by its handler.
  pub routes-Discoverable :
      (serves : Dict Endpoint → Text → Option Endpoint)
      → IsServeMux serves
      → HasPlainPath s
      → (now : ℕ) (next : Verified → Handler S) (r : Request) (w : World S)
      → is_empty (bearer_token r) ≡ true
      → Discoverable serves s (protect p s now next r w).0
  unfolding prm_url challenge handle_auth_server_metadata
  routes-Discoverable serves law h now next r w e =
      let found = λ (k : Text) (plain : IsPlain k).
        law (routes s) k (routes-IsPlain s h) (routes-AreDistinct s) plain in
      let (_, server_plain, register_plain, authorize_plain, token_plain) = fixed_IsPlain in
      let path = protected_resource_metadata_path ++ resource_path s in
      let (authorize_differs, register_differs, token_differs, server_differs) =
        paths_differ (resource_path s) in
      rw (protect-missing now next r w e) (record {
        resource = path;
        challenged = (refl, rw (append_assoc s.public_url path (text "\"")) refl);
        resource_served =
            found path (resource-IsPlain s h) ∙ resource_routed s (is_empty (resource_path s)) refl;
        server_served =
            found auth_server_metadata_path server_plain
            ∙ (lookup-routes s auth_server_metadata_path base_differs.3 server_differs
                ∙ fixed_routed.3);
        authorize = authorize_path;
        register = register_path;
        exchange = token_path;
        advertised = refl;
        authorize_served =
            found authorize_path authorize_plain
            ∙ (lookup-routes s authorize_path base_differs.0 authorize_differs ∙ fixed_routed.0);
        register_served =
            found register_path register_plain
            ∙ (lookup-routes s register_path base_differs.1 register_differs ∙ fixed_routed.1);
        token_served =
            found token_path token_plain
            ∙ (lookup-routes s token_path base_differs.2 token_differs ∙ fixed_routed.2);
      })
