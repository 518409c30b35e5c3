-- ===== src/Tests/Transport.antt =====
-- The HTTP transport on the scene.
use lib_agent_mcp.Prelude.{◌≡◌, ◌⊎◌, inr, true, refl, false, some, []}
use lib_agent_mcp.Prelude.Text.{
  Text, text, text_eq, is_empty, equal_fold, to_lower, lower, trim_space, trim_right, drop_while,
  is_space,
}
use lib_agent_mcp.Exec.{Fault, ok, err, bad_token}
use lib_agent_mcp.Oauth.World.{Verified}
use lib_agent_mcp.Oauth.Token.{validate}
use lib_agent_mcp.Oauth.Http.{Response, inner, bearer_token, bearer_prefix}
use lib_agent_mcp.Bridge.Http.{handle_http, http_handler, with_headers, cors_headers}
use lib_agent_mcp.Bridge.Http.Laws.{http_handler_gated}
use lib_agent_mcp.Bridge.Banner.{mcp_http_path}
use lib_agent_mcp.Bridge.Dispatch.{Setup}
use lib_agent_mcp.Bridge.Mux.{http_server}
use lib_agent_mcp.Bridge.Mux.Laws.{http_server-closed}
use lib_agent_mcp.Tests.Fixture.{platform, server}
use lib_agent_mcp.Tests.Scene.{scene}
use lib_agent_mcp.Tests.Access.{request}
use lib_agent_mcp.Tests.Bridge.{setup}

posted : text_eq request.method (text "OPTIONS") ≡ false
unfolding text text_eq
posted = refl

http_handler_gated_example :
    (((http_handler setup (λ id o. []) platform 5 (some server) request scene).0.status ≡ 401)
      × ((http_handler setup (λ id o. []) platform 5 (some server) request scene).1 ≡ scene))
    ⊎ ((v : Verified) × (validate platform.jwt server.issuer 5 (bearer_token request) ≡ ok v)
        × (http_handler setup (λ id o. []) platform 5 (some server) request scene ≡ (
          with_headers
              (cors_headers request.origin)
              (handle_http setup (λ id o. []) (some v) request scene).0,
          scene,
        )))
http_handler_gated_example =
    http_handler_gated setup (λ id o. []) platform 5 server request scene posted

abbrev missing : Response
missing = record { status = 404; headers = []; body = inner [] }

-- A server whose tools and commands are others.
abbrev other_setup : Setup Text
other_setup = record setup { name = text "other"; tools = [] }

refused :
    (is_empty (bearer_token request) ≡ true)
    ⊎ ((e : Fault) × (validate platform.jwt server.issuer 5 (bearer_token request) ≡ err e))
unfolding bearer_token bearer_prefix equal_fold to_lower lower text text_eq trim_space trim_right
    drop_while is_space validate
refused = inr (bad_token, refl)

http_server-closed_example :
    http_server setup (λ id o. []) missing platform 5 (some server) mcp_http_path request scene
    ≡ http_server other_setup
        (λ id o. [])
        missing
        platform
        5
        (some server)
        mcp_http_path
        request
        scene
http_server-closed_example =
    http_server-closed setup other_setup (λ id o. []) (λ id o. []) missing platform 5 server
      mcp_http_path request scene refused
