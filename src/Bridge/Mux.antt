-- ===== src/Bridge/Mux.antt =====
-- httpHandler of http.go as a whole: every path of the HTTP server, for requests whose path net/http
-- does not redirect, and a resource whose path is plain (Oauth/Routes/Paths).
pub mod Laws
use lib_agent_mcp.Prelude.{ℕ, not, Option, none, some, List, [], ◌∷◌, ◌++◌, if◌then◌else◌}
use lib_agent_mcp.Prelude.Text.{Text, text, text_eq}
use lib_agent_mcp.Prelude.Dict.{lookup}
use lib_agent_mcp.Oauth.World.{Verified}
use lib_agent_mcp.Oauth.Server.{Platform, Server, protect}
use lib_agent_mcp.Oauth.Http.{Request, Response, Handler, respond}
use lib_agent_mcp.Oauth.Routes.{Endpoint, routes, handle_endpoint}
use lib_agent_mcp.Bridge.Banner.{mcp_http_path}
use lib_agent_mcp.Bridge.Dispatch.{Setup, Outcome}
use lib_agent_mcp.Bridge.Http.{with_cors, handle_http, mcp_handler}

-- `not_found` is the answer of http.ServeMux where no pattern matches.
module _ {V S : Type 0} (s : Setup V) (encode : Option Text → Outcome → Text) (not_found : Response)
    (p : Platform S) (now : ℕ) where
  abbrev pub routed : Server → Option Endpoint → Request → Handler S
  routed server none r = respond not_found
  routed server (some e) r = handle_endpoint p server now e r

  abbrev pub other_paths : Option Server → Text → Request → Handler S
  other_paths none path r = respond not_found
  other_paths (some server) path r = routed server (lookup path (routes server)) r

  unfoldable pub mux : Option Server → Text → Request → Handler S
  mux oauth path r =
      if text_eq path mcp_http_path
      then mcp_handler s encode p now oauth r
      else other_paths oauth path r

  -- httpHandler, for a request for any path; the access log is around it
  unfoldable pub http_server : Option Server → Text → Request → Handler S
  http_server oauth path = with_cors (mux oauth path)
