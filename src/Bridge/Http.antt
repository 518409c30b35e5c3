-- ===== src/Bridge/Http.antt =====
-- http.go: the handler of /mcp, with the OAuth gate in front of it. The encoding of a response is a
-- parameter. Mux has the other paths, AccessLog the log, and Startup the listener.
pub mod Laws
use lib_agent_mcp.Prelude.{
  ℕ, ◌*◌, not, Option, none, some, List, [], ◌∷◌, ◌++◌, ◌&&◌, length, take, ltb, if◌then◌else◌,
}
use lib_agent_mcp.Prelude.Text.{Text, text, text_eq, is_empty}
use lib_agent_mcp.Prelude.Dict.{Dict}
use lib_agent_mcp.Oauth.World.{World, Verified}
use lib_agent_mcp.Oauth.Server.{Platform, Server, protect}
use lib_agent_mcp.Oauth.Http.{Request, Response, Handler, inner, respond}
use lib_agent_mcp.Bridge.Dispatch.{Setup, Outcome, error, dispatch}
use lib_agent_mcp.Bridge.Dispatch

-- 4 << 20
abbrev pub max_http_body : ℕ
max_http_body = 4 * (1024 * 1024)

unfoldable pub cors_headers : Text → Dict Text
cors_headers origin =
    if is_empty origin
    then []
    else (text "Access-Control-Allow-Origin", origin)
      ∷ (text "Vary", text "Origin")
      ∷ (text "Access-Control-Allow-Methods", text "GET, POST, OPTIONS")
      ∷ (
        text "Access-Control-Allow-Headers",
        text "Authorization, Content-Type, Mcp-Session-Id, MCP-Protocol-Version",
      )
      ∷ (text "Access-Control-Expose-Headers", text "WWW-Authenticate, Mcp-Session-Id")
      ∷ []

-- A response with headers that were set before it was written.
abbrev pub with_headers : Dict Text → Response → Response
with_headers headers r = record r { headers = headers ++ r.headers }

module _ {S : Type 0} where
  -- withCORS
  unfoldable pub with_cors : (Request → Handler S) → Request → Handler S
  with_cors next r w =
      if text_eq r.method (text "OPTIONS")
      then (record { status = 204; headers = cors_headers r.origin; body = inner [] }, w)
      else (with_headers (cors_headers r.origin) (next r w).0, (next r w).1)

-- io.ReadAll of the body behind io.LimitReader: what lies behind the limit is not read.
unfoldable pub read_all : ℕ → Request → Option Text
read_all limit r =
    if r.body_fails && ltb (length r.body) limit then none else some (take limit r.body)

module _ {V : Type 0} (s : Setup V) (encode : Option Text → Outcome → Text) where
  -- writeJSON of a response with this id, if any
  unfoldable pub write_rpc : ℕ → Option Text → Outcome → Response
  write_rpc status id o = record {
    status = status;
    headers = (text "Content-Type", text "application/json") ∷ [];
    body = inner (encode id o);
  }

  unfoldable pub write_rpc_error : ℕ → Text → Text → Response
  write_rpc_error status code message =
      write_rpc status none (error (record { code = code; message = message }))

  abbrev pub answer_id : Option Verified → Dispatch.Request → Option Text → Response
  answer_id ctx req none = record { status = 202; headers = []; body = inner [] }
  answer_id ctx req (some id) = write_rpc 200 (some id) (dispatch s ctx id req).outcome

  abbrev pub answer : Option Verified → Option Dispatch.Request → Response
  answer ctx none = write_rpc_error 400 (text "-32700") (text "parse error")
  answer ctx (some req) = answer_id ctx req req.id

  abbrev pub answer_body : Option Verified → Option Text → Response
  answer_body ctx none = write_rpc_error 400 (text "-32700") (text "could not read request body")
  answer_body ctx (some body) = answer ctx (s.decode_request body)

  module _ {S : Type 0} where
    -- handleHTTP, for the principal on the context of the request
    unfoldable pub handle_http : Option Verified → Request → Handler S
    handle_http ctx r =
        if not (text_eq r.method (text "POST"))
        then respond (record {
          status = 405;
          headers = (text "Allow", text "POST") ∷ [];
          body = inner (text "only POST is supported\n");
        })
        else respond (answer_body ctx (read_all max_http_body r))

    -- The handler of /mcp that httpHandler mounts.
    abbrev pub mcp_handler : Platform S → ℕ → Option Server → Request → Handler S
    mcp_handler p now none r = handle_http none r
    mcp_handler p now (some server) r = protect p server now (λ v. handle_http (some v) r) r

    -- httpHandler, for a request for /mcp
    unfoldable pub http_handler : Platform S → ℕ → Option Server → Request → Handler S
    http_handler p now oauth = with_cors (mcp_handler p now oauth)
