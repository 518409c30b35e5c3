-- ===== src/Bridge/Mux/Laws.antt =====
-- What a caller without a token can learn of the tools.
use lib_agent_mcp.Prelude.{ℕ, ◌≡◌, ◌⊎◌, inl, inr, refl, true, Bool-cases, Option, some}
use lib_agent_mcp.Prelude.Text.{Text, text_eq, is_empty}
use lib_agent_mcp.Exec.{err, Fault}
use lib_agent_mcp.Oauth.World.{World}
use lib_agent_mcp.Oauth.Token.{validate}
use lib_agent_mcp.Oauth.Server.{Platform, Server, protect, admitted}
use lib_agent_mcp.Oauth.Http.{Request, Response, bearer_token}
use lib_agent_mcp.Bridge.Banner.{mcp_http_path}
use lib_agent_mcp.Bridge.Dispatch.{Setup, Outcome}
use lib_agent_mcp.Bridge.Http.{with_cors}
use lib_agent_mcp.Bridge.Mux.{mux, http_server}

module _ {V W S : Type 0} (s : Setup V) (t : Setup W)
    (encode encode' : Option Text → Outcome → Text) (not_found : Response) (p : Platform S)
    (now : ℕ) (server : Server) where
  mux-closed :
      (path : Text) (r : Request) (w : World S)
      → (is_empty (bearer_token r) ≡ true)
        ⊎ ((e : Fault) × (validate p.jwt server.issuer now (bearer_token r) ≡ err e))
      → mux s encode not_found p now (some server) path r w
        ≡ mux t encode' not_found p now (some server) path r w
  unfolding mux protect admitted
  mux-closed path r w bad = elim (Bool-cases (text_eq path mcp_http_path)) [
    | inr other ↦ rw (other) refl
    | inl mcp ↦ elim bad [
      | inl missing ↦ rw (mcp, missing) refl
      | inr (e, refused) ↦ elim (Bool-cases (is_empty (bearer_token r))) [
        | inl missing ↦ rw (mcp, missing) refl
        | inr given ↦ rw (mcp, given, refused) refl
      ]
    ]
  ]

  -- With OAuth, a request without a bearer token or with one that does not validate is answered
  -- alike, on every path, method and body, by any two servers that differ only in their tools,
  -- commands, file roots and encoding of results, and leaves the same state, so nothing of the
  -- tools is shown or run without a token.
  pub http_server-closed :
      (path : Text) (r : Request) (w : World S)
      → (is_empty (bearer_token r) ≡ true)
        ⊎ ((e : Fault) × (validate p.jwt server.issuer now (bearer_token r) ≡ err e))
      → http_server s encode not_found p now (some server) path r w
        ≡ http_server t encode' not_found p now (some server) path r w
  unfolding http_server with_cors
  http_server-closed path r w bad = rw (mux-closed path r w bad) refl
