-- ===== src/Bridge/Http/Laws.antt =====
-- Who reaches the tools over HTTP.
use lib_agent_mcp.Prelude.{
  ℕ, ◌≡◌, ◌⊎◌, inl, inr, refl, ap, ◌∙◌, true, false, Bool-cases, Option, none, some,
}
use lib_agent_mcp.Prelude.Text.{Text, text, text_eq}
use lib_agent_mcp.Exec.{ok}
use lib_agent_mcp.Oauth.World.{World, Verified}
use lib_agent_mcp.Oauth.Token.{validate}
use lib_agent_mcp.Oauth.Server.{Platform, Server}
use lib_agent_mcp.Oauth.Server.Laws.{protect_cases}
use lib_agent_mcp.Oauth.Http.{Request, bearer_token}
use lib_agent_mcp.Bridge.Dispatch.{Setup, Outcome}
use lib_agent_mcp.Bridge.Http.{handle_http, http_handler, with_cors, with_headers, cors_headers}

module _ {S V : Type 0} (s : Setup V) (encode : Option Text → Outcome → Text) (p : Platform S)
    (now : ℕ) where
  handle_http-state :
      (ctx : Option Verified) (r : Request) (w : World S) → (handle_http s encode ctx r w).1 ≡ w
  unfolding handle_http
  handle_http-state ctx r w = elim (Bool-cases (text_eq r.method (text "POST"))) [
    | inl post ↦ rw (post) refl
    | inr other ↦ rw (other) refl
  ]

  -- With OAuth, a request for /mcp that is not a preflight is answered 401 and changes nothing, or
  -- its bearer token validates, and then it is answered as handleHTTP answers it for the identity
  -- of that token, with the CORS headers added and nothing changed.
  pub http_handler_gated :
      (server : Server) (r : Request) (w : World S)
      → text_eq r.method (text "OPTIONS") ≡ false
      → (((http_handler s encode p now (some server) r w).0.status ≡ 401)
          × ((http_handler s encode p now (some server) r w).1 ≡ w))
        ⊎ ((v : Verified) × (validate p.jwt server.issuer now (bearer_token r) ≡ ok v)
            × (http_handler s encode p now (some server) r w
                ≡ (with_headers (cors_headers r.origin) (handle_http s encode (some v) r w).0, w)))
  unfolding http_handler with_cors
  http_handler_gated server r w e =
      elim (protect_cases p server now (λ v. handle_http s encode (some v) r) r w) [
        | inl (v, valid, _, run) ↦ inr (
          v,
          valid,
          rw (e) (
              ap (λ u. (with_headers (cors_headers r.origin) u.0, u.1)) run
              ∙ ap
                  (λ u.
                    (with_headers (cors_headers r.origin) (handle_http s encode (some v) r w).0, u))
                  (handle_http-state (some v) r w)),
        )
        | inr (status, kept) ↦ inl (rw (e) status, rw (e) kept)
      ]

  -- A preflight request is answered alike with OAuth and without it, so it is not refused for want
  -- of a token, and leaves the same state.
  pub http_handler_preflight :
      (oauth : Option Server) (r : Request) (w : World S)
      → text_eq r.method (text "OPTIONS") ≡ true
      → http_handler s encode p now oauth r w ≡ http_handler s encode p now none r w
  unfolding http_handler with_cors
  http_handler_preflight oauth r w e = rw (e) refl
