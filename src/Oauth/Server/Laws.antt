-- ===== src/Oauth/Server/Laws.antt =====
-- What the gate in front of /mcp guarantees, and what `new` sets up.
use lib_agent_mcp.Prelude.{ℕ, ◌≡◌, ◌⊎◌, inl, inr, false, arith, Bool-cases}
use lib_agent_mcp.Prelude.Text.{is_empty}
use lib_agent_mcp.Exec.{ok, Result-cases}
use lib_agent_mcp.Oauth.World.{World, Verified}
use lib_agent_mcp.Oauth.Token.{validate}
use lib_agent_mcp.Oauth.Http.{Request, Handler, bearer_token}
use lib_agent_mcp.Oauth.Server.{Platform, Server, protect, admitted, challenge}

module _ {S : Type 0} (p : Platform S) (s : Server) (now : ℕ) (next : Verified → Handler S) where
  -- A request to the protected handler either carries a bearer token that validates, and is handed
  -- on with the identity of that token, or is answered 401 and changes nothing.
  pub protect_cases :
      (r : Request) (w : World S)
      → ((v : Verified) × (validate p.jwt s.issuer now (bearer_token r) ≡ ok v)
          × (is_empty (bearer_token r) ≡ false)
          × (protect p s now next r w ≡ next v w))
        ⊎ (((protect p s now next r w).0.status ≡ 401) × ((protect p s now next r w).1 ≡ w))
  unfolding protect admitted challenge
  protect_cases r w = elim (Bool-cases (is_empty (bearer_token r))) [
    | inl missing ↦ inr (ground arith, ground arith)
    | inr given ↦ elim (Result-cases (validate p.jwt s.issuer now (bearer_token r))) [
      | inl (v, h) ↦ inl (v, h, given, ground arith)
      | inr (f, h) ↦ inr (ground arith, ground arith)
    ]
  ]
