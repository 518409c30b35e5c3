-- ===== src/Oauth/Pkce/Laws.antt =====
-- What the PKCE check accepts.
use lib_agent_mcp.Prelude.{ℕ, ◌≡◌, ◌↔◌, ◌≢◌, true, false, List, [], arith}
use lib_agent_mcp.Prelude.Text.{Text, text_eq_iff, is_empty}
use lib_agent_mcp.Oauth.Encoding.{encode64}
use lib_agent_mcp.Oauth.Pkce.{method_s256, verify_pkce}

pub is_empty-eq-false_iff : (s : Text) → (is_empty s ≡ false) ↔ (s ≢ [])
unfolding is_empty
is_empty-eq-false_iff s = ground arith

-- The PKCE check passes exactly for the method S256, a verifier and a challenge that are not empty,
-- and a challenge that is the encoded hash of the verifier.
pub verify_pkce_iff :
    (sha256 : Text → List ℕ) (challenge method verifier : Text)
    → (verify_pkce sha256 challenge method verifier ≡ true) ↔ (
        (method ≡ method_s256)
        × (challenge ≢ [])
        × (verifier ≢ [])
        × (encode64 (sha256 verifier) ≡ challenge))
unfolding verify_pkce
verify_pkce_iff sha256 challenge method verifier = ground (
  arith,
  text_eq_iff method method_s256,
  is_empty-eq-false_iff challenge,
  is_empty-eq-false_iff verifier,
  text_eq_iff (encode64 (sha256 verifier)) challenge,
)
