-- ===== src/Oauth/Pkce.antt =====
-- oauth/pkce.go. The hash function (crypto/sha256) is a parameter.
pub mod Laws
use lib_agent_mcp.Prelude.{ℕ, Bool, false, List, not, ◌||◌, if◌then◌else◌}
use lib_agent_mcp.Prelude.Text.{Text, text, text_eq, is_empty}
use lib_agent_mcp.Oauth.Encoding.{encode64}

unfoldable pub method_s256 : Text
method_s256 = text "S256"

unfoldable pub verify_pkce : (Text → List ℕ) → Text → Text → Text → Bool
verify_pkce sha256 challenge method verifier =
    if not (text_eq method method_s256) || is_empty challenge || is_empty verifier
    then false
    else text_eq (encode64 (sha256 verifier)) challenge
