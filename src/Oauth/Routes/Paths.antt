-- ===== src/Oauth/Routes/Paths.antt =====
-- Which paths net/http serves under the pattern of the same text.
use mathlib.Core.List.{append_assoc}
use lib_agent_mcp.Prelude.{
  ℕ, Bool, true, not, ◌≡◌, ◌&&◌, ◌||◌, ◌==◌, leb, Option, none, [], ◌∷◌, ◌++◌, All, all,
}
use lib_agent_mcp.Prelude.Text.{Text, text, text_eq, is_empty}
use lib_agent_mcp.Prelude.Dict.{Dict, lookup}
use lib_agent_mcp.Oauth.Routes.{Endpoint}

-- Letters, digits, and - . _ ~
unfoldable pub is_unreserved : ℕ → Bool
is_unreserved c =
    (leb (b'a') c && leb c (b'z'))
    || ((leb (b'A') c && leb c (b'Z'))
        || ((leb (b'0') c && leb c (b'9'))
            || (c == b'-' || (c == b'.' || (c == b'_' || c == b'~')))))

unfoldable pub is_segment : Text → Bool
is_segment s =
    not (is_empty s || (text_eq s (text ".") || text_eq s (text ".."))) && all is_unreserved s

-- A path that needs no cleaning, and that stands for nothing but itself in a pattern: it has no empty
-- segment, no "." and no "..", no slash at its end, no wildcard, space or percent sign.
pub data IsPlain : Text → Type 0 where
  one : (segment : Text) → is_segment segment ≡ true → IsPlain (b'/' ∷ segment)
  below :
      {path : Text}
      → IsPlain path
      → (segment : Text) → is_segment segment ≡ true
      → IsPlain (path ++ (b'/' ∷ segment))

pub IsPlain-append : {p q : Text} → IsPlain p → IsPlain q → IsPlain (p ++ q)
IsPlain-append h (one s e) = below h s e
IsPlain-append {p} h (below {path} k s e) =
    rw (append_assoc p path (b'/' ∷ s)) at (below (IsPlain-append h k) s e)

abbrev pub HasPlainPattern : Text × Endpoint → Type 0
HasPlainPattern r = IsPlain r.0

abbrev pub AreDistinct : Dict Endpoint → Type 0
AreDistinct [] = Unit
AreDistinct ((pattern, _) ∷ rest) = (lookup pattern rest ≡ none) × AreDistinct rest

-- The documented behaviour of http.ServeMux, whose `serves` finds the handler for a path: where all
-- patterns are plain paths and no two are equal, a plain path gets the handler of its own pattern or none.
abbrev pub IsServeMux : (Dict Endpoint → Text → Option Endpoint) → Type 0
IsServeMux serves =
    (patterns : Dict Endpoint) (path : Text)
    → All HasPlainPattern patterns
    → AreDistinct patterns
    → IsPlain path
    → serves patterns path ≡ lookup path patterns
