-- ===== src/Oauth/Encoding.antt =====
-- encoding/base64 (RawURLEncoding) and encoding/base32 (with the alphabet of oauth/pairing.go and no
-- padding), as far as the package calls them. A byte is a number below 256.
pub mod RoundTrip
use lib_agent_mcp.Prelude.{
  ℕ, zero, suc, ◌+◌, ◌-◌, ◌*◌, ◌/◌, ◌%◌, Option, none, some, List, [], ◌∷◌, ltb, leb, ◌==◌, ◌&&◌,
  ◌||◌, if◌then◌else◌,
}
use lib_agent_mcp.Prelude.Text.{Text, text}

unfoldable pub digit64 : ℕ → ℕ
digit64 n =
    if ltb n 26
    then b'A' + n
    else if ltb n 52
    then b'a' + (n - 26)
    else if ltb n 62
    then b'0' + (n - 52)
    else if n == 62
    then b'-'
    else b'_'

unfoldable pub value64 : ℕ → Option ℕ
value64 c =
    if leb b'A' c && leb c b'Z'
    then some (c - b'A')
    else if leb b'a' c && leb c b'z'
    then some (c - b'a' + 26)
    else if leb b'0' c && leb c b'9'
    then some (c - b'0' + 52)
    else if c == b'-'
    then some 62
    else if c == b'_'
    then some 63
    else none

-- base64.RawURLEncoding.EncodeToString
unfoldable pub encode64 : List ℕ → Text
unfolding digit64
encode64 [] = []
encode64 (a ∷ []) = digit64 (a / 4) ∷ digit64 (a % 4 * 16) ∷ []
encode64 (a ∷ b ∷ []) = digit64 (a / 4) ∷ digit64 (a % 4 * 16 + b / 16) ∷ digit64 (b % 16 * 4) ∷ []
encode64 (a ∷ b ∷ c ∷ bytes) =
    digit64 (a / 4)
    ∷ digit64 (a % 4 * 16 + b / 16)
    ∷ digit64 (b % 16 * 4 + c / 64)
    ∷ digit64 (c % 64)
    ∷ encode64 bytes

abbrev pub all_some : List (Option ℕ) → Option (List ℕ)
all_some [] = some []
all_some (none ∷ os) = none
all_some (some n ∷ os) = elim (all_some os) [ none ↦ none | some ns ↦ some (n ∷ ns) ]

-- The bytes of the digits' values; a last group of one digit is an error.
unfoldable pub join64 : List ℕ → Option (List ℕ)
join64 [] = some []
join64 (p ∷ []) = none
join64 (p ∷ q ∷ []) = some ((p * 4 + q / 16) ∷ [])
join64 (p ∷ q ∷ r ∷ []) = some ((p * 4 + q / 16) ∷ (q % 16 * 16 + r / 4) ∷ [])
join64 (p ∷ q ∷ r ∷ s ∷ rest) = elim (join64 rest) [
  | none ↦ none
  | some bytes ↦ some ((p * 4 + q / 16) ∷ (q % 16 * 16 + r / 4) ∷ (r % 4 * 64 + s) ∷ bytes)
]

-- The values of the digits; line ends are skipped.
unfoldable pub values64 : Text → Option (List ℕ)
unfolding value64
values64 [] = some []
values64 (c ∷ s) =
    let rest = values64 s in
    if c == 10 || c == 13 then rest else elim (value64 c) [
      | none ↦ none
      | some n ↦ elim rest [ none ↦ none | some ns ↦ some (n ∷ ns) ]
    ]

-- base64.RawURLEncoding.DecodeString
unfoldable pub decode64 : Text → Option (List ℕ)
unfolding values64 join64
decode64 s = elim (values64 s) [ none ↦ none | some ns ↦ join64 ns ]

unfoldable pub nth : Text → ℕ → ℕ
nth [] i = 0
nth (c ∷ s) zero = c
nth (c ∷ s) (suc i) = nth s i

unfoldable pub crockford : Text
unfolding text
crockford = text "0123456789ABCDEFGHJKMNPQRSTVWXYZ"

unfoldable pub digit32 : ℕ → ℕ
unfolding crockford nth
digit32 n = nth crockford n

-- crockEnc.EncodeToString: eight digits for five bytes; a shorter last group is filled up with
-- zero bits.
unfoldable pub encode32 : List ℕ → Text
unfolding digit32
encode32 [] = []
encode32 (a ∷ []) = digit32 (a / 8) ∷ digit32 (a % 8 * 4) ∷ []
encode32 (a ∷ b ∷ []) =
    digit32 (a / 8)
    ∷ digit32 (a % 8 * 4 + b / 64)
    ∷ digit32 (b / 2 % 32)
    ∷ digit32 (b % 2 * 16)
    ∷ []
encode32 (a ∷ b ∷ c ∷ []) =
    digit32 (a / 8)
    ∷ digit32 (a % 8 * 4 + b / 64)
    ∷ digit32 (b / 2 % 32)
    ∷ digit32 (b % 2 * 16 + c / 16)
    ∷ digit32 (c % 16 * 2)
    ∷ []
encode32 (a ∷ b ∷ c ∷ d ∷ []) =
    digit32 (a / 8)
    ∷ digit32 (a % 8 * 4 + b / 64)
    ∷ digit32 (b / 2 % 32)
    ∷ digit32 (b % 2 * 16 + c / 16)
    ∷ digit32 (c % 16 * 2 + d / 128)
    ∷ digit32 (d / 4 % 32)
    ∷ digit32 (d % 4 * 8)
    ∷ []
encode32 (a ∷ b ∷ c ∷ d ∷ e ∷ bytes) =
    digit32 (a / 8)
    ∷ digit32 (a % 8 * 4 + b / 64)
    ∷ digit32 (b / 2 % 32)
    ∷ digit32 (b % 2 * 16 + c / 16)
    ∷ digit32 (c % 16 * 2 + d / 128)
    ∷ digit32 (d / 4 % 32)
    ∷ digit32 (d % 4 * 8 + e / 32)
    ∷ digit32 (e % 32)
    ∷ encode32 bytes
