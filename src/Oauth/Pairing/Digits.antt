-- ===== src/Oauth/Pairing/Digits.antt =====
-- The digits of a pairing code.
use lib_agent_mcp.Prelude.{
  ℕ, zero, suc, ◌+◌, ◌<◌, ◌≤◌, ◌/◌, ◌%◌, ◌*◌, ◌≡◌, ap, refl, arith, Bool, true, not, ◌&&◌, ◌||◌,
  ◌==◌, leb, List, [], ◌∷◌, take, length, all, All,
}
use lib_agent_mcp.Prelude.Text.{Text, text}
use lib_agent_mcp.Oauth.Encoding.{nth, crockford, digit32, encode32}
use lib_agent_mcp.Oauth.Encoding.RoundTrip.{IsByte}

unfoldable pub is_crockford : ℕ → Bool
is_crockford c =
    ((leb b'0' c && leb c b'9') || (leb b'A' c && leb c b'Z'))
    && not (c == b'I' || (c == b'L' || c == b'O'))

-- A digit of the alphabet.
abbrev pub IsCrockford : ℕ → Type 0
IsCrockford c = is_crockford c ≡ true

nth-All : (P : ℕ → Type 0) (s : Text) (i : ℕ) → All P s → i < length s → P (nth s i)
unfolding nth
nth-All P [] i h lt = ground arith
nth-All P (c ∷ s) zero (h, hs) lt = h
nth-All P (c ∷ s) (suc i) (h, hs) lt = nth-All P s i hs (omega (arith, lt))

all-All : (p : ℕ → Bool) (s : Text) → all p s ≡ true → All (λ c. p c ≡ true) s
all-All p [] h = tt
all-All p (c ∷ s) h = (ground arith, all-All p s (ground arith))

digit32-IsCrockford : (n : ℕ) → n < 32 → IsCrockford (digit32 n)
unfolding digit32 crockford text nth is_crockford
digit32-IsCrockford n h = nth-All IsCrockford crockford n (all-All is_crockford crockford refl) h

pub length-encode32 : (b : List ℕ) → length b * 8 ≤ length (encode32 b) * 5
unfolding encode32
length-encode32 [] = omega arith
length-encode32 (a ∷ []) = omega arith
length-encode32 (a ∷ b ∷ []) = omega arith
length-encode32 (a ∷ b ∷ c ∷ []) = omega arith
length-encode32 (a ∷ b ∷ c ∷ d ∷ []) = omega arith
length-encode32 (a ∷ b ∷ c ∷ d ∷ e ∷ bytes) = omega (arith, length-encode32 bytes)

pub encode32-IsCrockford : (b : List ℕ) → All IsByte b → All IsCrockford (encode32 b)
unfolding encode32
encode32-IsCrockford [] h = tt
encode32-IsCrockford (a ∷ []) (ha, _) =
    (digit32-IsCrockford (a / 8) (omega arith), (digit32-IsCrockford (a % 8 * 4) (omega arith), tt))
encode32-IsCrockford (a ∷ b ∷ []) (ha, (hb, _)) = (
  digit32-IsCrockford (a / 8) (omega arith),
  (
    digit32-IsCrockford (a % 8 * 4 + b / 64) (omega arith),
    (
      digit32-IsCrockford (b / 2 % 32) (omega arith),
      (digit32-IsCrockford (b % 2 * 16) (omega arith), tt),
    ),
  ),
)
encode32-IsCrockford (a ∷ b ∷ c ∷ []) (ha, (hb, (hc, _))) = (
  digit32-IsCrockford (a / 8) (omega arith),
  (
    digit32-IsCrockford (a % 8 * 4 + b / 64) (omega arith),
    (
      digit32-IsCrockford (b / 2 % 32) (omega arith),
      (
        digit32-IsCrockford (b % 2 * 16 + c / 16) (omega arith),
        (digit32-IsCrockford (c % 16 * 2) (omega arith), tt),
      ),
    ),
  ),
)
encode32-IsCrockford (a ∷ b ∷ c ∷ d ∷ []) (ha, (hb, (hc, (hd, _)))) = (
  digit32-IsCrockford (a / 8) (omega arith),
  (
    digit32-IsCrockford (a % 8 * 4 + b / 64) (omega arith),
    (
      digit32-IsCrockford (b / 2 % 32) (omega arith),
      (
        digit32-IsCrockford (b % 2 * 16 + c / 16) (omega arith),
        (
          digit32-IsCrockford (c % 16 * 2 + d / 128) (omega arith),
          (
            digit32-IsCrockford (d / 4 % 32) (omega arith),
            (digit32-IsCrockford (d % 4 * 8) (omega arith), tt),
          ),
        ),
      ),
    ),
  ),
)
encode32-IsCrockford (a ∷ b ∷ c ∷ d ∷ e ∷ bytes) (ha, (hb, (hc, (hd, (he, h))))) = (
  digit32-IsCrockford (a / 8) (omega arith),
  (
    digit32-IsCrockford (a % 8 * 4 + b / 64) (omega arith),
    (
      digit32-IsCrockford (b / 2 % 32) (omega arith),
      (
        digit32-IsCrockford (b % 2 * 16 + c / 16) (omega arith),
        (
          digit32-IsCrockford (c % 16 * 2 + d / 128) (omega arith),
          (
            digit32-IsCrockford (d / 4 % 32) (omega arith),
            (
              digit32-IsCrockford (d % 4 * 8 + e / 32) (omega arith),
              (digit32-IsCrockford (e % 32) (omega arith), encode32-IsCrockford bytes h),
            ),
          ),
        ),
      ),
    ),
  ),
)

pub length-take : (n : ℕ) (s : Text) → n ≤ length s → length (take n s) ≡ n
length-take zero s h = refl
length-take (suc n) [] h = omega (arith, h)
length-take (suc n) (c ∷ s) h = ap suc (length-take n s (omega (arith, h)))

pub take-All : (P : ℕ → Type 0) (n : ℕ) (s : Text) → All P s → All P (take n s)
take-All P zero s h = tt
take-All P (suc n) [] h = tt
take-All P (suc n) (c ∷ s) (h, hs) = (h, take-All P n s hs)
