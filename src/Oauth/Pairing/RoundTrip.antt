-- ===== src/Oauth/Pairing/RoundTrip.antt =====
-- That a pairing code is recognised however it is typed.
use lib_agent_mcp.Prelude.{
  ℕ, zero, suc, ◌<◌, ◌*◌, ◌≡◌, ◌∙◌, refl, arith, false, ◌==◌, List, [], ◌∷◌, ◌++◌, map, take,
  length, All, All-append,
}
use mathlib.Core.List.{reverse, reverse-cons, reverse-reverse}
use lib_agent_mcp.Prelude.Text.{
  Text, text, lower, upper, to_lower, to_upper, is_space, drop_while, trim_right, trim_space, strip,
  trim_prefix, remove_byte, join,
}
use lib_agent_mcp.Oauth.Encoding.{encode32}
use lib_agent_mcp.Oauth.Encoding.RoundTrip.{IsByte}
use lib_agent_mcp.Oauth.Pairing.Digits.{
  is_crockford, IsCrockford, encode32-IsCrockford, length-encode32, length-take, take-All,
}
use lib_agent_mcp.Oauth.Pairing.{
  pairing_prefix, fold_confusable, remove_separators, normalize_pairing, groups_of_five,
  pairing_code_of,
}

fold-lower : (c : ℕ) → IsCrockford c → upper (fold_confusable (lower c)) ≡ c
unfolding is_crockford fold_confusable lower upper
fold-lower c h = ground arith

lower-ne : (c x : ℕ) → x < 65 → (lower c == x) ≡ (c == x)
unfolding lower
lower-ne c x h = ground arith

not_separator :
    (c : ℕ) → IsCrockford c → ((c == b'-') ≡ false) × ((c == b' ') ≡ false) × (is_space c ≡ false)
unfolding is_crockford is_space
not_separator c h = (ground arith, ground arith, ground arith)

-- Five digits at a time.
data Fives : Text → Type 0 where
  none : Fives []
  five : (a b c d e : ℕ) {s : Text} → Fives s → Fives (a ∷ b ∷ c ∷ d ∷ e ∷ s)

keep : (x c : ℕ) (s : Text) → (c == x) ≡ false → remove_byte x (c ∷ s) ≡ c ∷ remove_byte x s
unfolding remove_byte
keep x c s h = rw (h) refl

remove_byte-none : (x : ℕ) (s : Text) → All (λ c. (c == x) ≡ false) s → remove_byte x s ≡ s
unfolding remove_byte
remove_byte-none x [] h = refl
remove_byte-none x (c ∷ s) (h, hs) = rw (h, remove_byte-none x s hs) refl

remove_byte-append :
    (x : ℕ) (s t : Text) → remove_byte x (s ++ t) ≡ remove_byte x s ++ remove_byte x t
unfolding remove_byte
remove_byte-append x [] t = refl
remove_byte-append x (c ∷ s) t = ground (arith, remove_byte-append x s t)

remove_byte-to_lower :
    (x : ℕ) (s : Text) → x < 65 → remove_byte x (to_lower s) ≡ to_lower (remove_byte x s)
unfolding remove_byte to_lower
remove_byte-to_lower x [] h = refl
remove_byte-to_lower x (c ∷ s) h = ground (arith, lower-ne c x h, remove_byte-to_lower x s h)

All-map : {P Q : ℕ → Type 0} (s : Text) → ((c : ℕ) → P c → Q c) → All P s → All Q s
All-map [] f h = tt
All-map (c ∷ s) f (h, hs) = (f c h, All-map s f hs)

-- Without its hyphens a grouped text is the text.
ungrouped :
    {s : Text}
    → Fives s
    → All IsCrockford s
    → remove_byte b'-' (join (groups_of_five s) (b'-' ∷ [])) ≡ s
unfolding groups_of_five join remove_byte
ungrouped none h = refl
ungrouped (five a b c d e none) h =
    remove_byte-none b'-' (a ∷ b ∷ c ∷ d ∷ e ∷ [])
      (All-map (a ∷ b ∷ c ∷ d ∷ e ∷ []) (λ c k. (not_separator c k).0) h)
ungrouped (five a b c d e (five f g i j k rest)) (ha, (hb, (hc, (hd, (he, hs))))) =
    rw
      (
        (not_separator a ha).0,
        (not_separator b hb).0,
        (not_separator c hc).0,
        (not_separator d hd).0,
        (not_separator e he).0,
        ungrouped (five f g i j k rest) hs,
      )
      refl

folded : (s : Text) → All IsCrockford s → to_upper (map fold_confusable (to_lower s)) ≡ s
unfolding to_upper to_lower
folded [] h = refl
folded (c ∷ s) (h, hs) = rw (fold-lower c h, folded s hs) refl

length-Fives : (n : ℕ) (s : Text) → length s ≡ 5 * n → Fives s
length-Fives zero [] h = none
length-Fives zero (c ∷ s) h = absurd (omega (arith, h))
length-Fives (suc n) (a ∷ b ∷ c ∷ d ∷ e ∷ s) h =
    five a b c d e (length-Fives n s (omega (arith, h)))
length-Fives (suc n) [] h = absurd (omega (arith, h))
length-Fives (suc n) (a ∷ []) h = absurd (omega (arith, h))
length-Fives (suc n) (a ∷ b ∷ []) h = absurd (omega (arith, h))
length-Fives (suc n) (a ∷ b ∷ c ∷ []) h = absurd (omega (arith, h))
length-Fives (suc n) (a ∷ b ∷ c ∷ d ∷ []) h = absurd (omega (arith, h))

joined-All :
    (P : ℕ → Type 0) {s : Text}
    → Fives s
    → P b'-'
    → All P s
    → All P (join (groups_of_five s) (b'-' ∷ []))
unfolding groups_of_five join
joined-All P none hyphen h = tt
joined-All P (five a b c d e none) hyphen h = h
joined-All P (five a b c d e (five f g i j k rest)) hyphen (ha, (hb, (hc, (hd, (he, hs))))) =
    (ha, (hb, (hc, (hd, (he, (hyphen, joined-All P (five f g i j k rest) hyphen hs))))))

abbrev IsSolid : ℕ → Type 0
IsSolid c = is_space c ≡ false

drop_while-solid : (s : Text) → All IsSolid s → drop_while is_space s ≡ s
unfolding drop_while
drop_while-solid [] h = refl
drop_while-solid (c ∷ s) (h, hs) = rw (h) refl

All-reverse : (P : ℕ → Type 0) (s : Text) → All P s → All P (reverse s)
All-reverse P [] h = tt
All-reverse P (c ∷ s) (h, hs) =
    rw (reverse-cons c s) (All-append P (reverse s) (c ∷ []) (All-reverse P s hs) (h, tt))

trim_space-solid : (s : Text) → All IsSolid s → trim_space s ≡ s
unfolding trim_space trim_right
trim_space-solid s h =
    rw (drop_while-solid s h, drop_while-solid (reverse s) (All-reverse IsSolid s h))
      (reverse-reverse s)

-- An entered text whose separators are gone and that starts with the prefix gives the digits.
normalize_pairing-folded :
    (t s : Text)
    → All IsCrockford s
    → remove_separators (to_lower (trim_space t)) ≡ text "mcp" ++ to_lower s
    → normalize_pairing t ≡ s
unfolding normalize_pairing pairing_prefix trim_prefix strip remove_byte text
normalize_pairing-folded t s h e = rw (e) (folded s h)

bare_prefix : remove_byte b'-' pairing_prefix ≡ text "mcp"
unfolding remove_byte pairing_prefix text
bare_prefix = refl

pairing_prefix-IsSolid : All IsSolid pairing_prefix
unfolding pairing_prefix text is_space
pairing_prefix-IsSolid = (refl, (refl, (refl, (refl, tt))))

hyphen-IsSolid : IsSolid b'-'
unfolding is_space
hyphen-IsSolid = refl

no_space : remove_byte b' ' (text "mcp") ≡ text "mcp"
unfolding remove_byte text
no_space = refl

lower_prefix : (s : Text) → to_lower (text "mcp" ++ s) ≡ text "mcp" ++ to_lower s
unfolding to_lower lower text
lower_prefix s = refl

remove_separators-code :
    (s : Text)
    → Fives s
    → All IsCrockford s
    → remove_separators (to_lower (pairing_prefix ++ join (groups_of_five s) (b'-' ∷ [])))
      ≡ text "mcp" ++ to_lower s
unfolding remove_separators
remove_separators-code s fives h =
    let grouped = join (groups_of_five s) (b'-' ∷ []) in
    rw
      (
        remove_byte-to_lower b'-' (pairing_prefix ++ grouped) (omega arith),
        remove_byte-append b'-' pairing_prefix grouped,
        ungrouped fives h,
        bare_prefix,
        remove_byte-to_lower b' ' (text "mcp" ++ s) (omega arith),
        remove_byte-append b' ' (text "mcp") s,
        no_space,
        remove_byte-none b' ' s (All-map s (λ c k. (not_separator c k).1) h),
      )
      (lower_prefix s)

-- Of a code made from 16 random bytes, a text that agrees with it up to letter case, spaces,
-- hyphens and white space around it normalises to the 25 digits that the code was made from.
pub normalize_pairing-typed :
    (b : List ℕ) (t : Text)
    → length b ≡ 16
    → All IsByte b
    → remove_separators (to_lower (trim_space t))
      ≡ remove_separators (to_lower (trim_space (pairing_code_of b)))
    → normalize_pairing t ≡ take 25 (encode32 b)
unfolding pairing_code_of
normalize_pairing-typed b t long bytes same =
    let s = take 25 (encode32 b) in
    let digits = take-All IsCrockford 25 (encode32 b) (encode32-IsCrockford b bytes) in
    let fives =
      length-Fives 5 s (length-take 25 (encode32 b) (omega (arith, length-encode32 b, long))) in
    let grouped = join (groups_of_five s) (b'-' ∷ []) in
    let solid : All IsSolid (pairing_prefix ++ grouped) =
      All-append IsSolid pairing_prefix grouped pairing_prefix-IsSolid (
        joined-All IsSolid fives hyphen-IsSolid
          (All-map s (λ c k. (not_separator c k).2) digits)) in
    normalize_pairing-folded t s digits (
      same
      ∙ rw (trim_space-solid (pairing_prefix ++ grouped) solid)
          (remove_separators-code s fives digits))
