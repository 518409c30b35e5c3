-- ===== src/Oauth/Pairing.antt =====
-- oauth/pairing.go: the codes that a human enters, and their comparison.
pub mod Digits
pub mod RoundTrip
use lib_agent_mcp.Prelude.{
  ℕ, Bool, Option, none, some, List, [], ◌∷◌, ◌++◌, map, ◌==◌, take, if◌then◌else◌,
}
use lib_agent_mcp.Prelude.Text.{
  Text, text, text_eq, to_lower, to_upper, trim_space, trim_prefix, remove_byte, join,
}
use lib_agent_mcp.Exec.{Exec, pure, ◌>>=◌, ◌>>◌}
use lib_agent_mcp.Oauth.Encoding.{encode32}
use lib_agent_mcp.Oauth.Store.{SecretStore}
use lib_agent_mcp.Oauth.World.{World, Rand, on_store, read_random}

unfoldable pub pairing_code_store_key : Text
pairing_code_store_key = text "pairing-code"

unfoldable pub pairing_prefix : Text
pairing_prefix = text "mcp-"

-- strings.NewReplacer("o", "0", "i", "1", "l", "1")
unfoldable pub fold_confusable : ℕ → ℕ
fold_confusable c =
    if c == b'o' then b'0' else if c == b'i' then b'1' else if c == b'l' then b'1' else c

-- strings.NewReplacer("-", "", " ", "")
unfoldable pub remove_separators : Text → Text
unfolding remove_byte
remove_separators s = remove_byte b' ' (remove_byte b'-' s)

unfoldable pub normalize_pairing : Text → Text
normalize_pairing s =
    let s = to_lower (trim_space s) in
    let s = remove_separators s in
    let s = trim_prefix s (remove_byte b'-' pairing_prefix) in
    let s = map fold_confusable s in to_upper s

unfoldable pub constant_time_equal_pairing : Text → Text → Bool
constant_time_equal_pairing normalized_input stored_code =
    text_eq normalized_input (normalize_pairing stored_code)

-- `for i := 0; i < len(s); i += 5 { groups = append(groups, s[i:i+5]) }`, for a text whose length is
-- a multiple of five.
unfoldable pub groups_of_five : Text → List Text
groups_of_five (a ∷ b ∷ c ∷ d ∷ e ∷ s) = (a ∷ b ∷ c ∷ d ∷ e ∷ []) ∷ groups_of_five s
groups_of_five _ = []

-- The code that 16 random bytes give.
unfoldable pub pairing_code_of : List ℕ → Text
pairing_code_of b = pairing_prefix ++ join (groups_of_five (take 25 (encode32 b))) (b'-' ∷ [])

module _ {S : Type 0} where
  unfoldable pub generate_pairing_code : Rand → Exec (World S) Text
  generate_pairing_code rand = do b ← read_random rand 16; pure (pairing_code_of b)

module _ {S : Type 0} (store : SecretStore S) (rand : Rand) where
  unfoldable pub rotate : Exec (World S) Text
  rotate = do
    code ← generate_pairing_code rand
    on_store (store.set pairing_code_store_key code)
    pure code

  unfoldable pub found_or_rotate : Option Text → Exec (World S) Text
  found_or_rotate (some v) = pure v
  found_or_rotate none = rotate

  -- The method Code: the stored code, or a fresh one that is stored.
  unfoldable pub code : Exec (World S) Text
  code = do v ← on_store (store.get pairing_code_store_key); found_or_rotate v
