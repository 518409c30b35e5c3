-- ===== src/Tests/Issued.antt =====
-- A principal is added to the scene, and enters the code that was issued.
use lib_agent_mcp.Prelude.{
  ℕ, ◌≡◌, ◌≢◌, refl, sym, ◌∙◌, ap, Bool-cases, inl, inr, Option, some, none, [], ◌∷◌, arith, length,
  if◌then◌else◌,
}
use lib_agent_mcp.Prelude.Text.{
  Text, text, text_eq, is_empty, to_lower, to_upper, lower, upper, trim_space, trim_prefix, strip,
  remove_byte, trim_right, drop_while, is_space, has_prefix, join,
}
use lib_agent_mcp.Prelude.Dict.{lookup, insert, erase}
use lib_agent_mcp.Exec.{ok}
use lib_agent_mcp.Oauth.Store.{mem_store}
use lib_agent_mcp.Oauth.Store.Laws.{mem_store-IsLawful}
use lib_agent_mcp.Oauth.MapStore
use lib_agent_mcp.Oauth.World.{PrincipalRecord}
use lib_agent_mcp.Oauth.Encoding.{encode32, digit32, crockford, nth}
use lib_agent_mcp.Oauth.Pairing.{
  normalize_pairing, remove_separators, fold_confusable, pairing_prefix, found_or_rotate,
  pairing_code_store_key, pairing_code_of, groups_of_five, generate_pairing_code,
}
use lib_agent_mcp.Oauth.Pairing
use lib_agent_mcp.Oauth.Principal.{
  principals, principals_store_key, add_principal, verify_principal,
}
use lib_agent_mcp.Oauth.Principal.Verify.{Consulted}
use lib_agent_mcp.Oauth.Principal.Added.{verify_principal-add_principal}
use lib_agent_mcp.Tests.Codec.{principal_record, json, json-IsLossless}
use lib_agent_mcp.Tests.Fixture.{rand, repeat}
use lib_agent_mcp.Tests.Scene.{scene}

abbrev issued : Text
issued = pairing_code_of (repeat 16 3)

abbrev typed : Text
typed = to_lower issued

adds : (add_principal mem_store (json principal_record) rand (text "bob") [] scene).0 ≡ ok issued
unfolding add_principal generate_pairing_code mem_store MapStore.mutate MapStore.load MapStore.saved
    MapStore.save MapStore.parsed MapStore.encoded MapStore.decoded principals_store_key lookup
    insert erase text text_eq is_empty pairing_code_of pairing_prefix groups_of_five join encode32
    digit32 crockford nth
adds = refl

same_code : normalize_pairing typed ≡ normalize_pairing issued
unfolding normalize_pairing remove_separators fold_confusable pairing_prefix text text_eq to_lower
    to_upper lower upper trim_space trim_right drop_while is_space trim_prefix strip has_prefix
    remove_byte pairing_code_of groups_of_five join encode32 digit32 crockford nth
same_code = refl

read :
    Consulted mem_store
      (json principal_record)
      rand
      (add_principal mem_store (json principal_record) rand (text "bob") [] scene).1
unfolding Pairing.code found_or_rotate pairing_code_store_key add_principal generate_pairing_code
    mem_store MapStore.mutate MapStore.load MapStore.saved MapStore.save MapStore.parsed
    MapStore.encoded MapStore.decoded principals_store_key lookup insert erase text text_eq is_empty
    pairing_code_of pairing_prefix groups_of_five join encode32 digit32 crockford nth
read = record {
  shared = text "mcp-j7";
  records =
      (text "bob", record { code = issued; binding = [] })
      ∷ (text "ann", record { code = text "k2"; binding = [] })
      ∷ [];
  shared_read = refl;
  records_read = refl;
}

lengths_differ : ◌≡◌ {A = ℕ} 25 2 → ⊥
lengths_differ e = omega (arith, e)

unshared : normalize_pairing typed ≢ normalize_pairing read.shared
unfolding read normalize_pairing remove_separators fold_confusable pairing_prefix text text_eq
    to_lower to_upper lower upper trim_space trim_right drop_while is_space trim_prefix strip
    has_prefix remove_byte pairing_code_of groups_of_five join encode32 digit32 crockford nth
unshared e = lengths_differ (ap length e)

not_ann : normalize_pairing typed ≢ normalize_pairing (text "k2")
unfolding normalize_pairing remove_separators fold_confusable pairing_prefix text text_eq to_lower
    to_upper lower upper trim_space trim_right drop_while is_space trim_prefix strip has_prefix
    remove_byte pairing_code_of groups_of_five join encode32 digit32 crockford nth
not_ann e = lengths_differ (ap length e)

abbrev only : Text → Option PrincipalRecord
only n = if text_eq (text "ann") n then some (record { code = text "k2"; binding = [] }) else none

held_before :
    (n : Text)
    → (MapStore.get (principals mem_store (json principal_record) rand) n scene.secrets).0
      ≡ ok (only n)
unfolding mem_store MapStore.get MapStore.load MapStore.parsed MapStore.decoded principals_store_key
    lookup text text_eq is_empty
held_before n = refl

code_of :
    (n : Text) (q : PrincipalRecord)
    → ok (only n) ≡ ok (some q)
    → normalize_pairing q.code ≡ normalize_pairing (text "k2")
code_of n q e = elim (Bool-cases (text_eq (text "ann") n)) [
  | inl same ↦
      ap (λ (r : PrincipalRecord). normalize_pairing r.code) (sym (of_some (rw (same) at e)))
  | inr other ↦ absurd (not_some (rw (other) at e))
]
  where
    of_some : {r : PrincipalRecord} → ok (some r) ≡ ok (some q) → r ≡ q
    of_some h = cc

    not_some : ok none ≡ ok (some q) → ⊥
    not_some h = ground arith

verify_principal-add_principal_example :
    (verify_principal mem_store
      (json principal_record)
      rand
      typed
      (add_principal mem_store (json principal_record) rand (text "bob") [] scene).1).0
    ≡ ok (some (record { name = text "bob"; binding = [] }))
verify_principal-add_principal_example =
    verify_principal-add_principal mem_store (json principal_record) rand mem_store-IsLawful
      (json-IsLossless principal_record) (text "bob") typed [] scene adds same_code read unshared
      (λ n q found same. absurd (not_ann (same ∙ code_of n q (sym (held_before n) ∙ found))))
