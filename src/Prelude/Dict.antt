-- ===== src/Prelude/Dict.antt =====
-- Go maps with string keys, as association lists. Proofs elsewhere go by `dict_laws`.
use mathlib.Core.Path.{◌≡◌, refl}
use mathlib.Core.Bool.{Bool}
use mathlib.Core.Option.{Option, none, some}
use mathlib.Core.List.{List, [], ◌∷◌}
use native.Mathlib.Omega.{arith}
use mathlib.Core.Logic.{inl, inr}
use lib_agent_mcp.Prelude.Tests.{if◌then◌else◌, Bool-cases}
use lib_agent_mcp.Prelude.Text.{Text, text_eq, text_eq_iff, text_le}

abbrev pub Dict {ℓ} : Type ℓ → Type ℓ
Dict V = List (Text × V)

module _ {ℓ} {V : Type ℓ} where
  -- `v, ok := m[k]`
  unfoldable pub lookup : Text → Dict V → Option V
  lookup k [] = none
  lookup k ((j, v) ∷ m) = if text_eq j k then some v else lookup k m

  -- `delete(m, k)`
  unfoldable pub erase : Text → Dict V → Dict V
  erase k [] = []
  erase k ((j, v) ∷ m) = let rest = erase k m in if text_eq j k then rest else (j, v) ∷ rest

  -- `m[k] = v`
  unfoldable pub insert : Text → V → Dict V → Dict V
  unfolding erase
  insert k v m = (k, v) ∷ erase k m

  -- `for k, v := range m { if p(v) { delete(m, k) } }`
  unfoldable pub erase_values : (V → Bool) → Dict V → Dict V
  unfolding erase
  erase_values p [] = []
  erase_values p ((j, v) ∷ m) =
      let rest = erase_values p m in if p v then erase j rest else (j, v) ∷ rest

  abbrev pub keys : Dict V → List Text
  keys [] = []
  keys ((j, v) ∷ m) = j ∷ keys m

  pub lookup-nil : (k : Text) → lookup k [] ≡ none
  unfolding lookup
  lookup-nil k = refl

  pub lookup-erase :
      (k j : Text) (m : Dict V) → lookup j (erase k m) ≡ (if text_eq k j then none else lookup j m)
  unfolding lookup erase
  lookup-erase k j [] = ground arith
  lookup-erase k j ((i, v) ∷ m) =
      ground (arith, lookup-erase k j m, text_eq_iff i k, text_eq_iff i j, text_eq_iff k j)

  pub lookup-insert :
      (k j : Text) (v : V) (m : Dict V)
      → lookup j (insert k v m) ≡ (if text_eq k j then some v else lookup j m)
  unfolding lookup insert
  lookup-insert k j v m = ground (arith, lookup-erase k j m)

  abbrev pub unless : (V → Bool) → Option V → Option V
  unless p none = none
  unless p (some v) = if p v then none else some v

  pub lookup-erase_values :
      (p : V → Bool) (k : Text) (m : Dict V) → lookup k (erase_values p m) ≡ unless p (lookup k m)
  unfolding lookup erase_values
  lookup-erase_values p k [] = refl
  lookup-erase_values p k ((j, v) ∷ m) =
      ground (arith, lookup-erase_values p k m, lookup-erase j k (erase_values p m))

module _ {ℓ κ} {V : Type ℓ} (P : Text → V → Type κ) where
  -- Every entry has the property.
  abbrev pub Each : Dict V → Type (ℓ ⊔ κ)
  Each m = (k : Text) (v : V) → lookup k m ≡ some v → P k v

  pub Each-nil : Each []
  Each-nil k v e = ground (arith, lookup-nil {V = V} k)

  pub Each-erase : (j : Text) (m : Dict V) → Each m → Each (erase j m)
  Each-erase j m h k v e = h k v (ground (arith, lookup-erase j k m))

  pub Each-insert : (j : Text) (u : V) (m : Dict V) → P j u → Each m → Each (insert j u m)
  Each-insert j u m new h k v e = elim (Bool-cases (text_eq j k)) [
    | inl same ↦
        let here : j ≡ k = (text_eq_iff j k).0 same in
        let value : u ≡ v = ground (arith, lookup-insert j k u m) in rw (← here, ← value) new
    | inr other ↦ h k v (ground (arith, lookup-insert j k u m))
  ]

pub ruleset dict_laws = (lookup-erase, lookup-insert)

-- slices.Sorted, by insertion; map keys are distinct.
unfoldable pub insert_sorted : Text → List Text → List Text
insert_sorted k [] = k ∷ []
insert_sorted k (j ∷ js) =
    let later = insert_sorted k js in
    if text_eq k j then j ∷ js else if text_le k j then k ∷ j ∷ js else j ∷ later

unfoldable pub sorted : List Text → List Text
unfolding insert_sorted
sorted [] = []
sorted (k ∷ ks) = insert_sorted k (sorted ks)
