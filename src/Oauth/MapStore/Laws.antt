-- ===== src/Oauth/MapStore/Laws.antt =====
-- What a map in a SecretStore promises: a read finds what the last change left, and a change under
-- one key of the store is not seen under another.
use lib_agent_mcp.Prelude.{
  refl, ◌≡◌, inl, inr, true, false, some, none, Option, arith, Option-cases, Bool-cases,
  if◌then◌else◌,
}
use lib_agent_mcp.Prelude.Text.{Text, is_empty, text_eq_refl, text_eq}
use lib_agent_mcp.Prelude.Dict.{Dict, lookup}
use lib_agent_mcp.Exec.{ok, >>=-eq-ok, Result-cases}
use lib_agent_mcp.Oauth.Store.Laws.{IsLawful}
use lib_agent_mcp.Oauth.MapStore.{
  Json, MapStore, Change, parsed, load, save, saved, get, mutate, encoded, decoded,
}

-- The documented round trip of encoding/json: a document that was written reads back as a map with
-- the same entries, and is not empty.
pub record IsLossless {V : Type 0} (json : Json V) : Type 0 where
  pub back :
      (m : Dict V) (t : Text)
      → json.marshal m ≡ some t
      → (m' : Dict V) × (json.unmarshal t ≡ some m')
        × ((k : Text) → lookup k m' ≡ lookup k m)
        × (is_empty t ≡ false)

module _ {S V : Type 0} (ms : MapStore S V) where
  pub get_of_load :
      (k : Text) (s : S) (m : Dict V) → (load ms s).0 ≡ ok m → (get ms k s).0 ≡ ok (lookup k m)
  unfolding get
  get_of_load k s m e = ground arith

  module _ (lawful : IsLawful ms.store) where
    -- Reading changes nothing.
    pub load-reads : (s : S) → (load ms s).1 ≡ s
    unfolding load parsed decoded
    load-reads s = ground (arith, lawful.reads ms.key s)

    pub get-reads : (k : Text) (s : S) → (get ms k s).1 ≡ s
    unfolding get
    get-reads k s = ground (arith, load-reads s)

    module _ (lossless : IsLossless ms.json) where
      -- A map that was saved is read back.
      pub get-save :
          (m : Dict V) (k : Text) (s : S)
          → (save ms m s).0 ≡ ok tt
          → (get ms k (save ms m s).1).0 ≡ ok (lookup k m)
      unfolding save encoded get load parsed decoded
      get-save m k s e = elim (Option-cases (ms.json.marshal m)) [
        | inl h ↦ ground arith
        | inr (t, h) ↦
            let (m', decodes, same, full) = lossless.back m t h in
            ground (arith, lawful.get-set ms.key t ms.key s, text_eq_refl ms.key, same k)
      ]

-- What a successful `mutate` has done: it loaded a map, handed it to the function, and left what
-- the function made of it to be read back, unless the function reported no change.
pub record Mutated {S V B : Type 0} (ms : MapStore S V) (fn : Dict V → Change V B) (s : S) (b : B)
    : Type 0 where
  pub before : Dict V
  pub loaded : (load ms s).0 ≡ ok before
  pub returned : (fn before).captured ≡ b
  pub present : (k : Text) → (get ms k s).0 ≡ ok (lookup k before)
  pub after :
      (k : Text)
      → (get ms k (mutate ms fn s).1).0
        ≡ ok (if (fn before).changed then lookup k (fn before).entries else lookup k before)
  pub kept : (fn before).changed ≡ false → (mutate ms fn s).1 ≡ s

module _ {S V B : Type 0} (ms : MapStore S V) (lawful : IsLawful ms.store)
    (lossless : IsLossless ms.json) where
  saved_returned : (c : Change V B) (t : S) {b : B} → (saved ms c t).0 ≡ ok b → c.captured ≡ b
  unfolding saved
  saved_returned c t e = ground arith

  saved_written :
      (c : Change V B) (t : S) {b : B} (k : Text)
      → (saved ms c t).0 ≡ ok b
      → c.changed ≡ true
      → (get ms k (saved ms c t).1).0 ≡ ok (lookup k c.entries)
  unfolding saved
  saved_written c t k e h = ground (arith, get-save ms lawful lossless c.entries k t)

  saved_kept : (c : Change V B) (t : S) → c.changed ≡ false → (saved ms c t).1 ≡ t
  unfolding saved
  saved_kept c t h = ground arith

  pub mutate_lem :
      (fn : Dict V → Change V B) (s : S) {b : B} → (mutate ms fn s).0 ≡ ok b → Mutated ms fn s b
  unfolding mutate
  mutate_lem fn s e =
      let (m, loaded, e', run) = >>=-eq-ok (load ms) (λ m. saved ms (fn m)) s e in
      record {
        before = m;
        loaded = loaded;
        returned = saved_returned (fn m) (load ms s).1 e';
        present = λ k. get_of_load ms k s m loaded;
        after = λ k. elim (Bool-cases (fn m).changed) [
          | inl h ↦ ground (arith, saved_written (fn m) (load ms s).1 k e' h)
          | inr h ↦ ground (
            arith,
            saved_kept (fn m) (load ms s).1 h,
            load-reads ms lawful s,
            get_of_load ms k s m loaded,
          )
        ];
        kept = λ h. ground (arith, saved_kept (fn m) (load ms s).1 h, load-reads ms lawful s);
      }

module _ {S V : Type 0} (ms : MapStore S V) (lawful : IsLawful ms.store) (j : Text) where
  get-encoded :
      (t : Option Text) (s : S) {u : Unit {0}}
      → (encoded ms t s).0 ≡ ok u
      → text_eq ms.key j ≡ false
      → (ms.store.get j (encoded ms t s).1).0 ≡ (ms.store.get j s).0
  unfolding encoded
  get-encoded none s e h = cc
  get-encoded (some t) s e h = ground (arith, lawful.get-set ms.key t j s)

module _ {S V B : Type 0} (ms : MapStore S V) (lawful : IsLawful ms.store) (j : Text) where
  get-saved :
      (c : Change V B) (s : S) {b : B}
      → (saved ms c s).0 ≡ ok b
      → text_eq ms.key j ≡ false
      → (ms.store.get j (saved ms c s).1).0 ≡ (ms.store.get j s).0
  unfolding saved save
  get-saved c s e h = ground (arith, get-encoded ms lawful j (ms.json.marshal c.entries) s)

  -- A successful change is not seen under the other keys of the store.
  pub get-mutate_other :
      (fn : Dict V → Change V B) (s : S) {b : B}
      → (mutate ms fn s).0 ≡ ok b
      → text_eq ms.key j ≡ false
      → (ms.store.get j (mutate ms fn s).1).0 ≡ (ms.store.get j s).0
  unfolding mutate
  get-mutate_other fn s e h =
      let (m, loaded, e', run) = >>=-eq-ok (load ms) (λ m. saved ms (fn m)) s e in
      ground (arith, get-saved (fn m) (load ms s).1 e' h, load-reads ms lawful s)

module _ {S V : Type 0} (ms : MapStore S V) where
  pub parsed_by_value :
      (v : Option Text) (s t : S) → (parsed ms.json v s).0 ≡ (parsed ms.json v t).0
  unfolding parsed decoded
  parsed_by_value none s t = refl
  parsed_by_value (some v) s t = ground arith

  -- What a read finds depends on nothing but the value under the map's key.
  pub get_by_value :
      (k : Text) (s t : S)
      → (ms.store.get ms.key s).0 ≡ (ms.store.get ms.key t).0
      → (get ms k s).0 ≡ (get ms k t).0
  unfolding get load
  get_by_value k s t e = elim (Result-cases (ms.store.get ms.key t).0) [
    | inr (f, h) ↦ ground arith
    | inl (v, h) ↦
        ground (arith, parsed_by_value v (ms.store.get ms.key s).1 (ms.store.get ms.key t).1)
  ]
