-- ===== src/Oauth/MapStore/Kept.antt =====
-- What holds of every entry of a stored map, across changes and failures.
use lib_agent_mcp.Prelude.{
  ◌≡◌, ◌⊎◌, ◌∙◌, inl, inr, false, some, none, Option, [], arith, Bool-cases, Option-cases,
}
use lib_agent_mcp.Prelude.Text.{Text, text_eq}
use lib_agent_mcp.Prelude.Dict.{Dict, Each, Each-nil}
use lib_agent_mcp.Exec.{Exec, ok, Result-cases, >>=-eq-ok}
use lib_agent_mcp.Oauth.Store.Laws.{IsLawful, IsFaithful, Unseen, Unseen-set}
use lib_agent_mcp.Oauth.MapStore.{
  MapStore, Change, parsed, load, save, saved, mutate, encoded, decoded,
}
use lib_agent_mcp.Oauth.MapStore.Laws.{IsLossless, load-reads, parsed_by_value}

module _ {S V : Type 0} (ms : MapStore S V) where
  -- Every entry of the map, if it can be read, has the property.
  abbrev pub Holds : (Text → V → Type 0) → S → Type 0
  Holds P s = (m : Dict V) → (load ms s).0 ≡ ok m → Each P m

  loaded :
      (s : S) (m : Dict V)
      → (load ms s).0 ≡ ok m
      → (x : Option Text) × ((ms.store.get ms.key s).0 ≡ ok x) × ((parsed ms.json x s).0 ≡ ok m)
  unfolding load
  loaded s m e =
      let (x, found, read, run) = >>=-eq-ok (ms.store.get ms.key) (parsed ms.json) s e in
      (x, found, parsed_by_value ms x s (ms.store.get ms.key s).1 ∙ read)

  load_of_parsed :
      (s : S) (m : Dict V) (x : Option Text)
      → (ms.store.get ms.key s).0 ≡ ok x
      → (parsed ms.json x s).0 ≡ ok m
      → (load ms s).0 ≡ ok m
  unfolding load
  load_of_parsed s m x found read = ground (arith, parsed_by_value ms x s (ms.store.get ms.key s).1)

  parsed-none :
      (P : Text → V → Type 0) (s : S) (m : Dict V) → (parsed ms.json none s).0 ≡ ok m → Each P m
  unfolding parsed
  parsed-none P s m e = let nothing : [] ≡ m = ground arith in rw (← nothing) (Each-nil P)

  -- What is not seen under the map's key keeps the property.
  pub Holds-Unseen :
      (P : Text → V → Type 0) (s t : S) → Unseen ms.store ms.key s t → Holds P s → Holds P t
  Holds-Unseen P s t unseen h m e =
      let (x, found, read) = loaded t m e in
      elim (unseen x found) [
        | inl before ↦ h m (load_of_parsed s m x before (parsed_by_value ms x s t ∙ read))
        | inr nothing ↦ parsed-none P t m (rw (← nothing) read)
      ]

module _ {S V : Type 0} (ms : MapStore S V) (lossless : IsLossless ms.json)
    (P : Text → V → Type 0) where
  parsed-written :
      (m : Dict V) (t : Text) (s : S)
      → ms.json.marshal m ≡ some t
      → Each P m
      → (m' : Dict V) → (parsed ms.json (some t) s).0 ≡ ok m'
      → Each P m'
  unfolding parsed decoded
  parsed-written m t s encodes h m' read k v e =
      let (back, decodes, same, full) = lossless.back m t encodes in h k v (ground (arith, same k))

module _ {S V B : Type 0} (ms : MapStore S V) (lawful : IsLawful ms.store) where
  -- What a change comes down to: nothing is written, or the new document is.
  abbrev Writes : (Dict V → Change V B) → S → Type 0
  Writes fn s =
      (m : Dict V) × (t : Text) × ((load ms s).0 ≡ ok m)
      × (ms.json.marshal (fn m).entries ≡ some t)
      × ((mutate ms fn s).1 ≡ (ms.store.set ms.key t s).1)

  saved_cases :
      (c : Change V B) (s : S)
      → ((saved ms c s).1 ≡ s)
        ⊎ ((t : Text) × (ms.json.marshal c.entries ≡ some t)
            × ((saved ms c s).1 ≡ (ms.store.set ms.key t s).1))
  unfolding saved save encoded
  saved_cases c s = elim (Bool-cases c.changed) [
    | inr same ↦ inl (ground arith)
    | inl changed ↦ elim (Option-cases (ms.json.marshal c.entries)) [
      | inl h ↦ inl (ground arith)
      | inr (t, h) ↦ inr (t, h, ground arith)
    ]
  ]

  mutate_cases : (fn : Dict V → Change V B) (s : S) → ((mutate ms fn s).1 ≡ s) ⊎ Writes fn s
  unfolding mutate
  mutate_cases fn s = elim (Result-cases (load ms s).0) [
    | inr (f, h) ↦ inl (ground (arith, load-reads ms lawful s))
    | inl (m, h) ↦ elim (saved_cases (fn m) s) [
      | inl same ↦ inl (ground (arith, load-reads ms lawful s))
      | inr (t, encodes, wrote) ↦ inr (m, t, h, encodes, ground (arith, load-reads ms lawful s))
    ]
  ]

  module _ {wipe : Exec S (Unit {0})} (faithful : IsFaithful ms.store wipe) where
    -- A change, whether or not it succeeds, is not seen under the other keys.
    pub Unseen-mutate :
        (j : Text) (fn : Dict V → Change V B) (s : S)
        → text_eq ms.key j ≡ false
        → Unseen ms.store j s (mutate ms fn s).1
    Unseen-mutate j fn s other = elim (mutate_cases fn s) [
      | inl same ↦ rw same (λ x e. inl e)
      | inr (m, t, _, _, wrote) ↦ rw wrote (Unseen-set ms.store faithful ms.key t j s other)
    ]

    module _ (lossless : IsLossless ms.json) (P : Text → V → Type 0) where
      -- A change that keeps the property on maps keeps it on what is stored, whether or not it
      -- succeeds.
      pub Holds-mutate :
          (fn : Dict V → Change V B) (s : S)
          → ((m : Dict V) → Each P m → Each P (fn m).entries)
          → Holds ms P s
          → Holds ms P (mutate ms fn s).1
      Holds-mutate fn s keeps h = elim (mutate_cases fn s) [
        | inl same ↦ rw same h
        | inr (m, t, found, encodes, wrote) ↦ rw wrote λ m' e.
            let s' = (ms.store.set ms.key t s).1 in
            let (x, now, read) = loaded ms s' m' e in
            elim (faithful.written ms.key t ms.key s x now) [
              | inl before ↦
                  h m' (load_of_parsed ms s m' x before (parsed_by_value ms x s s' ∙ read))
              | inr (_, new) ↦
                  parsed-written ms lossless P (fn m).entries t s' encodes (keeps m (h m found)) m'
                    (rw (← new) read)
            ]
      ]
