-- ===== src/Oauth/Principal/Added.antt =====
-- That the code which is issued for a principal is recognised as that principal's.
use lib_agent_mcp.Prelude.{
  ◌≡◌, ◌≢◌, refl, ap, sym, ◌∙◌, false, none, some, arith, Bool-cases, inl, inr, Option-cases,
  if◌then◌else◌,
}
use lib_agent_mcp.Prelude.Text.{Text, text, text_eq, text_eq_iff, text_eq_refl}
use lib_agent_mcp.Prelude.Dict.{Dict, lookup, lookup-insert}
use lib_agent_mcp.Exec.{ok, Result-cases}
use lib_agent_mcp.Oauth.Store.{SecretStore}
use lib_agent_mcp.Oauth.Store.Laws.{IsLawful}
use lib_agent_mcp.Oauth.MapStore.{Json}
use lib_agent_mcp.Oauth.MapStore
use lib_agent_mcp.Oauth.MapStore.Laws.{IsLossless, mutate_lem, get_of_load, get_by_value}
use lib_agent_mcp.Oauth.World.{World, Rand, PrincipalRecord}
use lib_agent_mcp.Oauth.Pairing.{
  normalize_pairing, generate_pairing_code, pairing_code_store_key, found_or_rotate, rotate,
  pairing_code_of,
}
use lib_agent_mcp.Oauth.Pairing
use lib_agent_mcp.Oauth.Principal.{
  principals, principals_store_key, added, add_principal, verify_principal,
}
use lib_agent_mcp.Oauth.Principal.Verify.{Consulted}
use lib_agent_mcp.Oauth.Principal.Named.{verify_principal_named}

keys_apart : text_eq pairing_code_store_key principals_store_key ≡ false
unfolding pairing_code_store_key principals_store_key text text_eq
keys_apart = refl

ok_inj : {A : Type 0} {a b : A} → ok a ≡ ok b → a ≡ b
ok_inj e = cc

module _ {S : Type 0} (store : SecretStore S) (json : Json PrincipalRecord) (rand : Rand) where
  module _ (lawful : IsLawful store) where
    -- Reading or creating the shared code leaves the document of the principals alone.
    get-code :
        (w : World S) {c : Text}
        → (Pairing.code store rand w).0 ≡ ok c
        → (store.get principals_store_key (Pairing.code store rand w).1.secrets).0
          ≡ (store.get principals_store_key w.secrets).0
    unfolding Pairing.code found_or_rotate rotate generate_pairing_code
    get-code w e = elim (Result-cases (store.get pairing_code_store_key w.secrets).0) [
      | inr (f, failed) ↦ rw (failed, lawful.reads pairing_code_store_key w.secrets) refl
      | inl (some v, found) ↦ rw (found, lawful.reads pairing_code_store_key w.secrets) refl
      | inl (none, absent) ↦ elim (Option-cases (rand w.drawn 16)) [
        | inl undrawn ↦ rw (absent, lawful.reads pairing_code_store_key w.secrets, undrawn) refl
        | inr (b, drawn) ↦
            let t = (store.get pairing_code_store_key w.secrets).1 in
            elim (Result-cases (store.set pairing_code_store_key (pairing_code_of b) t).0) [
              | inr (f, failed) ↦ ground (arith, rw (absent, drawn, failed) at e)
              | inl (u, set) ↦
                  rw (absent, drawn, set)
                    (lawful.get-set pairing_code_store_key (pairing_code_of b) principals_store_key
                        t set
                      ∙ rw (keys_apart, lawful.reads pairing_code_store_key w.secrets) refl)
            ]
      ]
    ]

    module _ (lossless : IsLossless json) where
      add_principal_steps :
          (name : Text) (binding : Dict Text) (w : World S) {c : Text}
          → (add_principal store json rand name binding w).0 ≡ ok c
          → ((MapStore.mutate
                (principals store json rand)
                (added store json rand name (record { code = c; binding = binding }))
                w.secrets).0
              ≡ ok tt)
            × ((add_principal store json rand name binding w).1.secrets
                ≡ (MapStore.mutate
                    (principals store json rand)
                    (added store json rand name (record { code = c; binding = binding }))
                    w.secrets).1)
      unfolding add_principal generate_pairing_code
      add_principal_steps name binding w {c} e = elim (Option-cases (rand w.drawn 16)) [
        | inl undrawn ↦ ground (arith, rw (undrawn) at e)
        | inr (b, drawn) ↦
            elim (Result-cases
              (MapStore.mutate (principals store json rand)
                (added store json rand name
                  (record { code = pairing_code_of b; binding = binding }))
                w.secrets).0) [
                  | inr (f, failed) ↦ ground (arith, rw (drawn, failed) at e)
                  | inl (u, done) ↦
                      let issued : c ≡ pairing_code_of b = sym (ok_inj (rw (drawn, done) at e)) in
                      rw (issued) (done, rw (drawn, done) refl)
                ]
      ]

      -- The records after an addition, as a match of an entered code reads them.
      consulted_after :
          (name other : Text) (binding : Dict Text) (w : World S) {c : Text}
          → (add_principal store json rand name binding w).0 ≡ ok c
          → (k : Consulted store json rand (add_principal store json rand name binding w).1)
          → ok (lookup other k.records) ≡ (
              if text_eq name other
              then ok (some (record { code = c; binding = binding }))
              else (MapStore.get (principals store json rand) other w.secrets).0)
      consulted_after name other binding w {c} e k =
          let ms = principals store json rand in
          let after = (add_principal store json rand name binding w).1 in
          let fn = added store json rand name (record { code = c; binding = binding }) in
          let (done, left) = add_principal_steps name binding w e in
          let d = mutate_lem ms lawful lossless fn w.secrets done in
          sym (
            get_of_load ms other (Pairing.code store rand after).1.secrets k.records k.records_read)
          ∙ (get_by_value ms other (Pairing.code store rand after).1.secrets after.secrets
                (get-code after k.shared_read)
              ∙ (ap (λ s. (MapStore.get ms other s).0) left
                  ∙ ground (
                    arith,
                    d.after other,
                    d.present other,
                    lookup-insert name other (record { code = c; binding = binding }) d.before,
                  )))

      -- Over a lawful store and a lossless encoding of documents: after a principal was added, if
      -- the shared code and the stored principals can be read, an entered code that equals the
      -- issued one after normalisation, but neither the shared code nor that of another principal
      -- who was stored before, is accepted and stands for the added principal with the binding that
      -- it was added with.
      pub verify_principal-add_principal :
          (name input : Text) (binding : Dict Text) (w : World S) {c : Text}
          → (add_principal store json rand name binding w).0 ≡ ok c
          → normalize_pairing input ≡ normalize_pairing c
          → (k : Consulted store json rand (add_principal store json rand name binding w).1)
          → normalize_pairing input ≢ normalize_pairing k.shared
          → ((n : Text) (q : PrincipalRecord)
              → (MapStore.get (principals store json rand) n w.secrets).0 ≡ ok (some q)
              → normalize_pairing input ≡ normalize_pairing q.code
              → n ≡ name)
          → (verify_principal store json rand input
              (add_principal store json rand name binding w).1).0
            ≡ ok (some (record { name = name; binding = binding }))
      verify_principal-add_principal name input binding w {c} e entered k unshared unique =
          verify_principal_named store json rand input name
            (add_principal store json rand name binding w).1 k
            {r = record { code = c; binding = binding }}
            (ok_inj (consulted_after name name binding w e k ∙ rw (text_eq_refl name) refl)) entered
            unshared
            (λ n q found same. elim (Bool-cases (text_eq name n)) [
              | inl is_name ↦ sym ((text_eq_iff name n).0 is_name)
              | inr other ↦
                  unique n q
                    (sym (rw (other) at (consulted_after name n binding w e k)) ∙ ap ok found) same
            ])
