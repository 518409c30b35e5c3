-- ===== src/Oauth/Store/Laws.antt =====
-- What the OAuth layer relies on of a SecretStore, and that both implementations of oauth/store.go
-- provide it.
use lib_agent_mcp.Prelude.{
  ◌≡◌, ◌⊎◌, inl, inr, refl, false, Option, none, some, arith, if◌then◌else◌, Bool-cases,
}
use lib_agent_mcp.Prelude.Text.{Text, text_eq, text_eq_iff}
use lib_agent_mcp.Prelude.Dict.{lookup-erase, lookup-insert, lookup-nil}
use lib_agent_mcp.Exec.{Exec, Result, ok, err}
use lib_agent_mcp.Oauth.Store.{SecretStore, Keyring, keyring_store, mem_store, mem_delete_all}

-- A read of the deleted key finds nothing, if it could be read before.
abbrev pub after_delete : Result (Option Text) → Result (Option Text)
after_delete (ok _) = ok none
after_delete (err e) = err e

-- The contract in the comments of the interface.
pub record IsLawful {S : Type 0} (store : SecretStore S) : Type 0 where
  pub reads : (k : Text) (s : S) → (store.get k s).1 ≡ s
  pub get-set :
      (k v j : Text) (s : S)
      → (store.set k v s).0 ≡ ok tt
      → (store.get j (store.set k v s).1).0
        ≡ (if text_eq k j then ok (some v) else (store.get j s).0)
  pub get-delete :
      (k j : Text) (s : S)
      → (store.delete k s).0 ≡ ok tt
      → (store.get j (store.delete k s).1).0
        ≡ (if text_eq k j then after_delete (store.get j s).0 else (store.get j s).0)

-- The in-memory store keeps the contract of the interface.
pub mem_store-IsLawful : IsLawful mem_store
unfolding mem_store
mem_store-IsLawful = record {
  reads = λ k s. refl;
  get-set = λ k v j s _. ground (arith, lookup-insert k j v s);
  get-delete = λ k j s _. ground (arith, lookup-erase k j s);
}

-- The documented behaviour of the keyring: a successful write or delete leaves it available, and
-- is seen by the next read of that key and of no other.
pub record IsLawfulKeyring {K : Type 0} (kr : Keyring K) : Type 0 where
  pub stays : (k v : Text) (s : K) → kr.available (kr.set k v s).1 ≡ kr.available s
  pub stays_deleted : (k : Text) (s : K) → kr.available (kr.delete k s).1 ≡ kr.available s
  pub get-set :
      (k v j : Text) (s : K)
      → (kr.set k v s).0 ≡ ok tt
      → kr.get (kr.set k v s).1 j ≡ (if text_eq k j then some v else kr.get s j)
  pub get-delete :
      (k j : Text) (s : K)
      → (kr.delete k s).0 ≡ ok tt
      → kr.get (kr.delete k s).1 j ≡ (if text_eq k j then none else kr.get s j)

-- So does the keyring-backed store, over any keyring that behaves as documented.
pub keyring_store-IsLawful :
    {K : Type 0} (kr : Keyring K) → IsLawfulKeyring kr → IsLawful (keyring_store kr)
unfolding keyring_store
keyring_store-IsLawful kr law = record {
  reads = λ k s. ground arith;
  get-set = λ k v j s done. ground (arith, law.stays k v s, law.get-set k v j s);
  get-delete = λ k j s done. ground (arith, law.stays_deleted k s, law.get-delete k j s);
}

-- What is found under a key afterwards was there before, or nothing is found.
abbrev pub Unseen : {S : Type 0} → SecretStore S → Text → S → S → Type 0
Unseen store j s t =
    (x : Option Text) → (store.get j t).0 ≡ ok x → ((store.get j s).0 ≡ ok x) ⊎ (x ≡ none)

-- A write, whether or not it succeeds, leaves under each key what was there, or under its own key
-- what was to be written; and a call that empties the store leaves nothing that was not there.
pub record IsFaithful {S : Type 0} (store : SecretStore S) (wipe : Exec S (Unit {0})) : Type 0 where
  pub written :
      (k v j : Text) (s : S) (x : Option Text)
      → (store.get j (store.set k v s).1).0 ≡ ok x
      → ((store.get j s).0 ≡ ok x) ⊎ ((k ≡ j) × (x ≡ some v))
  pub wiped : (j : Text) (s : S) → Unseen store j s (wipe s).1

-- A write is not seen under the other keys.
pub Unseen-set :
    {S : Type 0} (store : SecretStore S) {wipe : Exec S (Unit {0})}
    → IsFaithful store wipe
    → (k v j : Text) (s : S) → text_eq k j ≡ false
    → Unseen store j s (store.set k v s).1
Unseen-set store faithful k v j s other x e = elim (faithful.written k v j s x e) [
  | inl before ↦ inl before
  | inr (same, _) ↦ ground (arith, text_eq_iff k j)
]

-- The in-memory store and its DeleteAll do so.
pub mem_store-IsFaithful : IsFaithful mem_store mem_delete_all
unfolding mem_store mem_delete_all
mem_store-IsFaithful = record {
  written = λ k v j s x e. elim (Bool-cases (text_eq k j)) [
    | inl same ↦ inr (ground (arith, text_eq_iff k j, lookup-insert k j v s))
    | inr other ↦ inl (ground (arith, lookup-insert k j v s))
  ];
  wiped = λ j s x e. inr (ground (arith, lookup-nil {V = Text} j));
}
