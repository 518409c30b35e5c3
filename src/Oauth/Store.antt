-- ===== src/Oauth/Store.antt =====
-- oauth/store.go: the interface SecretStore, and its two implementations. The host's keyring is a
-- package that the program calls, so it is a parameter.
pub mod Laws
use lib_agent_mcp.Prelude.{Bool, Option, none, some, [], if◌then◌else◌}
use lib_agent_mcp.Prelude.Text.{Text}
use lib_agent_mcp.Prelude.Dict.{Dict, lookup, insert, erase}
use lib_agent_mcp.Exec.{Exec, Result, ok, err, Fault, store_unavailable, pure, raise, ◌>>=◌, ◌>>◌}

pub record SecretStore (S : Type 0) : Type 0 where
  pub get : Text → Exec S (Option Text)
  pub set : Text → Text → Exec S (Unit {0})
  pub delete : Text → Exec S (Unit {0})

-- lib-agent-keyring, as far as the code calls it.
pub record Keyring (K : Type 0) : Type 0 where
  pub available : K → Bool
  pub get : K → Text → Option Text
  pub set : Text → Text → Exec K (Unit {0})
  pub delete : Text → Exec K (Unit {0})
  pub delete_all : Exec K (Unit {0})

module _ {K : Type 0} (kr : Keyring K) where
  unfoldable pub ensure_available : Exec K (Unit {0})
  ensure_available k = if kr.available k then (ok tt, k) else (err store_unavailable, k)

  -- The methods Get, Set and Delete of KeyringStore.
  unfoldable pub keyring_store : SecretStore K
  unfolding ensure_available
  keyring_store = record {
    get = λ key. do
      ensure_available
      (λ k. (ok (kr.get k key), k));
    set = λ key value. do
      ensure_available
      kr.set key value;
    delete = λ key. do
      ensure_available
      kr.delete key;
  }

  unfoldable pub keyring_delete_all : Exec K (Unit {0})
  unfolding ensure_available
  keyring_delete_all = do ensure_available; kr.delete_all

-- The methods Get, Set and Delete of MemStore.
unfoldable pub mem_store : SecretStore (Dict Text)
mem_store = record {
  get = λ key m. (ok (lookup key m), m);
  set = λ key value m. (ok tt, insert key value m);
  delete = λ key m. (ok tt, erase key m);
}

unfoldable pub mem_delete_all : Exec (Dict Text) (Unit {0})
mem_delete_all m = (ok tt, [])
