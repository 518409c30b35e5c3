-- ===== src/Oauth/Refresh.antt =====
-- oauth/refresh.go
pub mod Laws
pub mod Replay
use lib_agent_mcp.Prelude.{
  Bool, true, false, Option, none, some, List, [], ◌∷◌, ◌||◌, if◌then◌else◌,
}
use lib_agent_mcp.Prelude.Text.{Text, text, text_eq, is_empty}
use lib_agent_mcp.Prelude.Dict.{Dict, lookup, insert, erase, erase_values}
use lib_agent_mcp.Exec.{Exec, pure, ◌>>=◌, ◌>>◌}
use lib_agent_mcp.Oauth.Store.{SecretStore}
use lib_agent_mcp.Oauth.MapStore
use lib_agent_mcp.Oauth.MapStore.{MapStore, Json, Change}
use lib_agent_mcp.Oauth.World.{World, Rand, PrincipalGrant, RefreshGrant, on_store, rand_token}

unfoldable pub refresh_store_key : Text
refresh_store_key = text "refresh-tokens"

-- `g.Principal.Name == name`
abbrev pub is_of : Text → RefreshGrant → Bool
is_of name g = text_eq g.principal.name name

-- Whether any entry of the map passes the test.
unfoldable pub any_value {ℓ} : {V : Type ℓ} → (V → Bool) → Dict V → Bool
any_value p [] = false
any_value p ((_, v) ∷ m) = p v || any_value p m

module _ {S : Type 0} (store : SecretStore S) (json : Json RefreshGrant) where
  -- newRefreshStore
  abbrev pub grants : MapStore S RefreshGrant
  grants = record { store = store; key = refresh_store_key; json = json }

  abbrev pub added : Text → RefreshGrant → Dict RefreshGrant → Change RefreshGrant (Unit {0})
  added token g m = record { entries = insert token g m; changed = true; captured = tt }

  unfoldable pub issue : Rand → Text → Text → PrincipalGrant → Exec (World S) Text
  issue rand client_id scope p = do
    token ← rand_token rand 32
    on_store (
        MapStore.mutate grants
          (added token (record { client_id = client_id; scope = scope; principal = p })))
    pure token

  abbrev pub without_principal : Text → Dict RefreshGrant → Change RefreshGrant (Unit {0})
  without_principal name m = record {
    entries = erase_values (is_of name) m;
    changed = any_value (is_of name) m;
    captured = tt;
  }

  unfoldable pub remove_for_principal : Text → Exec S (Unit {0})
  remove_for_principal name =
      if is_empty name then pure tt else MapStore.mutate grants (without_principal name)

  abbrev pub taken :
      Text → Option RefreshGrant → Dict RefreshGrant → Change RefreshGrant (Option RefreshGrant)
  taken token none m = record { entries = m; changed = false; captured = none }
  taken token (some g) m = record { entries = erase token m; changed = true; captured = some g }

  -- The grant, if the token is known, which it is not afterwards.
  unfoldable pub exchange : Text → Exec S (Option RefreshGrant)
  exchange token = MapStore.mutate grants (λ m. taken token (lookup token m) m)
