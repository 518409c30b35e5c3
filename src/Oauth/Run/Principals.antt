-- ===== src/Oauth/Run/Principals.antt =====
-- The operations on principals keep what is known, whether or not they succeed.
use lib_agent_mcp.Prelude.{ℕ, inl, inr, Bool, arith, Bool-cases}
use lib_agent_mcp.Prelude.Text.{Text, is_empty}
use lib_agent_mcp.Prelude.Dict.{Dict, lookup}
use lib_agent_mcp.Exec.{Exec}
use lib_agent_mcp.Oauth.Store.Laws.{IsLawful, IsFaithful, Unseen}
use lib_agent_mcp.Oauth.MapStore
use lib_agent_mcp.Oauth.MapStore.{Json, Change}
use lib_agent_mcp.Oauth.MapStore.Laws.{load-reads}
use lib_agent_mcp.Oauth.MapStore.Kept.{Unseen-mutate}
use lib_agent_mcp.Oauth.World.{AuthGrant, PrincipalRecord, on_store}
use lib_agent_mcp.Oauth.Clients.{clients_store_key}
use lib_agent_mcp.Oauth.Refresh.{grants, without_principal, remove_for_principal}
use lib_agent_mcp.Oauth.Pairing
use lib_agent_mcp.Oauth.Pairing.{pairing_code_store_key, found_or_rotate}
use lib_agent_mcp.Oauth.Principal
use lib_agent_mcp.Oauth.Principal.{
  principals, principals_store_key, candidates, verify_principal, add_principal, remove_principal,
}
use lib_agent_mcp.Oauth.Server.{Platform}
use lib_agent_mcp.Oauth.Run.Kept.{Keeps, Keeps-bind, Keeps-on_store}
use lib_agent_mcp.Oauth.Run.Operations.{
  keys_differ, Keeps-mutate, Keeps-generate_pairing_code, Keeps-code,
}

module _ {S : Type 0} (p : Platform S) (P : Text → AuthGrant → Type 0) (least : ℕ)
    (lawful : IsLawful p.store) {wipe : Exec S (Unit {0})}
    (faithful : IsFaithful p.store wipe) where
  Keeps-load :
      Keeps p P least (on_store (MapStore.load (principals p.store p.principals_json p.rand)))
  Keeps-load =
      Keeps-on_store p P least (MapStore.load (principals p.store p.principals_json p.rand))
        (λ s x e.
          inl (ground (arith, load-reads (principals p.store p.principals_json p.rand) lawful s)))

  Keeps-candidates : Keeps p P least (candidates p.store p.principals_json p.rand)
  unfolding candidates
  Keeps-candidates =
      Keeps-bind p P least (Pairing.code p.store p.rand) _ (Keeps-code p P least lawful faithful)
        (λ shared.
          Keeps-bind p P least
            (on_store (MapStore.load (principals p.store p.principals_json p.rand))) _ Keeps-load
            (λ _ w h. h))

  pub Keeps-verify_principal :
      (entered : Text) → Keeps p P least (verify_principal p.store p.principals_json p.rand entered)
  unfolding verify_principal
  Keeps-verify_principal entered =
      Keeps-bind p P least (candidates p.store p.principals_json p.rand) _ Keeps-candidates
        (λ _ w h. h)

  abbrev added_record :
      Text → Dict Text → Text → Dict PrincipalRecord → Change PrincipalRecord (Unit {0})
  added_record name binding c =
      Principal.added p.store p.principals_json p.rand name (record { code = c; binding = binding })

  abbrev removed_record : Text → Dict PrincipalRecord → Change PrincipalRecord Bool
  removed_record name m = Principal.removed p.store p.principals_json p.rand name (lookup name m) m

  pub Keeps-add_principal :
      (name : Text) (binding : Dict Text)
      → Keeps p P least (add_principal p.store p.principals_json p.rand name binding)
  unfolding add_principal
  Keeps-add_principal name binding =
      Keeps-bind p P least (Pairing.generate_pairing_code p.rand) _
        (Keeps-generate_pairing_code p P least lawful faithful)
        (λ c.
          Keeps-bind p P least
            (on_store (
              MapStore.mutate (principals p.store p.principals_json p.rand)
                (added_record name binding c)))
            _
            (Keeps-mutate p P least lawful faithful principals_store_key p.principals_json
              (added_record name binding c) keys_differ.0)
            (λ _ w h. h))

  Unseen-remove_for_principal :
      (name : Text) (s : S)
      → Unseen p.store clients_store_key s (remove_for_principal p.store p.refresh_json name s).1
  unfolding remove_for_principal
  Unseen-remove_for_principal name s = elim (Bool-cases (is_empty name)) [
    | inl e ↦ rw e (λ x h. inl h)
    | inr e ↦ rw e (
        Unseen-mutate (grants p.store p.refresh_json) lawful faithful clients_store_key
          (without_principal p.store p.refresh_json name) s keys_differ.1)
  ]

  pub Keeps-remove_principal :
      (name : Text)
      → Keeps p P least (remove_principal p.store p.principals_json p.rand p.refresh_json name)
  unfolding remove_principal
  Keeps-remove_principal name =
      Keeps-bind p P least
        (on_store
          (MapStore.mutate (principals p.store p.principals_json p.rand) (removed_record name)))
        _
        (Keeps-mutate p P least lawful faithful principals_store_key p.principals_json
          (removed_record name) keys_differ.0)
        (λ was_there.
          Keeps-bind p P least (on_store (remove_for_principal p.store p.refresh_json name)) _
            (Keeps-on_store p P least (remove_for_principal p.store p.refresh_json name)
              (Unseen-remove_for_principal name))
            (λ _ w h. h))
