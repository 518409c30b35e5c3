-- ===== src/Oauth/Principal/Revocation.antt =====
-- What RemovePrincipal revokes, and what it does not.
use lib_agent_mcp.Prelude.{
  ap, ◌∙◌, ◌≡◌, ◌≢◌, ◌↔◌, refl, true, false, Bool, Option, none, arith, if◌then◌else◌,
}
use lib_agent_mcp.Prelude.Text.{Text, text, text_eq, text_eq_iff, is_empty}
use lib_agent_mcp.Prelude.Dict.{Dict, lookup, lookup-erase, unless}
use lib_agent_mcp.Exec.{Result, ok}
use lib_agent_mcp.Oauth.Store.{SecretStore}
use lib_agent_mcp.Oauth.Store.Laws.{IsLawful}
use lib_agent_mcp.Oauth.MapStore
use lib_agent_mcp.Oauth.MapStore.{Json, Change}
use lib_agent_mcp.Oauth.MapStore.Laws.{IsLossless, mutate_lem, get_by_value, get-mutate_other}
use lib_agent_mcp.Oauth.World.{World, PrincipalRecord, RefreshGrant, Rand}
use lib_agent_mcp.Oauth.Refresh.{
  grants, is_of, remove_for_principal, without_principal, refresh_store_key,
}
use lib_agent_mcp.Oauth.Refresh.Laws.{held, remove_for_principal-held}
use lib_agent_mcp.Oauth.Principal.{principals, removed, remove_principal, principals_store_key}

keys_differ :
    (text_eq principals_store_key refresh_store_key ≡ false)
    × (text_eq refresh_store_key principals_store_key ≡ false)
unfolding principals_store_key refresh_store_key text text_eq
keys_differ = (refl, refl)

module _ {S : Type 0} (store : SecretStore S) (json : Json PrincipalRecord) (rand : Rand)
    (refresh_json : Json RefreshGrant) where
  -- What the store holds for a principal's name.
  abbrev pub stored : Text → S → Result (Option PrincipalRecord)
  stored name s = (MapStore.get (principals store json rand) name s).0

  -- Removing a principal leaves the outstanding authorization codes as they were, whatever the name
  -- and whether or not it succeeds.
  pub codes-remove_principal :
      (name : Text) (w : World S)
      → (remove_principal store json rand refresh_json name w).1.codes ≡ w.codes
  unfolding remove_principal
  codes-remove_principal name w = ground arith

  module _ (lawful : IsLawful store) (lossless : IsLossless json)
      (refresh_lossless : IsLossless refresh_json) where
    abbrev forget : Text → Dict PrincipalRecord → Change PrincipalRecord Bool
    forget name m = removed store json rand name (lookup name m) m

    remove_principal_steps :
        (name : Text) (w : World S) {was_there : Bool}
        → (remove_principal store json rand refresh_json name w).0 ≡ ok was_there
        → ((MapStore.mutate (principals store json rand) (forget name) w.secrets).0 ≡ ok was_there)
          × ((remove_for_principal store refresh_json name
                (MapStore.mutate (principals store json rand) (forget name) w.secrets).1).0
              ≡ ok tt)
          × ((remove_principal store json rand refresh_json name w).1.secrets
              ≡ (remove_for_principal store refresh_json name
                  (MapStore.mutate (principals store json rand) (forget name) w.secrets).1).1)
    unfolding remove_principal
    remove_principal_steps name w e = ground arith

    get-remove_for_principal :
        (name : Text) (s : S)
        → is_empty name ≡ false
        → (remove_for_principal store refresh_json name s).0 ≡ ok tt
        → (store.get principals_store_key (remove_for_principal store refresh_json name s).1).0
          ≡ (store.get principals_store_key s).0
    unfolding remove_for_principal
    get-remove_for_principal name s named e =
        let done : (MapStore.mutate (grants store refresh_json)
              (without_principal store refresh_json name) s).0
            ≡ ok tt =
          ground arith in
        rw named (
          get-mutate_other (grants store refresh_json) lawful principals_store_key
            (without_principal store refresh_json name) s done keys_differ.1)

    -- Over a lawful store and a lossless encoding of documents, a removal that succeeds, of a
    -- principal whose name is not empty, deletes its record and no other, reports whether there was
    -- one, and deletes a readable refresh token exactly if it was issued under the name.
    pub remove_principal_lem :
        (name other token : Text) (w : World S) {was_there : Bool} {found : Option RefreshGrant}
        → is_empty name ≡ false
        → (remove_principal store json rand refresh_json name w).0 ≡ ok was_there
        → held store refresh_json token w.secrets ≡ ok found
        → (stored other (remove_principal store json rand refresh_json name w).1.secrets
            ≡ (if text_eq name other then ok none else stored other w.secrets))
          × ((was_there ≡ true) ↔ (stored name w.secrets ≢ ok none))
          × (held store refresh_json token
                (remove_principal store json rand refresh_json name w).1.secrets
              ≡ ok (unless (is_of name) found))
    remove_principal_lem name other token w {was_there} {found} named e h =
        let (done, purged, left) = remove_principal_steps name w e in
        let d =
          mutate_lem (principals store json rand) lawful lossless (forget name) w.secrets done in
        let w' : S = (MapStore.mutate (principals store json rand) (forget name) w.secrets).1 in
        let same : held store refresh_json token w' ≡ ok found =
          get_by_value (grants store refresh_json) token w' w.secrets (
            get-mutate_other (principals store json rand) lawful refresh_store_key (forget name)
              w.secrets done keys_differ.0)
          ∙ h in
        let kept : stored other (remove_for_principal store refresh_json name w').1
            ≡ stored other w' =
          get_by_value (principals store json rand) other
            (remove_for_principal store refresh_json name w').1 w'
            (get-remove_for_principal name w' named purged) in
        (
          ap (λ s. stored other s) left
              ∙ kept
              ∙ ground (
                arith,
                d.present other,
                d.present name,
                d.after other,
                lookup-erase name other d.before,
                text_eq_iff name other,
              ),
          ground (arith, d.present name, d.returned),
          ap (λ s. held store refresh_json token s) left
              ∙ remove_for_principal-held store refresh_json lawful refresh_lossless name token w'
                  named purged same,
        )
