-- ===== src/Oauth/Refresh/Laws.antt =====
-- Refresh tokens: rotation and revocation.
use lib_agent_mcp.Prelude.{
  ◌≡◌, refl, false, Bool, Option, none, some, [], ◌∷◌, arith, if◌then◌else◌,
}
use lib_agent_mcp.Prelude.Text.{Text, text_eq, text_eq_iff, text_eq_refl, is_empty}
use lib_agent_mcp.Prelude.Dict.{
  Dict, lookup, lookup-erase, lookup-insert, lookup-erase_values, unless,
}
use lib_agent_mcp.Exec.{Result, ok}
use lib_agent_mcp.Oauth.Store.{SecretStore}
use lib_agent_mcp.Oauth.Store.Laws.{IsLawful}
use lib_agent_mcp.Oauth.MapStore
use lib_agent_mcp.Oauth.MapStore.{Json, Change}
use lib_agent_mcp.Oauth.MapStore.Laws.{IsLossless, mutate_lem}
use lib_agent_mcp.Oauth.World.{World, Rand, PrincipalGrant, RefreshGrant, rand_token}
use lib_agent_mcp.Oauth.Refresh.{
  grants, taken, added, issue, exchange, is_of, any_value, without_principal, remove_for_principal,
}

any_value-erase_values :
    (p : RefreshGrant → Bool) (m : Dict RefreshGrant) (k : Text)
    → any_value p m ≡ false
    → unless p (lookup k m) ≡ lookup k m
unfolding any_value lookup
any_value-erase_values p [] k e = refl
any_value-erase_values p ((j, v) ∷ m) k e = ground (arith, any_value-erase_values p m k)

module _ {S : Type 0} (store : SecretStore S) (json : Json RefreshGrant) where
  -- What the store holds for a token.
  abbrev pub held : Text → S → Result (Option RefreshGrant)
  held token s = (MapStore.get (grants store json) token s).0

  module _ (lawful : IsLawful store) (lossless : IsLossless json) where
    -- Over a lawful store and a lossless encoding of documents, a successful exchange gives what
    -- the store held for the token, removes that token, and leaves the others.
    pub exchange-held :
        (token other : Text) (s : S) {found : Option RefreshGrant}
        → (exchange store json token s).0 ≡ ok found
        → (held token s ≡ ok found)
          × (held other (exchange store json token s).1
              ≡ (if text_eq token other then ok none else held other s))
    unfolding exchange
    exchange-held token other s e =
        let d =
          mutate_lem (grants store json) lawful lossless
            (λ m. taken store json token (lookup token m) m) s e in
        ground (
          arith,
          d.present token,
          d.present other,
          d.after other,
          d.returned,
          lookup-erase token other d.before,
          text_eq_iff token other,
        )

    -- A token that the store does not hold is answered so.
    exchange_unknown :
        (token : Text) (s : S) → held token s ≡ ok none → (exchange store json token s).0 ≡ ok none
    unfolding exchange MapStore.get MapStore.mutate MapStore.saved
    exchange_unknown token s h = ground arith

    -- Over a lawful store and a lossless encoding of documents, a refresh token whose exchange
    -- succeeded is unknown when it is presented again.
    pub exchange-exchange :
        (token : Text) (s : S) {found : Option RefreshGrant}
        → (exchange store json token s).0 ≡ ok found
        → (exchange store json token (exchange store json token s).1).0 ≡ ok none
    exchange-exchange token s e =
        exchange_unknown token (exchange store json token s).1
          (ground (arith, exchange-held token token s e, text_eq_refl token))

    -- Over a lawful store and a lossless encoding of documents, a revocation that succeeds, for a
    -- name that is not empty, removes a readable token exactly if its grant is of that principal.
    pub remove_for_principal-held :
        (name token : Text) (s : S) {u : Unit {0}} {found : Option RefreshGrant}
        → is_empty name ≡ false
        → (remove_for_principal store json name s).0 ≡ ok u
        → held token s ≡ ok found
        → held token (remove_for_principal store json name s).1 ≡ ok (unless (is_of name) found)
    unfolding remove_for_principal
    remove_for_principal-held name token s named e h =
        let e' : (MapStore.mutate (grants store json) (without_principal store json name) s).0
            ≡ ok tt =
          ground arith in
        let d =
          mutate_lem (grants store json) lawful lossless (without_principal store json name) s e' in
        ground (
          arith,
          d.present token,
          d.after token,
          lookup-erase_values (is_of name) token d.before,
          any_value-erase_values (is_of name) d.before token,
        )

module _ {S : Type 0} (store : SecretStore S) (json : Json RefreshGrant) (rand : Rand) where
  abbrev added_grant : Text → Text → PrincipalGrant → RefreshGrant
  added_grant client_id scope p = record { client_id = client_id; scope = scope; principal = p }

  issue_saved :
      (client_id scope : Text) (p : PrincipalGrant) (w : World S) {token : Text}
      → (issue store json rand client_id scope p w).0 ≡ ok token
      → ((MapStore.mutate
            (grants store json)
            (added store json token (added_grant client_id scope p))
            w.secrets).0
          ≡ ok tt)
        × ((issue store json rand client_id scope p w).1.secrets
            ≡ (MapStore.mutate
                (grants store json)
                (added store json token (added_grant client_id scope p))
                w.secrets).1)
  unfolding issue rand_token
  issue_saved client_id scope p w e = ground arith

  module _ (lawful : IsLawful store) (lossless : IsLossless json) where
    -- Over a lawful store and a lossless encoding of documents, an issued refresh token stands for
    -- the client, scope and principal it was issued for, and the other tokens stay as they were.
    pub issue-held :
        (client_id scope : Text) (p : PrincipalGrant) (other : Text) (w : World S) {token : Text}
        → (issue store json rand client_id scope p w).0 ≡ ok token
        → held store json other (issue store json rand client_id scope p w).1.secrets ≡ (
            if text_eq token other
            then ok (some (record { client_id = client_id; scope = scope; principal = p }))
            else held store json other w.secrets)
    issue-held client_id scope p other w {token} e =
        let (done, left) = issue_saved client_id scope p w e in
        let d =
          mutate_lem (grants store json) lawful lossless
            (added store json token (added_grant client_id scope p)) w.secrets done in
        rw left (
          ground (
            arith,
            d.present other,
            d.after other,
            lookup-insert token other (added_grant client_id scope p) d.before,
          ))
