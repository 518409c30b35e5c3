-- ===== src/Oauth/Refresh/Replay.antt =====
-- The refresh tokens as a function from tokens to grants, over any sequence of operations.
use lib_agent_mcp.Prelude.{
  ◌≡◌, refl, true, Option, none, some, List, [], ◌∷◌, arith, Bool-cases, inl, inr, if◌then◌else◌,
}
use lib_agent_mcp.Prelude.Text.{Text, text_eq, is_empty}
use lib_agent_mcp.Prelude.Dict.{unless}
use lib_agent_mcp.Exec.{Exec, Result-cases, ok, pure, ◌>>=◌, ◌>>◌, >>=-eq-ok}
use lib_agent_mcp.Oauth.Store.{SecretStore}
use lib_agent_mcp.Oauth.Store.Laws.{IsLawful}
use lib_agent_mcp.Oauth.MapStore.{Json}
use lib_agent_mcp.Oauth.MapStore.Laws.{IsLossless}
use lib_agent_mcp.Oauth.World.{World, Rand, RefreshGrant, on_store}
use lib_agent_mcp.Oauth.Refresh.{issue, exchange, is_of, remove_for_principal}
use lib_agent_mcp.Oauth.Refresh.Laws.{held, issue-held, exchange-held, remove_for_principal-held}

pub data Operation : Type 0 where
  issuing : RefreshGrant → Operation
  exchanging : (token : Text) → Operation
  removing : (name : Text) → Operation

-- What an operation reports: the token that was issued, or what a token was exchanged for.
pub data Report : Type 0 where
  issued : (token : Text) → RefreshGrant → Report
  exchanged : (token : Text) → Option RefreshGrant → Report
  removed : (name : Text) → Report

abbrev pub Grants : Type 0
Grants = Text → Option RefreshGrant

-- The tokens after a report. A removal for the empty name does nothing.
abbrev pub updated : Report → Grants → Grants
updated (issued token g) f other = if text_eq token other then some g else f other
updated (exchanged token found) f other = if text_eq token other then none else f other
updated (removed name) f other = if is_empty name then f other else unless (is_of name) (f other)

abbrev pub replay : List Report → Grants → Grants
replay [] f = f
replay (r ∷ rs) f = replay rs (updated r f)

-- An exchange reports what the token stood for.
abbrev pub IsTrue : Report → Grants → Type 0
IsTrue (issued token g) f = Unit
IsTrue (exchanged token found) f = found ≡ f token
IsTrue (removed name) f = Unit

abbrev pub AreTrue : List Report → Grants → Type 0
AreTrue [] f = Unit
AreTrue (r ∷ rs) f = IsTrue r f × AreTrue rs (updated r f)

module _ {S : Type 0} (store : SecretStore S) (json : Json RefreshGrant) (rand : Rand) where
  unfoldable pub perform : Operation → Exec (World S) Report
  perform (issuing g) = do
    token ← issue store json rand g.client_id g.scope g.principal
    pure (issued token g)
  perform (exchanging token) = do
    found ← on_store (exchange store json token)
    pure (exchanged token found)
  perform (removing name) = do on_store (remove_for_principal store json name); pure (removed name)

  unfoldable pub perform_all : List Operation → Exec (World S) (List Report)
  perform_all [] = pure []
  perform_all (o ∷ os) = do r ← perform o; rs ← perform_all os; pure (r ∷ rs)

  -- The store holds the grants of a function.
  abbrev pub Reads : World S → Grants → Type 0
  Reads w f = (token : Text) → held store json token w.secrets ≡ ok (f token)

  module _ (lawful : IsLawful store) (lossless : IsLossless json) where
    -- What an operation that succeeds has done, as its report tells.
    Tells : Report → World S → World S → Grants → Type 0
    Tells r w w' f = Reads w' (updated r f) × IsTrue r f

    Tells-issuing :
        (g : RefreshGrant) (w : World S) (f : Grants) {token : Text}
        → Reads w f
        → (issue store json rand g.client_id g.scope g.principal w).0 ≡ ok token
        → Tells (issued token g) w (issue store json rand g.client_id g.scope g.principal w).1 f
    unfolding Tells
    Tells-issuing g w f h done = (
      λ other. ground (
        arith,
        issue-held store json rand lawful lossless g.client_id g.scope g.principal other w done,
        h other,
      ),
      tt,
    )

    Tells-exchanging :
        (token : Text) (w : World S) (f : Grants) {found : Option RefreshGrant}
        → Reads w f
        → (exchange store json token w.secrets).0 ≡ ok found
        → Tells (exchanged token found) w (on_store (exchange store json token) w).1 f
    unfolding Tells
    Tells-exchanging token w f h done = (
      λ other.
          ground (
            arith,
            (exchange-held store json lawful lossless token other w.secrets done).1,
            h other,
          ),
      ground
          (arith, (exchange-held store json lawful lossless token token w.secrets done).0, h token),
    )

    nameless_kept :
        (name : Text) (s : S)
        → is_empty name ≡ true
        → (remove_for_principal store json name s).1 ≡ s
    unfolding remove_for_principal
    nameless_kept name s e = rw e refl

    Tells-removing :
        (name : Text) (w : World S) (f : Grants) {u : Unit {0}}
        → Reads w f
        → (remove_for_principal store json name w.secrets).0 ≡ ok u
        → Tells (removed name) w (on_store (remove_for_principal store json name) w).1 f
    unfolding Tells
    Tells-removing name w f h done = (
      λ other. elim (Bool-cases (is_empty name)) [
        | inl nameless ↦ rw (nameless_kept name w.secrets nameless, nameless) (h other)
        | inr named ↦ ground (
          arith,
          remove_for_principal-held store json lawful lossless name other w.secrets named done
              (h other),
        )
      ],
      tt,
    )

    perform-Tells :
        (o : Operation) (w : World S) (f : Grants) {r : Report}
        → Reads w f
        → (perform o w).0 ≡ ok r
        → Tells r w (perform o w).1 f
    unfolding perform
    perform-Tells (issuing g) w f {r} h e =
        elim (Result-cases (issue store json rand g.client_id g.scope g.principal w).0) [
          | inr (x, failed) ↦ ground arith
          | inl (token, done) ↦
              let same : issued token g ≡ r = ground arith in
              rw (done, ← same) (Tells-issuing g w f h done)
        ]
    perform-Tells (exchanging token) w f {r} h e =
        elim (Result-cases (exchange store json token w.secrets).0) [
          | inr (x, failed) ↦ ground arith
          | inl (found, done) ↦
              let same : exchanged token found ≡ r = ground arith in
              rw (done, ← same) (Tells-exchanging token w f h done)
        ]
    perform-Tells (removing name) w f {r} h e =
        elim (Result-cases (remove_for_principal store json name w.secrets).0) [
          | inr (x, failed) ↦ ground arith
          | inl (u, done) ↦
              let same : removed name ≡ r = ground arith in
              rw (done, ← same) (Tells-removing name w f h done)
        ]

    -- Over a lawful store and a lossless encoding of documents: any sequence of issues, exchanges
    -- and removals that succeeds, from a store that holds the grants of a function, leaves a store
    -- that holds the grants that the function has after the same reports, and each exchange reports
    -- what its token stood for just then; a removal for the empty name does nothing.
    pub perform_all-replay :
        (os : List Operation) (w : World S) (f : Grants) {rs : List Report}
        → Reads w f
        → (perform_all os w).0 ≡ ok rs
        → Reads (perform_all os w).1 (replay rs f) × AreTrue rs f
    unfolding perform_all Tells
    perform_all-replay [] w f {rs} h e = let same : [] ≡ rs = ground arith in rw (← same) (h, tt)
    perform_all-replay (o ∷ os) w f {rs = all} h e =
        let (r, done, e', run) = >>=-eq-ok (perform o) _ w e in
        let (rs, rest, is, run') =
          >>=-eq-ok (perform_all os) (λ rs. pure (r ∷ rs)) (perform o w).1 e' in
        let same : r ∷ rs ≡ all = ground arith in
        let (reads, true_here) = perform-Tells o w f h done in
        let (reads', true_later) = perform_all-replay os (perform o w).1 (updated r f) reads rest in
        rw (run, run', ← same) (reads', (true_here, true_later))
