-- ===== src/Bridge/Runner/Laws.antt =====
-- Whose identity a child process runs with, and what its arguments cannot hide.
use lib_agent_mcp.Prelude.{
  ◌≡◌, ◌⊎◌, inl, inr, ap, ◌∙◌, refl, Bool, true, false, Bool-cases, ◌&&◌, Option, none, some, List,
  [], ◌∷◌, ◌++◌, arith, any, if◌then◌else◌,
}
use mathlib.Core.List.{append_assoc}
use lib_agent_mcp.Prelude.Text.{Text, text, text_eq, is_empty}
use lib_agent_mcp.Prelude.Dict.{Dict, keys, sorted}
use lib_agent_mcp.Oauth.World.{Verified, PrincipalGrant, is_anonymous, no_entries}
use lib_agent_mcp.Bridge.Runner.{
  Value, IdentityBinding, Child, bound_principal, identity_injection, build_argv, child_argv,
  finished, run, render_options,
}

-- The arguments in front of the first "--", which are those that a command-line parser reads as
-- flags; all of them if there is none.
unfoldable pub before_terminator : List Text → List Text
before_terminator [] = []
before_terminator (x ∷ xs) =
    let rest = before_terminator xs in if text_eq (text "--") x then [] else x ∷ rest

before_terminator-append :
    (xs ys zs : List Text)
    → any (text_eq (text "--")) xs ≡ true
    → before_terminator (xs ++ ys) ≡ before_terminator (xs ++ zs)
unfolding before_terminator
before_terminator-append [] ys zs e = cc
before_terminator-append (x ∷ xs) ys zs e = ground (arith, before_terminator-append xs ys zs)

before_terminator-append_congruent :
    (xs ys zs : List Text)
    → before_terminator ys ≡ before_terminator zs
    → before_terminator (xs ++ ys) ≡ before_terminator (xs ++ zs)
unfolding before_terminator
before_terminator-append_congruent [] ys zs e = e
before_terminator-append_congruent (x ∷ xs) ys zs e =
    ground (arith, before_terminator-append_congruent xs ys zs e)

both_empty : (n : Text) (b : Dict Text) → (is_empty n && no_entries b) ≡ true → (n ≡ []) × (b ≡ [])
unfolding is_empty
both_empty [] [] k = (refl, refl)
both_empty [] (x ∷ b) k = cc
both_empty (c ∷ n) b k = cc

anonymous_empty : (g : PrincipalGrant) → is_anonymous g ≡ true → (g.name ≡ []) × (g.binding ≡ [])
unfolding is_anonymous
anonymous_empty g e = both_empty g.name g.binding e

named_filled : (g : PrincipalGrant) → is_anonymous g ≡ false → ¬ ((g.name ≡ []) × (g.binding ≡ []))
unfolding is_anonymous is_empty
named_filled g e (n, b) =
    let k : (is_empty g.name && no_entries g.binding) ≡ true = rw (n, b) refl in cc

module _ {V : Type 0} (show : V → Text) where
  -- A call that no principal is behind: stdio, or a token of the anonymous operator.
  abbrev pub IsOperators : Option Verified → Type 0
  IsOperators none = Unit
  IsOperators (some v) = (v.grant.name ≡ []) × (v.grant.binding ≡ [])

  -- With an identity binding: either a call has no caller, or one with neither a name nor a
  -- binding, and its child runs just as it would with no identity binding and no caller; or it has
  -- a caller with a name or a binding, and the arguments of its child end with those, and its
  -- environment is extended by that, which the identity binding gives for just this caller.
  pub run_cases :
      (start : List Text → List Text → Child) (binding : IdentityBinding) (ctx : Option Verified)
      (path args : List Text) (opts : Dict (Value V)) (confirm : Bool)
      → (IsOperators ctx
          × (run show start (some binding) ctx path args opts confirm
              ≡ run show start none none path args opts confirm))
        ⊎ ((v : Verified) × (ctx ≡ some v)
            × (¬ IsOperators ctx)
            × (run show start (some binding) ctx path args opts confirm
                ≡ finished (
                    start (build_argv show path args opts confirm ++ (binding v).0) (binding v).1)))
  unfolding run child_argv identity_injection bound_principal
  run_cases start binding none path args opts confirm = inl (tt, refl)
  run_cases start binding (some v) path args opts confirm =
      elim (Bool-cases (is_anonymous v.grant)) [
        | inl nobody ↦ inl (anonymous_empty v.grant nobody, rw (nobody) refl)
        | inr named ↦ inr (v, refl, named_filled v.grant named, rw (named) refl)
      ]

  -- Once the arguments of a call hold a "--", the arguments in front of the first one are the same
  -- for every identity binding, caller and confirmation, so no flag that the binding adds is among
  -- them.
  pub child_argv_terminated :
      (binding other : Option IdentityBinding) (ctx caller : Option Verified)
      (path args : List Text) (opts : Dict (Value V)) (confirm also : Bool)
      → any (text_eq (text "--")) args ≡ true
      → before_terminator (child_argv show binding ctx path args opts confirm)
        ≡ before_terminator (child_argv show other caller path args opts also)
  unfolding child_argv build_argv
  child_argv_terminated binding other ctx caller path args opts confirm also e =
      let flags = render_options show opts (sorted (keys opts)) in
      let tail = λ (b : Bool).
        (if b then text "--yes" ∷ [] else []) ++ (text "--format" ∷ text "jsonl" ∷ []) in
      let regroup : (t i : List Text)
          → (path ++ (flags ++ (args ++ t))) ++ i ≡ path ++ (flags ++ (args ++ (t ++ i))) =
        λ t i.
          append_assoc path (flags ++ (args ++ t)) i
          ∙ ap (λ r. path ++ r)
              (append_assoc flags (args ++ t) i ∙ ap (λ r. flags ++ r) (append_assoc args t i)) in
      rw
        (
          regroup (tail confirm) (identity_injection binding ctx).0,
          regroup (tail also) (identity_injection other caller).0,
        )
        (before_terminator-append_congruent path _ _
          (before_terminator-append_congruent flags _ _ (before_terminator-append args _ _ e)))
