-- ===== src/Bridge/Files/Laws.antt =====
-- Which files a caller can reach, and what a search gives.
use lib_agent_mcp.Prelude.{
  ℕ, zero, suc, ◌+◌, ◌≡◌, ap, ◌∙◌, ◌⊎◌, inl, inr, refl, Bool, true, false, Option, none, some, List,
  [], ◌∷◌, arith, leb, take, length, In, first, next,
}
use lib_agent_mcp.Prelude.Text.{Text}
use lib_agent_mcp.Oauth.World.{Verified}
use lib_agent_mcp.Bridge.Runner.{bound_principal}
use lib_agent_mcp.Bridge.Blocks.{FileRoot, FileRef}
use lib_agent_mcp.Bridge.Files.{
  Host, WalkEntry, FileRootScope, effective_file_roots, roots_for, scoped_roots, with_scoped,
}
use lib_agent_mcp.Bridge.Files.Find.{Filters, accepted_entry, collect, add_ref, max_find_results}
use lib_agent_mcp.Bridge.Files.Tool.{handle_file_tool}

-- With no file-root scope declared, a named principal's call of the file tool is answered just as
-- by a server that has no roots.
pub handle_file_tool_closed :
    (h : Host) (usage : Text → Text) (limit : ℕ) (roots : List FileRoot) (ctx : Option Verified)
    (args : List Text) {p : Verified}
    → bound_principal ctx ≡ some p
    → handle_file_tool h usage limit roots none ctx args
      ≡ handle_file_tool h usage limit [] none ctx args
unfolding handle_file_tool effective_file_roots
handle_file_tool_closed h usage limit roots ctx args e = rw (e) refl

with_scoped-In :
    (o : Option FileRoot) (rest : List FileRoot) {r : FileRoot}
    → In r (with_scoped o rest)
    → (o ≡ some r) ⊎ In r rest
with_scoped-In none rest h = inr h
with_scoped-In (some s) rest first = inl refl
with_scoped-In (some s) rest (next h) = inr h

scoped_roots-In :
    (scope : FileRootScope) (p : Verified) (roots : List FileRoot) {r : FileRoot}
    → In r (scoped_roots scope p roots)
    → (c : FileRoot) × In c roots × (scope p c ≡ some r)
unfolding scoped_roots
scoped_roots-In scope p [] h = elim h [ ]
scoped_roots-In scope p (c ∷ cs) h = elim (with_scoped-In (scope p c) (scoped_roots scope p cs) h) [
  | inl e ↦ (c, first, e)
  | inr k ↦ let (d, i, e) = scoped_roots-In scope p cs k in (d, next i, e)
]

-- A root that a caller has is a configured one, and the caller an operator, or it is what the scope
-- makes of a configured one for the caller's principal.
pub effective_file_roots_sound :
    (roots : List FileRoot) (scope : Option FileRootScope) (ctx : Option Verified) {r : FileRoot}
    → In r (effective_file_roots roots scope ctx)
    → ((bound_principal ctx ≡ none) × In r roots)
      ⊎ ((p : Verified) × (f : FileRootScope) × (c : FileRoot) × (bound_principal ctx ≡ some p)
          × (scope ≡ some f)
          × In c roots
          × (f p c ≡ some r))
unfolding effective_file_roots
effective_file_roots_sound roots scope ctx h = sound scope (bound_principal ctx) refl h
  where
    sound :
        (s : Option FileRootScope) (o : Option Verified) {r : FileRoot}
        → bound_principal ctx ≡ o
        → In r (roots_for roots s o)
        → ((bound_principal ctx ≡ none) × In r roots)
          ⊎ ((p : Verified) × (f : FileRootScope) × (c : FileRoot) × (bound_principal ctx ≡ some p)
              × (s ≡ some f)
              × In c roots
              × (f p c ≡ some r))
    sound s none e h = inl (e, h)
    sound none (some p) e h = elim h [ ]
    sound (some f) (some p) e h =
        let (c, i, k) = scoped_roots-In f p roots h in inr (p, f, c, e, refl, i, k)

module _ (h : Host) (root : FileRoot) (f : Filters) where
  abbrev pub with_ref : Option FileRef → List FileRef → List FileRef
  with_ref none refs = refs
  with_ref (some ref) refs = ref ∷ refs

  -- The references that a walk without a limit would give.
  unfoldable pub all_refs : List WalkEntry → List FileRef
  all_refs [] = []
  all_refs (e ∷ es) = with_ref (accepted_entry h root f e) (all_refs es)

  add_ref-take :
      (o : Option FileRef) (n m : ℕ) (rest : ℕ → List FileRef × Bool) (all : List FileRef)
      → n + suc m ≡ max_find_results
      → ((k l : ℕ)
          → k + suc l ≡ max_find_results
          → ((rest k).0 ≡ take (suc l) all) × ((rest k).1 ≡ leb (suc l) (length all)))
      → ((add_ref h o n rest).0 ≡ take (suc m) (with_ref o all))
        × ((add_ref h o n rest).1 ≡ leb (suc m) (length (with_ref o all)))
  add_ref-take none n m rest all b ih = ih n m b
  add_ref-take (some ref) n zero rest all b ih =
      let full : leb max_find_results (n + 1) ≡ true = ground arith in
      rw (full) (refl, ground arith)
  add_ref-take (some ref) n (suc m) rest all b ih =
      let room : leb max_find_results (n + 1) ≡ false = ground arith in
      let later = ih (n + 1) m (omega arith) in
      rw (room) (ap (λ l. ref ∷ l) later.0, later.1 ∙ ground arith)

  collect_from :
      (es : List WalkEntry) (n m : ℕ)
      → n + suc m ≡ max_find_results
      → ((collect h root f es n).0 ≡ take (suc m) (all_refs es))
        × ((collect h root f es n).1 ≡ leb (suc m) (length (all_refs es)))
  unfolding collect all_refs
  collect_from [] n m b = (refl, ground arith)
  collect_from (e ∷ es) n m b =
      add_ref-take (accepted_entry h root f e) n m (collect h root f es) (all_refs es) b
        (collect_from es)

  -- A search gives the first thousand references of a walk without a limit, and says that it was
  -- cut off exactly if there are a thousand or more.
  pub collect_lem :
      (es : List WalkEntry)
      → ((collect h root f es 0).0 ≡ take max_find_results (all_refs es))
        × ((collect h root f es 0).1 ≡ leb max_find_results (length (all_refs es)))
  collect_lem es = collect_from es 0 999 refl
