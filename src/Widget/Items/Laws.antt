-- ===== src/Widget/Items/Laws.antt =====
-- What the commands on widgets write.
use lib_agent_mcp.Prelude.{
  ℕ, suc, zero, ◌+◌, ◌≡◌, refl, inl, inr, Bool, true, false, not, none, List, [], ◌∷◌, arith,
  length, take, take_all, length-take, filter, ltb, ◌&&◌, if◌then◌else◌, Bool-cases,
}
use lib_agent_mcp.Prelude.Text.{Text, text, text_eq}
use lib_agent_mcp.Widget.{ℤ, bound, Item, Output, write, item_list, list_format}
use lib_agent_mcp.Widget.Items.{
  passed_over, list_loop, show_list, item_list_command, Search, mismatched, search_loop,
  item_search,
}

-- As many items as a limit allows; one that is not positive allows all.
abbrev pub limited {ℓ} : {A : Type ℓ} → ℤ → List A → List A
limited limit xs = if ltb 0 (bound limit) then take (bound limit) xs else xs

ltb_zero : (n : ℕ) → ltb 0 (suc n) ≡ true
ltb_zero n = ground arith

ltb_refl : (n : ℕ) → ltb n n ≡ false
ltb_refl n = ground arith

cut_short {ℓ κ} :
    {A : Type ℓ} {R : Type κ} (b : ℕ) (xs : List A) (k : Bool → List A → R)
    → (if ltb 0 b && ltb b (length xs) then k true (take b xs) else k false xs)
      ≡ k
          (ltb (length (if ltb 0 b then take b xs else xs)) (length xs))
          (if ltb 0 b then take b xs else xs)
cut_short b xs k = elim (Bool-cases (ltb 0 b)) [
  | inr open_end ↦ rw (open_end, ltb_refl (length xs)) refl
  | inl bounded ↦ elim (Bool-cases (ltb b (length xs))) [
    | inl less ↦ rw (bounded, less, length-take b xs (ground arith), less) refl
    | inr all ↦ rw (bounded, all, take_all b xs (ground arith), ltb_refl (length xs)) refl
  ]
]

module _ {N : Type 0} where
  abbrev pub matching : Text → List Text → List (Item N) → List (Item N)
  matching status tags = filter (λ w. not (passed_over status tags w))

  list_loop_lem :
      (status : Text) (tags : List Text) (ws : List (Item N))
      → list_loop status tags ws ≡ (matching status tags ws, length (matching status tags ws))
  unfolding list_loop
  list_loop_lem status tags [] = refl
  list_loop_lem status tags (w ∷ ws) = ground (arith, list_loop_lem status tags ws)

module _ {N F : Type 0} (o : Output N F) (widgets : List (Item N)) (format : Text) where
  -- x
  pub item_list_command_lem :
      (limit : ℤ) (status : Text) (tags : List Text)
      → let found = matching status tags widgets in
        let shown = limited limit found in
        item_list_command o widgets format limit status tags
        ≡ show_list o widgets format (ltb (length shown) (length found)) shown (length found)
  unfolding item_list_command
  item_list_command_lem limit status tags =
      let found = matching status tags widgets in
      rw (list_loop_lem status tags widgets) (
        cut_short (bound limit) found
          (λ more items. show_list o widgets format more items (length found)))

  abbrev pub hits : Search N → List (Item N) → List (Item N)
  hits q = filter (λ w. not (mismatched o widgets format q w))

  -- Without a limit the loop has no break.
  search_loop_all :
      (q : Search N) (n : ℕ) (ws : List (Item N))
      → ltb 0 (bound q.limit) ≡ false
      → search_loop o widgets format q n ws ≡ hits q ws
  unfolding search_loop
  search_loop_all q n [] e = refl
  search_loop_all q n (w ∷ ws) e =
      ground (arith, search_loop_all q n ws e, search_loop_all q (n + 1) ws e)

  -- The loop that has appended n items already breaks when the rest of the limit is used up.
  search_loop-take :
      (q : Search N) (n left : ℕ) (ws : List (Item N))
      → n + suc left ≡ bound q.limit
      → search_loop o widgets format q n ws ≡ take (suc left) (hits q ws)
  unfolding search_loop
  search_loop-take q n left [] e = refl
  search_loop-take q n zero (w ∷ ws) e = ground (arith, search_loop-take q n zero ws e)
  search_loop-take q n (suc left) (w ∷ ws) e = ground (
    arith,
    search_loop-take q n (suc left) ws e,
    search_loop-take q (n + 1) left ws (omega arith),
  )

  search_loop_lem :
      (q : Search N) (b : ℕ) (ws : List (Item N))
      → bound q.limit ≡ b
      → search_loop o widgets format q 0 ws ≡ limited q.limit (hits q ws)
  search_loop_lem q zero ws e = rw e (search_loop_all q 0 ws (rw e refl))
  search_loop_lem q (suc left) ws e =
      rw (e, ltb_zero left) (search_loop-take q 0 left ws (omega (arith, e)))

  -- For any query but the one that stands for a failure, `item search`, whose loop stops at the
  -- limit, writes as many of the items that match, in their order, as the limit allows, and all of
  -- them if it is not positive.
  pub item_search_lem :
      (q : Search N)
      → text_eq q.query (text "upstream-down") ≡ false
      → item_search o widgets format q
        ≡ write o (item_list (list_format o format) (limited q.limit (hits q widgets)) none)
  unfolding item_search
  item_search_lem q e = rw (e, search_loop_lem q (bound q.limit) widgets refl) refl
