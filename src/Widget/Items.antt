-- ===== src/Widget/Items.antt =====
-- The commands below `widget item`.
pub mod Laws
use lib_agent_mcp.Prelude.{
  ℕ, ◌+◌, Bool, true, false, not, Option, none, some, List, [], ◌∷◌, ◌++◌, ◌||◌, ◌&&◌, length, take,
  ltb, leb, if◌then◌else◌,
}
use lib_agent_mcp.Prelude.Text.{Text, text, text_eq, is_empty, contains, to_lower}
use lib_agent_mcp.Prelude.Dict.{Dict}
use lib_agent_mcp.Widget.{
  ℤ, bound, Item, Failure, FixableBy, agent, human, retry, ListMeta, Written, notice, item_list,
  print_item, write_fields, Output, Process, Run, write, noticing, fail, list_format, single_format,
  has_any_tag, find,
}

-- `len(tags) > 0`
abbrev pub given : List Text → Bool
given [] = false
given (_ ∷ _) = true

module _ {N : Type 0} where
  -- The tests of the loop of `list`: whether the item is passed over.
  unfoldable pub passed_over : Text → List Text → Item N → Bool
  passed_over status tags w =
      (not (is_empty status) && not (text_eq w.status status))
      || (given tags && not (has_any_tag w tags))

  -- The loop of `list`: the items, and how often one matched.
  unfoldable pub list_loop : Text → List Text → List (Item N) → List (Item N) × ℕ
  list_loop status tags [] = ([], 0)
  list_loop status tags (w ∷ ws) =
      let (items, matched) = list_loop status tags ws in
      if passed_over status tags w then (items, matched) else (w ∷ items, matched + 1)

-- The flags of `search` that its RunE reads.
pub record Search (N : Type 0) : Type 0 where
  pub query : Text
  pub limit : ℤ
  pub min_score : N

module _ {N F : Type 0} (o : Output N F) (widgets : List (Item N)) (format : Text) where
  abbrev pub counted : Bool → List (Item N) → ℕ → ListMeta
  counted has_more items matched = record {
    has_more = has_more;
    total_items = matched;
    returned = length items;
    matched = matched;
  }

  abbrev pub show_list : Bool → List (Item N) → ℕ → Run N F
  show_list has_more items matched =
      noticing o (notice (text "compact projection; pass --full for raw payloads") [])
        (write o (item_list (list_format o format) items (some (counted has_more items matched))))

  -- The RunE of `item list`.
  unfoldable pub item_list_command : ℤ → Text → List Text → Run N F
  item_list_command limit status tags =
      let (items, matched) = list_loop status tags widgets in
      if ltb 0 (bound limit) && ltb (bound limit) (length items)
      then show_list true (take (bound limit) items) matched
      else show_list false items matched

  unfoldable pub not_found : Text → Text → Failure
  not_found id hint = record {
    message = text "widget " ++ (o.quote id ++ text " not found");
    fixable_by = agent;
    hint = hint;
  }

  abbrev pub got : Text → Option (Item N) → Run N F
  got id none = fail o (not_found id (text "list ids with 'widget item list'"))
  got id (some w) = write o (print_item (single_format o format) w)

  -- The RunE of `item get`.
  unfoldable pub item_get : Text → Run N F
  item_get id = got id (find widgets id)

  -- The tests of the loop of `search`: whether the item is passed over.
  unfoldable pub mismatched : Search N → Item N → Bool
  mismatched q w =
      (o.less o.zero q.min_score && o.less w.score q.min_score)
      || (not (is_empty q.query) && not (contains (to_lower w.title) (to_lower q.query)))

  -- The loop of `search`, with the number of items that it has appended.
  unfoldable pub search_loop : Search N → ℕ → List (Item N) → List (Item N)
  search_loop q n [] = []
  search_loop q n (w ∷ ws) =
      let skipped = search_loop q n ws in
      let more = search_loop q (n + 1) ws in
      if mismatched q w
      then skipped
      else if ltb 0 (bound q.limit) && leb (bound q.limit) (n + 1)
      then w ∷ []
      else w ∷ more

  -- The RunE of `item search`.
  unfoldable pub item_search : Search N → Run N F
  item_search q =
      if text_eq q.query (text "upstream-down")
      then fail o (record {
        message = text "search backend temporarily unavailable";
        fixable_by = retry;
        hint = text "retry in a few seconds";
      })
      else write o (item_list (list_format o format) (search_loop q 0 widgets) none)

  abbrev pub deleted : Text → Bool → Option (Item N) → Run N F
  deleted id confirmed none = fail o (not_found id [])
  deleted id confirmed (some w) =
      if not confirmed
      then fail o (record {
        message =
            text "refusing to delete widget " ++ (o.quote w.id ++ text " without confirmation");
        fixable_by = human;
        hint = text "rerun with --yes";
      })
      else write o (write_fields ((text "deleted", w.id) ∷ []))

  -- The RunE of `item delete`, with the flag --yes.
  unfoldable pub item_delete : Text → Bool → Run N F
  item_delete id confirmed = deleted id confirmed (find widgets id)
