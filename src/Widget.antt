-- ===== src/Widget.antt =====
-- The program of examples/widget/main.go, which puts the bridge in front of a small command tree: its
-- data, its state, and what it takes of the package lib-agent-output.
pub mod Items
pub mod Settings
pub mod Tree
use lib_agent_mcp.Prelude.{
  ℕ, Bool, true, false, not, Option, none, some, List, [], ◌∷◌, ◌++◌, ◌||◌, if◌then◌else◌,
}
use lib_agent_mcp.Prelude.Text.{Text, text, text_eq}
use lib_agent_mcp.Prelude.Dict.{Dict}

-- An int of Go.
pub data ℤ : Type 0 where
  pos : ℕ → ℤ
  -- negsuc n is -(n + 1)
  negsuc : ℕ → ℤ

-- A limit that bounds anything is positive; the others are 0 here.
abbrev pub bound : ℤ → ℕ
bound (pos n) = n
bound (negsuc n) = 0

-- The type widget; the scores are the floats N of the host.
pub record Item (N : Type 0) : Type 0 where
  pub id : Text
  pub title : Text
  pub status : Text
  pub score : N
  pub tags : List Text
  pub note : Text

-- Who can fix an error, as output.FixableBy has it.
pub data FixableBy : Type 0 where
  agent human retry : FixableBy

-- What output.New makes of its arguments, and the hint of WithHint or "".
pub record Failure : Type 0 where
  pub message : Text
  pub fixable_by : FixableBy
  pub hint : Text

-- The metadata that `item list` hands over: the values of @pagination and @counts.
pub record ListMeta : Type 0 where
  pub has_more : Bool
  pub total_items : ℕ
  pub returned : ℕ
  pub matched : ℕ

-- A call of the package with the values that it is given; F is its type of formats.
pub data Written (N F : Type 0) : Type 0 where
  notice : (message hint : Text) → Written N F
  item_list : F → List (Item N) → Option ListMeta → Written N F
  print_item : F → Item N → Written N F
  print_map : F → Dict Text → Written N F
  write_fields : Dict Text → Written N F
  write_reset : Written N F

-- lib-agent-output and the floats, as far as the program uses them. `failed` is the error that a call
-- returns, if it fails.
pub record Output (N F : Type 0) : Type 0 where
  pub ndjson : F
  pub json : F
  -- ResolveFormat, whose error the program drops
  pub resolve_format : Text → F → F
  pub failed : Written N F → Option Failure
  pub quote : Text → Text
  pub zero : N
  pub less : N → N → Bool

-- The state of a process: its configuration, and what was written so far, the latest last.
pub record Process (N F : Type 0) : Type 0 where
  pub config : Dict Text
  pub written : List (Written N F)

-- The RunE of a command: the error that it returns, if it does.
abbrev pub Run : Type 0 → Type 0 → Type 0
Run N F = Process N F → Option Failure × Process N F

module _ {N F : Type 0} (o : Output N F) where
  -- A call of the package whose error is returned.
  abbrev pub write : Written N F → Run N F
  write x s = (o.failed x, record s { written = s.written ++ (x ∷ []) })

  -- WriteNotice, which returns nothing, in front of the rest
  abbrev pub noticing : Written N F → Run N F → Run N F
  noticing x next s = next (record s { written = s.written ++ (x ∷ []) })

  abbrev pub fail : Failure → Run N F
  fail e s = (some e, s)

  -- listFormat and singleFormat, with the value of --format
  unfoldable pub list_format : Text → F
  list_format given = o.resolve_format given o.ndjson

  unfoldable pub single_format : Text → F
  single_format given = o.resolve_format given o.json

unfoldable pub has_tag : Text → List Text → Bool
has_tag want [] = false
has_tag want (have ∷ tags) = text_eq have want || has_tag want tags

-- hasAnyTag
unfoldable pub has_any_tag : {N : Type 0} → Item N → List Text → Bool
has_any_tag w [] = false
has_any_tag w (want ∷ tags) = has_tag want w.tags || has_any_tag w tags

unfoldable pub find : {N : Type 0} → List (Item N) → Text → Option (Item N)
find [] id = none
find (w ∷ ws) id = if text_eq w.id id then some w else find ws id
