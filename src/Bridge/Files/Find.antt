-- ===== src/Bridge/Files/Find.antt =====
-- fs_find.go and fsFind of fs.go: the verb that searches a root.
use lib_agent_mcp.Prelude.{
  ℕ, ◌+◌, Bool, true, false, not, ◌&&◌, ◌||◌, Option, none, some, List, [], ◌∷◌, ◌++◌, any, leb,
  if◌then◌else◌,
}
use lib_agent_mcp.Prelude.Text.{
  Text, text, text_eq, is_empty, has_prefix, trim_prefix, trim_space, to_lower,
}
use lib_agent_mcp.Bridge.Blocks.{
  FileRoot, FileRef, agent_error, fixable_by_agent, ToolResult, native_error,
}
use lib_agent_mcp.Bridge.Files.{Outcome, done, failed, WalkEntry, Host, fs_records_result}

abbrev pub max_find_results : ℕ
max_find_results = 1000

-- normalizeExt
unfoldable pub normalize_ext : Text → Text
normalize_ext s = to_lower (trim_prefix (trim_space s) (text "."))

pub record Filters : Type 0 where
  pub exts : List Text
  pub glob : Text

-- parseFindArgs: the extensions, the last one first, and the glob.
unfoldable pub parse_find_args : (Text → Text) → List Text → Filters → Outcome Filters
parse_find_args quote [] f = done f
parse_find_args quote (a ∷ []) f =
    if text_eq a (text "-e") || text_eq a (text "--ext")
    then failed (agent_error (a ++ text " needs an extension argument"))
    else if has_prefix a (text "-e=")
    then done (record f { exts = normalize_ext (trim_prefix a (text "-e=")) ∷ f.exts })
    else if has_prefix a (text "-")
    then failed (record {
      message = text "unknown find flag " ++ quote a;
      fixable_by = fixable_by_agent;
      hint = text "supported: -e <ext> (repeatable) and a single bare glob";
    })
    else done (record f { glob = a })
parse_find_args quote (a ∷ b ∷ args) f =
    let with_argument = parse_find_args quote args (record f { exts = normalize_ext b ∷ f.exts }) in
    let inline =
      parse_find_args quote (b ∷ args)
        (record f { exts = normalize_ext (trim_prefix a (text "-e=")) ∷ f.exts }) in
    let bare = parse_find_args quote (b ∷ args) (record f { glob = a }) in
    if text_eq a (text "-e") || text_eq a (text "--ext")
    then with_argument
    else if has_prefix a (text "-e=")
    then inline
    else if has_prefix a (text "-")
    then failed (record {
      message = text "unknown find flag " ++ quote a;
      fixable_by = fixable_by_agent;
      hint = text "supported: -e <ext> (repeatable) and a single bare glob";
    })
    else bare

abbrev pub has_none : List Text → Bool
has_none [] = true
has_none (_ ∷ _) = false

module _ (h : Host) where
  -- matchFind
  unfoldable pub match_find : Text → Filters → Bool
  match_find rel f =
      if not (has_none f.exts) && not (any (text_eq (normalize_ext (h.ext rel))) f.exts)
      then false
      else if is_empty f.glob
      then true
      else h.matches f.glob (h.base rel) || h.matches f.glob rel

  abbrev pub at_rel : FileRoot → Filters → Text → Option Text → Option FileRef
  at_rel root f abs none = none
  at_rel root f abs (some rel) = if match_find rel f then h.file_ref_at root.name rel abs else none

  -- What the function that walks the tree makes of an entry: a reference, or nothing.
  unfoldable pub accepted_entry : FileRoot → Filters → WalkEntry → Option FileRef
  accepted_entry root f e = if e.is_regular then at_rel root f e.abs e.rel else none

  -- What the walk does with a reference, or without one: `rest` is what it does from then on, given
  -- how many references there are.
  abbrev pub add_ref : Option FileRef → ℕ → (ℕ → List FileRef × Bool) → List FileRef × Bool
  add_ref none n rest = rest n
  add_ref (some ref) n rest =
      let (refs, truncated) = rest (n + 1) in
      if leb max_find_results (n + 1) then (ref ∷ [], true) else (ref ∷ refs, truncated)

  -- The walk: the references, given how many there are already, and whether it was cut off.
  unfoldable pub collect : FileRoot → Filters → List WalkEntry → ℕ → List FileRef × Bool
  collect root f [] n = ([], false)
  collect root f (e ∷ es) n = add_ref (accepted_entry root f e) n (collect root f es)

  abbrev pub walked : FileRoot → Filters → Outcome (List WalkEntry) → ToolResult
  walked root f (failed e) = native_error (agent_error (text "cannot search " ++ h.quote root.name))
  walked root f (done es) =
      let (refs, truncated) = collect root f es 0 in fs_records_result h refs truncated

  abbrev pub searched : FileRoot → Outcome Filters → ToolResult
  searched root (failed e) = native_error e
  searched root (done f) = walked root f (h.walk root.path)

  unfoldable pub fs_find : FileRoot → List Text → ToolResult
  fs_find root args = searched root (parse_find_args h.quote args (record { exts = []; glob = [] }))
