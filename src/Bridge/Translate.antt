-- ===== src/Bridge/Translate.antt =====
-- translate.go and fileref_rewrite.go: from the output of a child process to a tool result. The JSON
-- decoder and encoder, and the recognition of a path under a root, are parameters.
pub mod Laws
use lib_agent_mcp.Prelude.{
  ℕ, zero, suc, Bool, true, false, not, ◌&&◌, Option, none, some, List, [], ◌∷◌, ◌++◌,
  if◌then◌else◌,
}
use mathlib.Core.List.{reverse}
use lib_agent_mcp.Prelude.Text.{
  Text, text, text_eq, is_empty, has_prefix, contains, trim_space, split, join,
}
use lib_agent_mcp.Prelude.Dict.{Dict, insert}
use lib_agent_mcp.Bridge.Runner.{RunResult, ExitCode, exited, not_run}
use lib_agent_mcp.Bridge.Blocks.{
  FileRoot, FileRef, JsonValue, string, object, array, scalar, file, Fields, no_fields, field,
  Items, no_items, item, text_block, StructuredContent, ToolResult,
}

-- stdoutHasRootPath
unfoldable pub stdout_has_root_path : Text → List FileRoot → Bool
stdout_has_root_path stdout [] = false
stdout_has_root_path stdout (r ∷ rs) =
    let rest = stdout_has_root_path stdout rs in
    if not (is_empty r.path) && contains stdout r.path then true else rest

unfoldable pub has_prefix_at : Text → Bool
has_prefix_at k = has_prefix k (text "@")

-- singleMetaKey
unfoldable pub single_meta_key : Fields → Option (Text × JsonValue)
single_meta_key (field k v no_fields) = if has_prefix_at k then some (k, v) else none
single_meta_key _ = none

-- obj[key]
unfoldable pub field_of : Text → Fields → Option JsonValue
field_of key no_fields = none
field_of key (field k v fs) = let rest = field_of key fs in if text_eq k key then some v else rest

-- `v.(string)`
abbrev pub as_string : Option JsonValue → Option Text
as_string (some (string s)) = some s
as_string _ = none

abbrev pub or_empty : Option Text → Text
or_empty none = []
or_empty (some s) = s

unfoldable pub with_hint : Text → Text → Text
with_hint msg hint = if is_empty hint then msg else msg ++ (text "\nhint: " ++ hint)

-- errorText
unfoldable pub error_text : Option Fields → Text → Text
error_text none stderr = trim_space stderr
error_text (some obj) stderr =
    with_hint (or_empty (as_string (field_of (text "error") obj)))
      (or_empty (as_string (field_of (text "hint") obj)))

abbrev pub is_zero : ExitCode → Bool
is_zero (exited zero) = true
is_zero (exited (suc _)) = false
is_zero not_run = false

module _ (file_ref_for : List FileRoot → Text → Option FileRef) (roots : List FileRoot) where
  abbrev pub referenced : Text → Option FileRef → JsonValue
  referenced s none = string s
  referenced s (some ref) = file ref

  unfoldable mutual
    -- rewriteFileRefs, where there is a root
    pub rewrite_value : JsonValue → JsonValue
    rewrite_value (string s) = referenced s (file_ref_for roots s)
    rewrite_value (object fs) = object (rewrite_fields fs)
    rewrite_value (array vs) = array (rewrite_items vs)
    rewrite_value (scalar s) = scalar s
    rewrite_value (file r) = file r

    pub rewrite_fields : Fields → Fields
    rewrite_fields no_fields = no_fields
    rewrite_fields (field k v fs) = field k (rewrite_value v) (rewrite_fields fs)

    pub rewrite_items : Items → Items
    rewrite_items no_items = no_items
    rewrite_items (item v vs) = item (rewrite_value v) (rewrite_items vs)

  abbrev pub no_roots : List FileRoot → Bool
  no_roots [] = true
  no_roots (_ ∷ _) = false

  unfoldable pub rewrite_file_refs : JsonValue → JsonValue
  rewrite_file_refs v = if no_roots roots then v else rewrite_value v

-- What a line of stdout is: blank, not JSON, metadata, or a record.
pub data Line : Type 0 where
  blank raw : Line
  metadata : Text → JsonValue → Line
  entry : Fields → Line

pub record Processed : Type 0 where
  pub records : List JsonValue
  pub meta : Dict JsonValue
  pub lines : List Text

module _ (decode : Text → Option Fields) where
  abbrev pub classified : Fields → Option (Text × JsonValue) → Line
  classified obj none = entry obj
  classified obj (some (k, v)) = metadata k v

  abbrev pub decoded_line : Option Fields → Line
  decoded_line none = raw
  decoded_line (some obj) = classified obj (single_meta_key obj)

  unfoldable pub classify : Text → Line
  classify line =
      let trimmed = trim_space line in
      if is_empty trimmed then blank else decoded_line (decode trimmed)

  abbrev pub reported : Option Fields → Option Fields → Option Fields
  reported none rest = rest
  reported (some obj) rest = elim (field_of (text "error") obj) [ none ↦ rest | some _ ↦ some obj ]

  -- The loop of parseError, over the lines from the last one on.
  unfoldable pub first_error : List Text → Option Fields
  first_error [] = none
  first_error (l ∷ ls) =
      let rest = first_error ls in
      let trimmed = trim_space l in
      if is_empty trimmed then rest else reported (decode trimmed) rest

  -- parseError
  unfoldable pub parse_error : Text → Option Fields
  parse_error stderr = first_error (reverse (split stderr 10))

  module _ (marshal : JsonValue → Option Text)
      (file_ref_for : List FileRoot → Text → Option FileRef) (roots : List FileRoot) where
    abbrev pub or_line : Text → Option Text → Text
    or_line line none = line
    or_line line (some b) = b

    abbrev pub keep_line : Text → Processed → Processed
    keep_line line p = record p { lines = line ∷ p.lines }

    abbrev pub keep_record : Text → JsonValue → Processed → Processed
    keep_record line v p = record p {
      records = v ∷ p.records;
      lines = or_line line (marshal v) ∷ p.lines;
    }

    -- What a line does, in front of what the rest of the lines do to the metadata so far.
    abbrev pub process_line :
        Text → Line → (Dict JsonValue → Processed) → Dict JsonValue → Processed
    process_line l blank rest meta = rest meta
    process_line l raw rest meta = keep_line l (rest meta)
    process_line l (metadata k v) rest meta = keep_line l (rest (insert k v meta))
    process_line l (entry obj) rest meta =
        keep_record l (rewrite_file_refs file_ref_for roots (object obj)) (rest meta)

    -- The loop of processStdout: the records, the metadata, added to what was there, and the lines of
    -- the scrubbed text.
    unfoldable pub process_lines : List Text → Dict JsonValue → Processed
    process_lines [] meta = record { records = []; meta = meta; lines = [] }
    process_lines (l ∷ ls) meta = process_line l (classify l) (process_lines ls) meta

    unfoldable pub process_stdout : Text → Processed
    process_stdout stdout = process_lines (split stdout 10) []

    -- The text block of a call that succeeded.
    unfoldable pub output_text : Text → Text
    output_text stdout =
        if stdout_has_root_path stdout roots
        then join (process_stdout stdout).lines (10 ∷ [])
        else stdout

    unfoldable pub translate : RunResult → ToolResult
    translate r =
        let p = process_stdout r.stdout in
        let problem = parse_error r.stderr in
        let notices = trim_space r.stderr in
        if is_zero r.exit_code
        then record {
          content =
              text_block (output_text r.stdout)
              ∷ (if is_empty notices then [] else text_block notices ∷ []);
          structured = some (record { records = p.records; meta = p.meta; error = none });
          is_error = false;
        }
        else record {
          content = text_block (error_text problem r.stderr) ∷ [];
          structured = some (record { records = p.records; meta = p.meta; error = problem });
          is_error = true;
        }
