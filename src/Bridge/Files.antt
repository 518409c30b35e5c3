-- ===== src/Bridge/Files.antt =====
-- fs.go, fs_find.go and fs_content.go: the read-only file tool. The file system, path.Clean and its
-- kin, path.Match, the detection of content types, base64 and the verbs of fmt are parameters; so are
-- SafeResolve and FileRefAt of lib-agent-output.
pub mod Find
pub mod Tool
pub mod Laws
use lib_agent_mcp.Prelude.{
  ℕ, ◌+◌, Bool, true, false, not, ◌&&◌, ◌||◌, Option, none, some, List, [], ◌∷◌, ◌++◌, any, leb,
  ltb, map, if◌then◌else◌,
}
use lib_agent_mcp.Prelude.Text.{
  Text, text, text_eq, is_empty, has_prefix, trim_prefix, trim_space, to_lower, contains, join,
}
use lib_agent_mcp.Oauth.World.{Verified}
use lib_agent_mcp.Bridge.Runner.{bound_principal}
use lib_agent_mcp.Bridge.Blocks.{
  FileRoot, FileRef, JsonValue, file, OutputError, agent_error, fixable_by_agent, fixable_by_human,
  ContentBlock, text_block, image_block, audio_block, resource_block, ToolResult, help_result,
  native_error,
}

-- A result or an error of the packages os and output.
pub data Outcome (A : Type 0) : Type 0 where
  done : A → Outcome A
  failed : OutputError → Outcome A

pub record FileInfo : Type 0 where
  pub is_dir : Bool
  pub size : ℕ

pub record DirEntry : Type 0 where
  pub name : Text
  pub is_dir : Bool

-- An entry that filepath.WalkDir visits: whether it is a readable regular file, its path below the
-- root with slashes, if filepath.Rel gives one, and its path on the host.
pub record WalkEntry : Type 0 where
  pub is_regular : Bool
  pub rel : Option Text
  pub abs : Text

pub record Host : Type 0 where
  pub safe_resolve : FileRoot → Text → Outcome Text
  pub stat : Text → Outcome FileInfo
  pub walk : Text → Outcome (List WalkEntry)
  pub read_dir : Text → Outcome (List DirEntry)
  pub read_file : Text → Outcome Text
  -- output.FileRefAt, what it gives beside an error, and output.NewFileRef
  pub file_ref_at : Text → Text → Text → Option FileRef
  pub failed_ref : Text → Text → Text → FileRef
  pub new_file_ref : Text → Text → FileRef
  pub sniff_mime_type : Text → Text → Text
  -- path.Clean(filepath.ToSlash(rel)), path.Join, filepath.Join, path.Base, path.Ext, path.Match
  pub clean : Text → Text
  pub path_join : Text → Text → Text
  pub base : Text → Text
  pub ext : Text → Text
  pub matches : Text → Text → Bool
  pub std_b64 : Text → Text
  -- %q, %d, and a reference as a line of JSON
  pub quote : Text → Text
  pub decimal : ℕ → Text
  pub marshal_ref : FileRef → Option Text

abbrev pub FileRootScope : Type 0
FileRootScope = Verified → FileRoot → Option FileRoot

abbrev pub with_scoped : Option FileRoot → List FileRoot → List FileRoot
with_scoped none rest = rest
with_scoped (some r) rest = r ∷ rest

-- The roots that the scope leaves to a principal.
unfoldable pub scoped_roots : FileRootScope → Verified → List FileRoot → List FileRoot
scoped_roots scope p [] = []
scoped_roots scope p (r ∷ rs) = with_scoped (scope p r) (scoped_roots scope p rs)

abbrev pub roots_for : List FileRoot → Option FileRootScope → Option Verified → List FileRoot
roots_for roots scope none = roots
roots_for roots none (some p) = []
roots_for roots (some scope) (some p) = scoped_roots scope p roots

-- effectiveFileRoots
unfoldable pub effective_file_roots :
    List FileRoot → Option FileRootScope → Option Verified → List FileRoot
effective_file_roots roots scope ctx = roots_for roots scope (bound_principal ctx)

unfoldable pub root_by_name : List FileRoot → Text → Option FileRoot
root_by_name [] name = none
root_by_name (r ∷ rs) name =
    let rest = root_by_name rs name in if text_eq r.name name then some r else rest

unfoldable pub root_names : List FileRoot → List Text
root_names [] = []
root_names (r ∷ rs) = r.name ∷ root_names rs

abbrev pub or_ref : FileRef → Option FileRef → FileRef
or_ref d none = d
or_ref d (some r) = r

module _ (h : Host) where
  abbrev pub with_line : Option Text → Text → Text
  with_line none rest = rest
  with_line (some line) rest = line ++ (10 ∷ rest)

  unfoldable pub ref_lines : List FileRef → Text → Text
  ref_lines [] tail = tail
  ref_lines (r ∷ rs) tail = with_line (h.marshal_ref r) (ref_lines rs tail)

  unfoldable pub truncation_note : Bool → Text
  truncation_note false = []
  truncation_note true = text "(results truncated at 1000)\n"

  -- fsRecordsResult; the metadata holds @truncated.
  unfoldable pub fs_records_result : List FileRef → Bool → ToolResult
  fs_records_result refs truncated =
      let lines = ref_lines refs (truncation_note truncated) in
      record {
        content = text_block (if is_empty lines then text "(no files)" else lines) ∷ [];
        structured = some (record {
          records = map file refs;
          meta = if truncated then (text "@truncated", JsonValue.scalar (text "true")) ∷ [] else [];
          error = none;
        });
        is_error = false;
      }
