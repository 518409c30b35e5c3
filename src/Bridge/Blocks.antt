-- ===== src/Bridge/Blocks.antt =====
-- resultblocks.go: the result of a tool call. The package lib-agent-output is not read: of its data,
-- the fields that the code uses stand here.
use lib_agent_mcp.Prelude.{
  ℕ, Bool, true, false, Option, none, some, List, [], ◌∷◌, ◌++◌, if◌then◌else◌,
}
use lib_agent_mcp.Prelude.Text.{Text, text, is_empty}
use lib_agent_mcp.Prelude.Dict.{Dict}

-- output.FileRoot and output.FileRef; a size that is not known is 0.
pub record FileRoot : Type 0 where
  pub name : Text
  pub path : Text

pub record FileRef : Type 0 where
  pub root : Text
  pub path : Text
  pub size : ℕ
  pub mime_type : Text

-- A decoded JSON value, where a string may have been replaced by a file reference.
mutual
  pub data JsonValue : Type 0 where
    string : Text → JsonValue
    object : Fields → JsonValue
    array : Items → JsonValue
    scalar : Text → JsonValue
    file : FileRef → JsonValue

  pub data Fields : Type 0 where
    no_fields : Fields
    field : Text → JsonValue → Fields → Fields

  pub data Items : Type 0 where
    no_items : Items
    item : JsonValue → Items → Items

-- output.Error
pub record OutputError : Type 0 where
  pub message : Text
  pub fixable_by : Text
  pub hint : Text

unfoldable pub fixable_by_agent : Text
fixable_by_agent = text "agent"

unfoldable pub fixable_by_human : Text
fixable_by_human = text "human"

-- output.Newf(output.FixableByAgent, …)
abbrev pub agent_error : Text → OutputError
agent_error message = record { message = message; fixable_by = fixable_by_agent; hint = [] }

pub data ContentBlock : Type 0 where
  text_block : Text → ContentBlock
  image_block audio_block : (data_base64 mime_type : Text) → ContentBlock
  resource_block : (uri mime_type blob : Text) → ContentBlock

pub record StructuredContent : Type 0 where
  pub records : List JsonValue
  pub meta : Dict JsonValue
  pub error : Option Fields

pub record ToolResult : Type 0 where
  pub content : List ContentBlock
  pub structured : Option StructuredContent
  pub is_error : Bool

unfoldable pub help_result : Text → ToolResult
help_result s = record { content = text_block s ∷ []; structured = none; is_error = false }

unfoldable pub error_fields : OutputError → Fields
error_fields e = field (text "error") (string e.message) (
    field (text "fixable_by") (string e.fixable_by)
      (if is_empty e.hint then no_fields else field (text "hint") (string e.hint) no_fields))

unfoldable pub native_error : OutputError → ToolResult
native_error e = record {
  content =
      text_block (if is_empty e.hint then e.message else e.message ++ (text "\nhint: " ++ e.hint))
      ∷ [];
  structured = some (record { records = []; meta = []; error = some (error_fields e) });
  is_error = true;
}
