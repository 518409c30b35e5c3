-- ===== src/Bridge/Dispatch.antt =====
-- jsonrpc.go: the protocol, from the lines of the standard input to the calls of tools. The JSON
-- decoders, cobra's search for a subcommand and the start of a child process are parameters.
pub mod Laws
use lib_agent_mcp.Prelude.{
  ℕ, Bool, true, false, not, ◌&&◌, ◌||◌, Option, none, some, List, [], ◌∷◌, ◌++◌, if◌then◌else◌,
}
use lib_agent_mcp.Prelude.Text.{Text, text, text_eq, is_empty}
use lib_agent_mcp.Prelude.Dict.{Dict}
use lib_agent_mcp.Oauth.World.{Verified}
use lib_agent_mcp.Bridge.Command.{Command, info, excluded, is_runnable, command_confirms}
use lib_agent_mcp.Bridge.Schema.{Tool}
use lib_agent_mcp.Bridge.Runner.{Value, IdentityBinding, Child, run}
use lib_agent_mcp.Bridge.Blocks.{FileRoot, FileRef, JsonValue, Fields, ToolResult, help_result}
use lib_agent_mcp.Bridge.Translate.{translate}
use lib_agent_mcp.Bridge.Files.{Host, FileRootScope, effective_file_roots}
use lib_agent_mcp.Bridge.Files.Tool.{handle_file_tool}

unfoldable pub default_protocol_version : Text
default_protocol_version = text "2025-06-18"

-- rpcRequest; a notification has no id.
pub record Request : Type 0 where
  pub id : Option Text
  pub method : Text
  pub params : Text

-- The parameters of tools/call, with the arguments printed by %v.
pub record Call (V : Type 0) : Type 0 where
  pub name : Text
  pub args : List Text
  pub opts : Dict (Value V)

-- What cmd.Find gives: nothing, the command itself, or another one.
pub data Found : Type 0 where
  not_found itself : Found
  other : Command → Found

-- The results that the methods answer with.
pub data Answer : Type 0 where
  initialized : (version name server_version : Text) → Answer
  tools_listed : List Tool → Answer
  called : ToolResult → Answer
  pong : Answer

pub record RpcError : Type 0 where
  pub code : Text
  pub message : Text

-- rpcResponse, with its result or its error.
pub data Outcome : Type 0 where
  result : Answer → Outcome
  error : RpcError → Outcome

pub record Response : Type 0 where
  pub id : Text
  pub outcome : Outcome

-- A decoded value, or the message of the decoder.
pub data Decoded (A : Type 0) : Type 0 where
  decoded : A → Decoded A
  undecodable : Text → Decoded A

-- What a server is set up with, and the code that it calls.
pub record Setup (V : Type 0) : Type 0 where
  pub name : Text
  pub version : Text
  pub tools : List Tool
  pub file_roots : List FileRoot
  pub file_root_scope : Option FileRootScope
  pub file_inline_limit : ℕ
  pub identity_binding : Option IdentityBinding
  pub host : Host
  pub file_usage : Text → Text
  pub show : V → Text
  pub start : List Text → List Text → Child
  pub decode : Text → Option Fields
  pub marshal : JsonValue → Option Text
  pub file_ref_for : List FileRoot → Text → Option FileRef
  pub find : Command → List Text → Found
  pub group_help : Command → Text
  pub decode_request : Text → Option Request
  pub decode_version : Text → Option Text
  pub decode_call : Text → Decoded (Call V)

-- s.toolsByName[name], where a later tool of the name replaces an earlier one.
unfoldable pub tool_by_name : List Tool → Text → Option Tool
tool_by_name [] name = none
tool_by_name (t ∷ ts) name = elim (tool_by_name ts name) [
  | some later ↦ some later
  | none ↦ if text_eq t.name name then some t else none
]

module _ {V : Type 0} (s : Setup V) where
  -- The end of callTool: the child process that serves the call.
  unfoldable pub run_command :
      Option Verified → Tool → List Text → Dict (Value V) → Command → ToolResult
  run_command ctx tool args opts target =
      translate s.decode s.marshal s.file_ref_for
        (effective_file_roots s.file_roots s.file_root_scope ctx)
        (run s.show s.start s.identity_binding ctx tool.path args opts (command_confirms target))

  unfoldable pub unknown_subcommand : Text → Command → ToolResult
  unknown_subcommand arg group =
      help_result
        (text "unknown subcommand " ++ (s.host.quote arg ++ (text "\n\n" ++ s.group_help group)))

  abbrev pub run_found :
      Option Verified → Tool → Text → List Text → Dict (Value V) → Command → Found → ToolResult
  run_found ctx tool arg args opts group not_found = unknown_subcommand arg group
  run_found ctx tool arg args opts group itself = unknown_subcommand arg group
  run_found ctx tool arg args opts group (other c) =
      if excluded (info c) || not (is_runnable c)
      then unknown_subcommand arg group
      else run_command ctx tool args opts c

  unfoldable pub call_group :
      Option Verified → Tool → List Text → Dict (Value V) → Command → ToolResult
  call_group ctx tool [] opts group = help_result (s.group_help group)
  call_group ctx tool (a ∷ args) opts group =
      if text_eq a (text "help")
      then help_result (s.group_help group)
      else run_found ctx tool a (a ∷ args) opts group (s.find group (a ∷ args))

  abbrev pub call_command :
      Option Verified → Tool → List Text → Dict (Value V) → Option Command → ToolResult
  call_command ctx tool args opts none =
      handle_file_tool s.host s.file_usage s.file_inline_limit s.file_roots s.file_root_scope ctx
        args
  call_command ctx tool args opts (some c) =
      if tool.group then call_group ctx tool args opts c else run_command ctx tool args opts c

  -- callTool
  unfoldable pub call_tool : Option Verified → Tool → List Text → Dict (Value V) → ToolResult
  call_tool ctx tool args opts = call_command ctx tool args opts tool.command

  abbrev pub call_named : Option Verified → Call V → Option Tool → Outcome
  call_named ctx c none =
      error (record { code = text "-32602"; message = text "unknown tool: " ++ c.name })
  call_named ctx c (some tool) = result (called (call_tool ctx tool c.args c.opts))

  abbrev pub call_decoded : Option Verified → Decoded (Call V) → Outcome
  call_decoded ctx (undecodable message) =
      error (record { code = text "-32602"; message = text "invalid params: " ++ message })
  call_decoded ctx (decoded c) = call_named ctx c (tool_by_name s.tools c.name)

  -- handleToolCall
  unfoldable pub handle_tool_call : Option Verified → Text → Outcome
  handle_tool_call ctx params = call_decoded ctx (s.decode_call params)

  abbrev pub negotiated : Option Text → Text
  negotiated none = default_protocol_version
  negotiated (some v) = if is_empty v then default_protocol_version else v

  unfoldable pub handle_initialize : Text → Answer
  handle_initialize params = initialized (negotiated (s.decode_version params)) s.name s.version

  unfoldable pub outcome_of : Option Verified → Request → Outcome
  outcome_of ctx r =
      if text_eq r.method (text "initialize")
      then result (handle_initialize r.params)
      else if text_eq r.method (text "tools/list")
      then result (tools_listed s.tools)
      else if text_eq r.method (text "tools/call")
      then handle_tool_call ctx r.params
      else if text_eq r.method (text "ping")
      then result pong
      else error (record { code = text "-32601"; message = text "method not found: " ++ r.method })

  -- dispatch, of a request with this id
  unfoldable pub dispatch : Option Verified → Text → Request → Response
  dispatch ctx id r = record { id = id; outcome = outcome_of ctx r }

  abbrev pub responses : Option Verified → Request → Option Text → List Response
  responses ctx r none = []
  responses ctx r (some id) = dispatch ctx id r ∷ []

  abbrev pub request_responses : Option Verified → Option Request → List Response
  request_responses ctx none = []
  request_responses ctx (some r) = responses ctx r r.id

  unfoldable pub line_responses : Option Verified → Text → List Response
  line_responses ctx line =
      if is_empty line then [] else request_responses ctx (s.decode_request line)

  -- Serve: what is written for the lines that are read.
  unfoldable pub serve : Option Verified → List Text → List Response
  serve ctx [] = []
  serve ctx (l ∷ ls) = line_responses ctx l ++ serve ctx ls
