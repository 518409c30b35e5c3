-- ===== src/Tests/Bridge.antt =====
-- The bridge on a small command tree.
use lib_agent_mcp.Prelude.{
  ◌≡◌, ◌↔◌, ◌⊎◌, refl, Bool, true, false, Option, none, some, List, [], ◌∷◌, ◌++◌, any, All, take,
  length, leb, In, first, if◌then◌else◌,
}
use lib_agent_mcp.Prelude.Text.{Text, text, text_eq, is_empty}
use lib_agent_mcp.Prelude.Dict.{Dict, lookup}
use lib_agent_mcp.Oauth.World.{Verified, is_anonymous}
use lib_agent_mcp.Bridge.Command.{
  Info, Command, Commands, node, no_commands, more, info, excluded, is_runnable, any_command,
  is_exposed, has_runnable_sub, is_annotated, skip_commands, annotation_skip, annotation_expose,
}
use lib_agent_mcp.Bridge.Schema.{Tool, tool_for, tool_for_group, legacy_tools, exposed_tools}
use lib_agent_mcp.Bridge.Schema.Laws.{IsLegacy, IsBoundary, legacy_tools_iff, exposed_tools_sound}
use lib_agent_mcp.Bridge.Runner.{
  IdentityBinding, Child, RunResult, exited, with_code, bound_principal, child_argv, finished,
  build_argv, render_options, run,
}
use lib_agent_mcp.Bridge.Runner.Laws.{
  before_terminator, IsOperators, run_cases, child_argv_terminated,
}
use lib_agent_mcp.Bridge.Blocks.{
  FileRoot, FileRef, JsonValue, Fields, no_fields, StructuredContent, agent_error,
}
use lib_agent_mcp.Bridge.Translate.{translate}
use lib_agent_mcp.Bridge.Translate.Laws.{HasPathFreeValues, translate-HasPathFreeValues}
use lib_agent_mcp.Bridge.Files
use lib_agent_mcp.Bridge.Files.{Host, WalkEntry, FileRootScope, failed, done, effective_file_roots}
use lib_agent_mcp.Bridge.Files.Find.{Filters, collect, max_find_results}
use lib_agent_mcp.Bridge.Files.Tool.{handle_file_tool}
use lib_agent_mcp.Bridge.Files.Laws.{
  handle_file_tool_closed, effective_file_roots_sound, all_refs, collect_lem,
}
use lib_agent_mcp.Bridge.Dispatch.{Setup, other, undecodable, call_tool, serve}
use lib_agent_mcp.Bridge.Dispatch.Laws.{
  IsHelp, answer_of, confirmation, call_group_cases, response_ids, request_ids, serve_ids,
}
use lib_agent_mcp.Tests.Scene.{ann}

abbrev named_command : Text → Dict Text → Bool → Info
named_command name annotations runnable = record {
  name = name;
  use_line = name;
  short = name;
  long = [];
  command_path = name;
  hidden = false;
  runnable = runnable;
  annotations = annotations;
  flags = [];
  local_flags = [];
  inherited_flags = [];
}

abbrev pub leaf : Command
leaf = node (named_command (text "get") [] true) no_commands

abbrev group : Command
group =
    node (named_command (text "item") ((text "mcp.expose", text "true") ∷ []) false)
      (more leaf no_commands)

abbrev pub tree : Commands
tree = more group no_commands

legacy_tools_iff_example :
    In (tool_for (text "_") [] leaf) (legacy_tools (text "_") [] tree)
    ↔ IsLegacy (text "_") [] tree (tool_for (text "_") [] leaf)
legacy_tools_iff_example = legacy_tools_iff (text "_") [] tree (tool_for (text "_") [] leaf)

lists_group : In (tool_for_group (text "_") [] group) (exposed_tools (text "_") [] tree)
unfolding exposed_tools excluded is_exposed has_runnable_sub any_command is_annotated skip_commands
    annotation_skip annotation_expose lookup text text_eq
lists_group = first

exposed_tools_sound_example : IsBoundary (text "_") [] tree (tool_for_group (text "_") [] group)
exposed_tools_sound_example = exposed_tools_sound (text "_") [] tree lists_group

abbrev show : Text → Text
show s = s

abbrev start : List Text → List Text → Child
start argv env = record { out = []; errors = []; ended = with_code 0 }

abbrev as_workspace : IdentityBinding
as_workspace v = (text "--workspace" ∷ v.grant.name ∷ [], [])

abbrev caller : Verified
caller = record { client_id = text "c"; scope = text "mcp"; grant = ann; expires_at = 9 }

-- What a token stands for that was issued for the shared pairing code.
abbrev nobody : Verified
nobody = record caller { grant = record { name = []; binding = [] } }

run_cases_example :
    (IsOperators show (some nobody)
      × (run show start
            (some as_workspace)
            (some nobody)
            (text "item" ∷ [])
            (text "x" ∷ [])
            []
            false
          ≡ run show start none none (text "item" ∷ []) (text "x" ∷ []) [] false))
    ⊎ ((v : Verified) × (◌≡◌ {A = Option Verified} (some nobody) (some v))
        × (¬ IsOperators show (some nobody))
        × (run show start
              (some as_workspace)
              (some nobody)
              (text "item" ∷ [])
              (text "x" ∷ [])
              []
              false
            ≡ finished (
                start
                  (build_argv show (text "item" ∷ []) (text "x" ∷ []) [] false
                    ++ (as_workspace v).0)
                  (as_workspace v).1)))
run_cases_example =
    run_cases show start as_workspace (some nobody) (text "item" ∷ []) (text "x" ∷ []) [] false

terminated : any (text_eq (text "--")) (text "--" ∷ text "x" ∷ []) ≡ true
unfolding text text_eq
terminated = refl

child_argv_terminated_example :
    before_terminator (
      child_argv show
        (some as_workspace)
        (some caller)
        (text "item" ∷ [])
        (text "--" ∷ text "x" ∷ [])
        []
        false)
    ≡ before_terminator
        (child_argv show none none (text "item" ∷ []) (text "--" ∷ text "x" ∷ []) [] true)
child_argv_terminated_example =
    child_argv_terminated show (some as_workspace) none (some caller) none (text "item" ∷ [])
      (text "--" ∷ text "x" ∷ []) [] false true terminated

abbrev file_ref_for : List FileRoot → Text → Option FileRef
file_ref_for [] s = none
file_ref_for (r ∷ rs) s =
    if text_eq r.path s
    then some (record { root = r.name; path = text "."; size = 0; mime_type = [] })
    else file_ref_for rs s

abbrev cache : FileRoot
cache = record { name = text "cache"; path = text "/c" }

abbrev finished_child : RunResult
finished_child = record { stdout = text "{}\n"; stderr = []; exit_code = exited 0 }

abbrev decode : Text → Option Fields
decode t = some (Fields.field (text "path") (JsonValue.string (text "/c")) no_fields)

translate-HasPathFreeValues_example :
    (c : StructuredContent) × ((translate decode
        (λ v. none)
        file_ref_for
        (cache ∷ [])
        finished_child).structured
      ≡ some c)
    × All (HasPathFreeValues file_ref_for (cache ∷ [])) c.records
translate-HasPathFreeValues_example =
    translate-HasPathFreeValues file_ref_for (λ s. refl) decode (λ v. none) (cache ∷ [])
      finished_child

abbrev host : Host
host = record {
  safe_resolve = λ root rel. done rel;
  stat = λ path. failed (agent_error path);
  walk = λ path. done [];
  read_dir = λ path. done [];
  read_file = λ path. done [];
  file_ref_at = λ root rel abs. some (record { root = root; path = rel; size = 1; mime_type = [] });
  failed_ref = λ root rel abs. record { root = []; path = []; size = 0; mime_type = [] };
  new_file_ref = λ root rel. record { root = root; path = rel; size = 0; mime_type = [] };
  sniff_mime_type = λ base bytes. text "text/plain";
  clean = λ path. path;
  path_join = λ a b. b;
  base = λ path. path;
  ext = λ path. [];
  matches = λ glob path. true;
  std_b64 = λ bytes. bytes;
  quote = λ s. s;
  decimal = λ n. [];
  marshal_ref = λ r. none;
}

bound : bound_principal (some caller) ≡ some caller
unfolding bound_principal is_anonymous is_empty text
bound = refl

handle_file_tool_closed_example :
    handle_file_tool host
      (λ s. s)
      10
      (cache ∷ [])
      none
      (some caller)
      (text "ls" ∷ text "cache" ∷ [])
    ≡ handle_file_tool host (λ s. s) 10 [] none (some caller) (text "ls" ∷ text "cache" ∷ [])
handle_file_tool_closed_example =
    handle_file_tool_closed host (λ s. s) 10 (cache ∷ []) (some caller)
      (text "ls" ∷ text "cache" ∷ []) bound

abbrev narrowed : FileRoot
narrowed = record { name = text "cache"; path = text "/c/ann" }

abbrev scope : FileRootScope
scope p r = some narrowed

has_root : In narrowed (effective_file_roots (cache ∷ []) (some scope) (some caller))
unfolding effective_file_roots Files.scoped_roots bound_principal is_anonymous is_empty text
has_root = first

effective_file_roots_sound_example :
    ((bound_principal (some caller) ≡ none) × In narrowed (cache ∷ []))
    ⊎ ((p : Verified) × (f : FileRootScope) × (c : FileRoot) × (bound_principal (some caller)
          ≡ some p)
        × (some scope ≡ some f)
        × In c (cache ∷ [])
        × (f p c ≡ some narrowed))
effective_file_roots_sound_example =
    effective_file_roots_sound (cache ∷ []) (some scope) (some caller) has_root

abbrev filters : Filters
filters = record { exts = []; glob = [] }

abbrev walk_entries : List WalkEntry
walk_entries =
    record { is_regular = true; rel = some (text "a"); abs = text "/c/a" }
    ∷ record { is_regular = false; rel = some (text "b"); abs = text "/c/b" }
    ∷ []

collect_lem_example :
    ((collect host cache filters walk_entries 0).0
      ≡ take max_find_results (all_refs host cache filters walk_entries))
    × ((collect host cache filters walk_entries 0).1
        ≡ leb max_find_results (length (all_refs host cache filters walk_entries)))
collect_lem_example = collect_lem host cache filters walk_entries

abbrev group_tool : Tool
group_tool = tool_for_group (text "_") [] group

abbrev pub setup : Setup Text
setup = record {
  name = text "widget";
  version = text "1";
  tools = group_tool ∷ [];
  file_roots = cache ∷ [];
  file_root_scope = some scope;
  file_inline_limit = 10;
  identity_binding = some as_workspace;
  host = host;
  file_usage = λ s. s;
  show = show;
  start = start;
  decode = decode;
  marshal = λ v. none;
  file_ref_for = file_ref_for;
  find = λ c args. other leaf;
  group_help = λ c. [];
  decode_request = λ t. some (record { id = some t; method = text "ping"; params = [] });
  decode_version = λ t. none;
  decode_call = λ t. undecodable t;
}

is_group : (group_tool.command ≡ some group) × (group_tool.group ≡ true)
unfolding tool_for_group
is_group = (refl, refl)

call_group_cases_example :
    IsHelp setup (call_tool setup (some caller) group_tool (text "get" ∷ []) [])
    ⊎ ((c : Command) × (other leaf ≡ other c)
        × (excluded (info c) ≡ false)
        × (is_runnable c ≡ true)
        × (call_tool setup (some caller) group_tool (text "get" ∷ []) []
            ≡ answer_of setup (some caller) (
                group_tool.path
                ++ (render_options show [] []
                    ++ ((text "get" ∷ [])
                        ++ (confirmation setup c ++ (text "--format" ∷ text "jsonl" ∷ [])))))))
call_group_cases_example =
    call_group_cases setup (some caller) group_tool (text "get" ∷ []) [] group is_group.0 is_group.1

serve_ids_example :
    response_ids setup (serve setup none (text "1" ∷ [] ∷ text "2" ∷ []))
    ≡ request_ids setup (text "1" ∷ [] ∷ text "2" ∷ [])
serve_ids_example = serve_ids setup none (text "1" ∷ [] ∷ text "2" ∷ [])
