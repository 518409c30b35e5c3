-- ===== src/Tests/Widgets.antt =====
-- The example program, with three items and a cobra that adds nothing.
use lib_agent_mcp.Prelude.{
  ℕ, ◌≡◌, refl, true, false, none, List, [], ◌∷◌, ◌++◌, ltb, In, first, next, if◌then◌else◌,
}
use lib_agent_mcp.Prelude.Text.{Text, text, text_eq, is_empty, cut}
use lib_agent_mcp.Bridge.Command.{Info, Command, node, no_commands}
use lib_agent_mcp.Bridge.Schema.{Tool, build_tools, tool_for}
use lib_agent_mcp.Bridge.Schema.Input.{input_json}
use lib_agent_mcp.Bridge.Schema.WellFormed.{IsSchema}
use lib_agent_mcp.Bridge.Options.{
  apply_all, default_options, default_hidden_flags, native_tools, new_server,
}
use lib_agent_mcp.Bridge.Options.Schemas.{new_server-IsSchema}
use lib_agent_mcp.Widget.{pos, Item, Output, write, item_list, list_format}
use lib_agent_mcp.Widget.Items.{Search, item_search}
use lib_agent_mcp.Widget.Items.Laws.{limited, hits, item_search_lem}
use lib_agent_mcp.Widget.Tree.{Cobra, leaf, item_list_declared, root_commands}
use lib_agent_mcp.Widget.Tree.Declarations.{IsCobra, first_of, by_name}
use lib_agent_mcp.Widget.Tree.Laws.{seven_tools, two_tools}
use lib_agent_mcp.Widget.Tree.Exposed.{build_tools-root_commands}

abbrev output : Output ℕ Text
output = record {
  ndjson = text "jsonl";
  json = text "json";
  resolve_format = λ given default. if is_empty given then default else given;
  failed = λ _. none;
  quote = λ s. s;
  zero = 0;
  less = ltb;
}

abbrev item : Text → Text → ℕ → Item ℕ
item id title score = record {
  id = id;
  title = title;
  status = text "active";
  score = score;
  tags = [];
  note = [];
}

abbrev items : List (Item ℕ)
items =
    item (text "w1") (text "Blue cog") 7
    ∷ item (text "w2") (text "Red bolt") 9
    ∷ item (text "w3") (text "blue bolt") 8
    ∷ item (text "w4") (text "BLUE") 9
    ∷ []

abbrev query : Search ℕ
query = record { query = text "blue"; limit = pos 2; min_score = 5 }

not_down : text_eq query.query (text "upstream-down") ≡ false
unfolding text text_eq
not_down = refl

item_search_lem_example :
    item_search output items (text "jsonl") query
    ≡ write output (
        item_list
          (list_format output (text "jsonl"))
          (limited query.limit (hits output items (text "jsonl") query items))
          none)
item_search_lem_example = item_search_lem output items (text "jsonl") query not_down

abbrev cobra : Cobra
cobra = record {
  info = λ path d. record {
    name = first_of d.use_name (cut d.use_name (b' '));
    use_line = d.use_name;
    short = d.short;
    long = [];
    command_path = [];
    hidden = false;
    runnable = d.runs;
    annotations = d.annotations;
    flags = d.flags;
    local_flags = d.flags;
    inherited_flags = [];
  };
  commands = by_name;
}

cobra-IsCobra : IsCobra cobra
cobra-IsCobra = record {
  name = λ path d. refl;
  annotations = λ path d. refl;
  hidden = λ path d. refl;
  runnable = λ path d. refl;
  sorted = λ cs e. refl;
  yes_flag = λ path d. refl;
}

abbrev mcp : Info
mcp =
    cobra.info []
      (record { use_name = text "mcp"; short = []; annotations = []; runs = true; flags = [] })

mcp_named : mcp.name ≡ text "mcp"
unfolding cut text
mcp_named = refl

build_tools-root_commands_example :
    build_tools (text "_") [] (node mcp (root_commands cobra (text "1") (node mcp no_commands))) []
    ≡ (if is_empty (text "1")
        then seven_tools cobra (text "_") []
        else two_tools cobra (text "_") [])
      ++ []
build_tools-root_commands_example =
    build_tools-root_commands (text "_") [] cobra cobra-IsCobra (text "1") mcp
      (node mcp no_commands) [] mcp_named

abbrev root : Command
root = node mcp (root_commands cobra [] (node mcp no_commands))

abbrev list_tool : Tool
list_tool = tool_for (text "_") default_hidden_flags (leaf cobra (text "item") item_list_declared)

has_list : In list_tool (new_server root [] []).1
unfolding new_server apply_all default_options native_tools is_empty
has_list =
    let tools =
      build_tools-root_commands (text "_") default_hidden_flags cobra cobra-IsCobra [] mcp
        (node mcp no_commands) [] mcp_named in
    rw tools (next (next (next (next (next first)))))

new_server-IsSchema_example : IsSchema (input_json list_tool.input)
new_server-IsSchema_example = new_server-IsSchema root [] [] has_list
