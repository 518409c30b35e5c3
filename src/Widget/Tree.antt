-- ===== src/Widget/Tree.antt =====
-- The command tree that examples/widget/main.go declares, and what cobra makes of a declaration.
pub mod Declarations
pub mod Order
pub mod Laws
pub mod Unexposed
pub mod Exposed
use lib_agent_mcp.Prelude.{Bool, true, false, not, List, [], ◌∷◌, ◌++◌, if◌then◌else◌}
use lib_agent_mcp.Prelude.Text.{Text, text, is_empty}
use lib_agent_mcp.Prelude.Dict.{Dict}
use lib_agent_mcp.Bridge.Command.{
  Flag, Info, Command, Commands, node, no_commands, more, expose, annotation_skip,
  annotation_read_only, annotation_destructive,
}
use lib_agent_mcp.Bridge.Schema.{annotation_flag_hidden, bash_comp_one_required_flag}

-- A literal of cobra.Command, as far as the program writes it, with the flags that are put on it.
pub record Declared : Type 0 where
  pub use_name : Text
  pub short : Text
  pub annotations : Dict Text
  -- whether it has a RunE
  pub runs : Bool
  pub flags : List Flag

-- What cobra makes of a declaration, below the commands of this path, and of the commands that were
-- added to another one.
pub record Cobra : Type 0 where
  pub info : List Text → Declared → Info
  -- Commands(), of the commands in the order in which they were added
  pub commands : List Command → Commands

abbrev flag : Text → Text → Text → Flag
flag name value_type usage = record {
  name = name;
  usage = usage;
  value_type = value_type;
  hidden = false;
  annotations = [];
}

abbrev read_only : Dict Text
read_only = (annotation_read_only, text "true") ∷ []

abbrev destructive : Dict Text
destructive = (annotation_destructive, text "true") ∷ []

unfoldable pub item_list_declared : Declared
item_list_declared = record {
  use_name = text "list";
  short = text "List widgets";
  annotations = read_only;
  runs = true;
  flags =
      flag (text "limit") (text "int") (text "Maximum widgets to return")
      ∷ flag (text "status") (text "string") (text "Filter by status: active or archived")
      ∷ flag (text "tag") (text "stringSlice") (text "Filter by tag (repeatable)")
      ∷ [];
}

unfoldable pub item_get_declared : Declared
item_get_declared = record {
  use_name = text "get [id]";
  short = text "Get a widget by id";
  annotations = read_only;
  runs = true;
  flags = [];
}

unfoldable pub item_search_declared : Declared
item_search_declared = record {
  use_name = text "search";
  short = text "Search widgets";
  annotations = read_only;
  runs = true;
  flags =
      record (flag (text "query") (text "string") (text "Search query (matches title)")) {
        annotations = (bash_comp_one_required_flag, text "true" ∷ []) ∷ [];
      }
      ∷ flag (text "limit") (text "int") (text "Maximum results")
      ∷ flag (text "min-score") (text "float64") (text "Minimum score")
      ∷ flag (text "fuzzy") (text "bool") (text "Enable fuzzy matching")
      ∷ flag (text "tag") (text "stringSlice") (text "Restrict to tags (repeatable)")
      ∷ flag (text "since") (text "duration") (text "Only items newer than this duration")
      ∷ flag (text "verbose") (text "count") (text "Increase verbosity (repeatable)")
      ∷ record (flag (text "internal-token") (text "string") (text "Internal use only")) {
        annotations = (annotation_flag_hidden, text "true" ∷ []) ∷ [];
      }
      ∷ record (flag (text "legacy") (text "bool") (text "Deprecated; do not use")) {
        hidden = true;
      }
      ∷ [];
}

unfoldable pub item_delete_declared : Declared
item_delete_declared = record {
  use_name = text "delete [id]";
  short = text "Delete a widget by id";
  annotations = [];
  runs = true;
  flags = flag (text "yes") (text "bool") (text "Confirm deletion") ∷ [];
}

unfoldable pub config_get_declared : Declared
config_get_declared = record {
  use_name = text "get [key]";
  short = text "Get configuration (all keys, or one)";
  annotations = read_only;
  runs = true;
  flags = [];
}

unfoldable pub config_set_declared : Declared
config_set_declared = record {
  use_name = text "set [key] [value]";
  short = text "Set a configuration value";
  annotations = destructive;
  runs = true;
  flags = [];
}

unfoldable pub config_reset_declared : Declared
config_reset_declared = record {
  use_name = text "reset";
  short = text "Reset configuration to defaults";
  annotations = destructive;
  runs = true;
  flags = flag (text "yes") (text "bool") (text "Confirm reset") ∷ [];
}

unfoldable pub admin_secret_declared : Declared
admin_secret_declared = record {
  use_name = text "secret";
  short = text "Reveal a secret";
  annotations = [];
  runs = true;
  flags = [];
}

-- A command that only has subcommands.
abbrev group : Text → Text → Dict Text → Declared
group name short annotations = record {
  use_name = name;
  short = short;
  annotations = annotations;
  runs = false;
  flags = [];
}

unfoldable pub item_declared : Declared
item_declared = group (text "item") (text "Manage widgets") []

unfoldable pub config_declared : Declared
config_declared = group (text "config") (text "Manage configuration") []

unfoldable pub admin_declared : Declared
admin_declared =
    group (text "admin") (text "Administrative commands (hidden from MCP)")
      ((annotation_skip, text "true") ∷ [])

module _ (cobra : Cobra) where
  abbrev pub leaf : Text → Declared → Command
  leaf parent d = node (cobra.info (text "widget" ∷ parent ∷ []) d) no_commands

  -- itemCommand
  unfoldable pub item_command : Command
  item_command = node (cobra.info (text "widget" ∷ []) item_declared) (
      cobra.commands (
        leaf (text "item") item_list_declared
        ∷ leaf (text "item") item_get_declared
        ∷ leaf (text "item") item_search_declared
        ∷ leaf (text "item") item_delete_declared
        ∷ []))

  -- configCommand
  unfoldable pub config_command : Command
  config_command = node (cobra.info (text "widget" ∷ []) config_declared) (
      cobra.commands (
        leaf (text "config") config_get_declared
        ∷ leaf (text "config") config_set_declared
        ∷ leaf (text "config") config_reset_declared
        ∷ []))

  -- adminCommand
  unfoldable pub admin_command : Command
  admin_command =
      node (cobra.info (text "widget" ∷ []) admin_declared)
        (cobra.commands (leaf (text "admin") admin_secret_declared ∷ []))

  -- What main puts below the root, with the value of WIDGET_EXPOSE, and the command mcp.
  unfoldable pub root_commands : Text → Command → Commands
  root_commands widget_expose mcp =
      let exposed = not (is_empty widget_expose) in
      cobra.commands (
        (if exposed then expose item_command else item_command)
        ∷ (if exposed then expose config_command else config_command)
        ∷ admin_command
        ∷ mcp
        ∷ [])
