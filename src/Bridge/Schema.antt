-- ===== src/Bridge/Schema.antt =====
-- schema.go and flagschema.go: the tools that the command tree gives, and their input schemas.
pub mod Laws
pub mod Input
pub mod WellFormed
use lib_agent_mcp.Prelude.{
  ℕ, Bool, true, false, not, ◌&&◌, ◌||◌, Option, none, some, List, [], ◌∷◌, ◌++◌, any,
  if◌then◌else◌,
}
use lib_agent_mcp.Prelude.Text.{
  Text, text, text_eq, is_empty, has_prefix, has_suffix, join, trim_space, cut,
}
use lib_agent_mcp.Prelude.Dict.{Dict, lookup}
use lib_agent_mcp.Bridge.Command.{
  Flag, Info, Command, Commands, node, no_commands, more, info, subs, excluded, is_exposed,
  any_exposed, is_runnable, has_runnable_sub, command_path_parts, sub_names, group_has_destructive,
  Hints, leaf_annotations,
}

unfoldable pub annotation_flag_hidden : Text
annotation_flag_hidden = text "mcp.hidden"

-- cobra.BashCompOneRequiredFlag
unfoldable pub bash_comp_one_required_flag : Text
bash_comp_one_required_flag = text "cobra_annotation_bash_completion_one_required_flag"

-- The types of JSON Schema that flags have.
pub data JsonType : Type 0 where
  boolean integer number string : JsonType
  array : JsonType → JsonType

unfoldable pub slice_item_type : Text → JsonType
slice_item_type t =
    if has_prefix t (text "bool")
    then boolean
    else if has_prefix t (text "int") || has_prefix t (text "uint")
    then integer
    else if has_prefix t (text "float")
    then number
    else string

unfoldable pub integer_types : List Text
integer_types =
    text "int"
    ∷ text "int8"
    ∷ text "int16"
    ∷ text "int32"
    ∷ text "int64"
    ∷ text "uint"
    ∷ text "uint8"
    ∷ text "uint16"
    ∷ text "uint32"
    ∷ text "uint64"
    ∷ text "count"
    ∷ []

unfoldable pub type_schema : Text → JsonType
type_schema t =
    if text_eq t (text "bool")
    then boolean
    else if any (text_eq t) integer_types
    then integer
    else if text_eq t (text "float32") || text_eq t (text "float64")
    then number
    else if has_suffix t (text "Slice") || has_suffix t (text "Array")
    then array (slice_item_type t)
    else string

pub record Property : Type 0 where
  pub name : Text
  pub description : Text
  pub json_type : JsonType
  pub required : Bool

-- flagRequired
unfoldable pub flag_required : Flag → Bool
flag_required f = elim (lookup bash_comp_one_required_flag f.annotations) [
  | none ↦ false
  | some _ ↦ true
]

-- flagSchema, with the flag's name and whether it is required
unfoldable pub flag_schema : Flag → Property
flag_schema f = record {
  name = f.name;
  description = f.usage;
  json_type = type_schema f.value_type;
  required = flag_required f;
}

pub data InputSchema : Type 0 where
  leaf_input : (positional : Text) (options : List Property) → InputSchema
  group_input : InputSchema
  file_input : InputSchema

-- Tool; a native one has no command.
pub record Tool : Type 0 where
  pub name : Text
  pub description : Text
  pub input : InputSchema
  pub hints : Hints
  pub path : List Text
  pub group : Bool
  pub command : Option Command

-- positionalDescription
unfoldable pub positional_description : Info → Text
positional_description i = elim (cut (trim_space i.use_line) (b' ')) [
  | none ↦ text "Positional arguments"
  | some (_, rest) ↦ text "Positional arguments: " ++ trim_space rest
]

-- The options that the schema reads: WithNameSeparator and WithHiddenFlags.
module _ (name_separator : Text) (hidden_flags : List Text) where
  -- A nil list under the key counts as absent.
  abbrev pub is_marked : Option (List Text) → Bool
  is_marked none = false
  is_marked (some _) = true

  unfoldable pub flag_skipped : Flag → Bool
  flag_skipped f =
      text_eq f.name (text "yes")
      || (f.hidden
          || (any (text_eq f.name) hidden_flags
              || is_marked (lookup annotation_flag_hidden f.annotations)))

  -- visitFlags: the flags that are visited, given those that were seen.
  unfoldable pub visit_flags : List Text → List Flag → List Flag
  visit_flags seen [] = []
  visit_flags seen (f ∷ fs) =
      let skipped = visit_flags seen fs in
      let visited = visit_flags (f.name ∷ seen) fs in
      if flag_skipped f || any (text_eq f.name) seen then skipped else f ∷ visited

  unfoldable pub option_properties : List Flag → List Property
  option_properties [] = []
  option_properties (f ∷ fs) = flag_schema f ∷ option_properties fs

  unfoldable pub tool_for : Command → Tool
  tool_for c = record {
    name = join (command_path_parts c) name_separator;
    description = if is_empty (info c).long then (info c).short else (info c).long;
    input =
        leaf_input (positional_description (info c))
          (option_properties (visit_flags [] ((info c).local_flags ++ (info c).inherited_flags)));
    hints = leaf_annotations c;
    path = command_path_parts c;
    group = false;
    command = some c;
  }

  unfoldable pub group_description : Text → List Text → Text
  group_description short [] = short
  group_description short (n ∷ ns) = trim_space (
      short
      ++ (text " — subcommands: "
          ++ (join (n ∷ ns) (text ", ")
              ++ text
                  ". Call with args:[\"<subcommand>\", …]; use args:[\"help\"] for full usage and flags.")))

  unfoldable pub tool_for_group : Command → Tool
  tool_for_group c = record {
    name = join (command_path_parts c) name_separator;
    description = group_description (trim_space (info c).short) (sub_names c);
    input = group_input;
    hints = record { read_only = false; destructive = group_has_destructive c };
    path = command_path_parts c;
    group = true;
    command = some c;
  }

  -- The tools that buildLegacyTools makes of a command itself.
  abbrev pub leaf_tools : Command → List Tool
  leaf_tools c = if is_runnable c then tool_for c ∷ [] else []

  -- buildLegacyTools, its walk: one tool for each runnable command that is reached
  unfoldable pub legacy_tools : Commands → List Tool
  legacy_tools no_commands = []
  legacy_tools (more (node i cs) rest) =
      let below = legacy_tools cs in
      let after = legacy_tools rest in
      if excluded i then after else leaf_tools (node i cs) ++ (below ++ after)

  -- The tools that buildExposedTools makes of an exposed command.
  abbrev pub boundary_tools : Command → List Tool
  boundary_tools c = if has_runnable_sub c then tool_for_group c ∷ [] else leaf_tools c

  -- buildExposedTools, its walk: an exposed command is a boundary
  unfoldable pub exposed_tools : Commands → List Tool
  exposed_tools no_commands = []
  exposed_tools (more (node i cs) rest) =
      let below = exposed_tools cs in
      let after = exposed_tools rest in
      if excluded i
      then after
      else if is_exposed (node i cs)
      then boundary_tools (node i cs) ++ after
      else below ++ after

  -- buildTools, with the native tools of the server
  unfoldable pub build_tools : Command → List Tool → List Tool
  build_tools root native =
      if any_exposed root
      then exposed_tools (subs root) ++ native
      else legacy_tools (subs root) ++ native
