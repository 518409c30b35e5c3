-- ===== src/Bridge/Command.antt =====
-- commandtree.go and annotations.go: the command tree as cobra gives it, what is kept out of it, and
-- the predicates on it.
pub mod Laws
use lib_agent_mcp.Prelude.{
  ℕ, Bool, true, false, not, ◌&&◌, ◌||◌, Option, none, some, List, [], ◌∷◌, any, drop,
  if◌then◌else◌,
}
use lib_agent_mcp.Prelude.Text.{Text, text, text_eq, fields}
use lib_agent_mcp.Prelude.Dict.{Dict, lookup, insert}

unfoldable pub annotation_skip : Text
annotation_skip = text "mcp.skip"

unfoldable pub annotation_expose : Text
annotation_expose = text "mcp.expose"

unfoldable pub annotation_read_only : Text
annotation_read_only = text "mcp.readonly"

unfoldable pub annotation_destructive : Text
annotation_destructive = text "mcp.destructive"

-- pflag.Flag, as far as the code reads it.
pub record Flag : Type 0 where
  pub name : Text
  pub usage : Text
  pub value_type : Text
  pub hidden : Bool
  pub annotations : Dict (List Text)

-- cobra.Command without its subcommands, as far as the code reads it.
pub record Info : Type 0 where
  pub name : Text
  pub use_line : Text
  pub short : Text
  pub long : Text
  pub command_path : Text
  pub hidden : Bool
  pub runnable : Bool
  pub annotations : Dict Text
  -- Flags(), LocalFlags() and InheritedFlags()
  pub flags : List Flag
  pub local_flags : List Flag
  pub inherited_flags : List Flag

mutual
  pub data Command : Type 0 where
    node : Info → Commands → Command

  pub data Commands : Type 0 where
    no_commands : Commands
    more : Command → Commands → Commands

abbrev pub info : Command → Info
info (node i subs) = i

-- cmd.Commands()
abbrev pub subs : Command → Commands
subs (node i cs) = cs

-- `cmd.Annotations[key] == "true"`
unfoldable pub is_annotated : Info → Text → Bool
is_annotated i key = elim (lookup key i.annotations) [
  | none ↦ false
  | some v ↦ text_eq v (text "true")
]

unfoldable pub skip_commands : List Text
skip_commands =
    text "help" ∷ text "completion" ∷ text "__complete" ∷ text "__completeNoDesc" ∷ text "mcp" ∷ []

unfoldable pub excluded : Info → Bool
excluded i = i.hidden || (any (text_eq i.name) skip_commands || is_annotated i annotation_skip)

-- anyCommand, on the subcommands: whether the test holds of a command that is reached through
-- commands that are not excluded.
unfoldable pub any_command : (Command → Bool) → Commands → Bool
any_command pred no_commands = false
any_command pred (more (node i cs) rest) =
    let deeper = any_command pred cs in
    let later = any_command pred rest in
    if excluded i then later else pred (node i cs) || (deeper || later)

-- visibleSubs
unfoldable pub visible_subs : Commands → List Command
visible_subs no_commands = []
visible_subs (more (node i cs) rest) =
    let later = visible_subs rest in if excluded i then later else node i cs ∷ later

unfoldable pub sub_names : Command → List Text
sub_names c = names_of (visible_subs (subs c))
  where
    names_of : List Command → List Text
    names_of [] = []
    names_of (c ∷ cs) = (info c).name ∷ names_of cs

unfoldable pub is_exposed : Command → Bool
is_exposed c = is_annotated (info c) annotation_expose

-- anyExposed
unfoldable pub any_exposed : Command → Bool
any_exposed root = any_command is_exposed (subs root)

-- `cmd.Flags().Lookup(name) != nil`
unfoldable pub has_flag : Text → List Flag → Bool
has_flag name [] = false
has_flag name (f ∷ fs) = text_eq f.name name || has_flag name fs

unfoldable pub command_confirms : Command → Bool
command_confirms c = has_flag (text "yes") (info c).flags

unfoldable pub command_destructive : Command → Bool
command_destructive c = command_confirms c || is_annotated (info c) annotation_destructive

abbrev pub is_runnable : Command → Bool
is_runnable c = (info c).runnable

unfoldable pub has_runnable_sub : Command → Bool
has_runnable_sub c = any_command is_runnable (subs c)

unfoldable pub command_path_parts : Command → List Text
command_path_parts c = drop 1 (fields (info c).command_path)

unfoldable pub group_has_destructive : Command → Bool
group_has_destructive c = any_command command_destructive (subs c)

-- The hints of leafAnnotations; both false where it gives nil.
pub record Hints : Type 0 where
  pub read_only : Bool
  pub destructive : Bool

unfoldable pub leaf_annotations : Command → Hints
leaf_annotations c = record {
  read_only = is_annotated (info c) annotation_read_only;
  destructive = command_destructive c;
}

-- setAnnotation
unfoldable pub set_annotation : Text → Text → Command → Command
set_annotation key val (node i cs) =
    node (record i { annotations = insert key val i.annotations }) cs

-- Expose, Skip, Destructive and ReadOnly
unfoldable pub expose : Command → Command
expose = set_annotation annotation_expose (text "true")

unfoldable pub skip : Command → Command
skip = set_annotation annotation_skip (text "true")

unfoldable pub set_destructive : Command → Command
set_destructive = set_annotation annotation_destructive (text "true")

unfoldable pub set_read_only : Command → Command
set_read_only = set_annotation annotation_read_only (text "true")
