-- ===== src/Widget/Tree/Declarations.antt =====
-- What the bridge reads of the declarations: which are left out, do something, or are exposed.
use lib_agent_mcp.Prelude.{
  ◌≡◌, refl, Bool, true, false, not, ◌&&◌, ◌||◌, Option, none, some, List, [], ◌∷◌, any,
  if◌then◌else◌,
}
use lib_agent_mcp.Prelude.Text.{Text, text, text_eq, text_le, cut}
use lib_agent_mcp.Prelude.Dict.{Dict, lookup, insert, erase}
use lib_agent_mcp.Bridge.Command.{
  Command, Commands, no_commands, more, info, excluded, is_annotated, skip_commands, has_flag,
  annotation_skip, annotation_expose, annotation_read_only, annotation_destructive,
}
use lib_agent_mcp.Widget.Tree.{
  Declared, Cobra, item_list_declared, item_get_declared, item_search_declared,
  item_delete_declared, config_get_declared, config_set_declared, config_reset_declared,
  item_declared, config_declared, admin_declared,
}

abbrev pub first_of : Text → Option (Text × Text) → Text
first_of all none = all
first_of all (some (word, _)) = word

-- Whether the first text is in front of the second.
unfoldable pub in_front : Text → Text → Bool
in_front s t = text_le s t && not (text_eq s t)

unfoldable pub insert_command : Command → Commands → Commands
insert_command c no_commands = more c no_commands
insert_command c (more d ds) =
    let later = insert_command c ds in
    if in_front (info d).name (info c).name then more d later else more c (more d ds)

unfoldable pub by_name : List Command → Commands
by_name [] = no_commands
by_name (c ∷ cs) = insert_command c (by_name cs)

-- Whether each command's name is in front of the next one's, so that all differ.
unfoldable pub are_increasing : Commands → Bool
are_increasing no_commands = true
are_increasing (more c no_commands) = true
are_increasing (more c (more d ds)) =
    let later = are_increasing (more d ds) in in_front (info c).name (info d).name && later

-- The documented behaviour of cobra: Commands() gives the commands that were added sorted by name,
-- where their names differ; the name of a command is the first word of its Use; a command is
-- runnable if it has a RunE and hidden only if that is declared; its annotations are those declared,
-- and its flags those declared, with others that are not called yes.
pub record IsCobra (cobra : Cobra) : Type 0 where
  pub name :
      (path : List Text) (d : Declared)
      → (cobra.info path d).name ≡ first_of d.use_name (cut d.use_name (b' '))
  pub annotations :
      (path : List Text) (d : Declared) → (cobra.info path d).annotations ≡ d.annotations
  pub hidden : (path : List Text) (d : Declared) → (cobra.info path d).hidden ≡ false
  pub runnable : (path : List Text) (d : Declared) → (cobra.info path d).runnable ≡ d.runs
  pub sorted :
      (cs : List Command) → are_increasing (by_name cs) ≡ true → cobra.commands cs ≡ by_name cs
  pub yes_flag :
      (path : List Text) (d : Declared)
      → has_flag (text "yes") (cobra.info path d).flags ≡ has_flag (text "yes") d.flags

unfoldable pub annotated : Dict Text → Text → Bool
annotated m key = elim (lookup key m) [ none ↦ false | some v ↦ text_eq v (text "true") ]

unfoldable pub left_out : Declared → Bool
left_out d =
    any (text_eq (first_of d.use_name (cut d.use_name (b' ')))) skip_commands
    || annotated d.annotations annotation_skip

module _ (cobra : Cobra) (law : IsCobra cobra) where
  pub excluded_lem : (path : List Text) (d : Declared) → excluded (cobra.info path d) ≡ left_out d
  unfolding excluded is_annotated left_out annotated
  excluded_lem path d = rw (law.hidden path d, law.name path d, law.annotations path d) refl

-- Which of the declared commands are left out.
pub all_left_out :
    (left_out item_declared ≡ false)
    × (left_out config_declared ≡ false)
    × (left_out admin_declared ≡ true)
    × (left_out item_list_declared ≡ false)
    × (left_out item_get_declared ≡ false)
    × (left_out item_search_declared ≡ false)
    × (left_out item_delete_declared ≡ false)
    × (left_out config_get_declared ≡ false)
    × (left_out config_set_declared ≡ false)
    × (left_out config_reset_declared ≡ false)
unfolding left_out annotated item_declared config_declared admin_declared item_list_declared
    item_get_declared item_search_declared item_delete_declared config_get_declared
    config_set_declared config_reset_declared cut text text_eq lookup skip_commands annotation_skip
    annotation_read_only annotation_destructive
all_left_out = (refl, refl, refl, refl, refl, refl, refl, refl, refl, refl)

pub all_run :
    (item_declared.runs ≡ false)
    × (config_declared.runs ≡ false)
    × (item_list_declared.runs ≡ true)
    × (item_get_declared.runs ≡ true)
    × (item_search_declared.runs ≡ true)
    × (item_delete_declared.runs ≡ true)
    × (config_get_declared.runs ≡ true)
    × (config_set_declared.runs ≡ true)
    × (config_reset_declared.runs ≡ true)
unfolding item_declared config_declared item_list_declared item_get_declared item_search_declared
    item_delete_declared config_get_declared config_set_declared config_reset_declared
all_run = (refl, refl, refl, refl, refl, refl, refl, refl, refl)

-- Exposing a declared command is a further annotation.
unfoldable pub exposed_annotations : Declared → Dict Text
exposed_annotations d = insert annotation_expose (text "true") d.annotations

pub all_exposed :
    (annotated (exposed_annotations item_declared) annotation_expose ≡ true)
    × (annotated (exposed_annotations config_declared) annotation_expose ≡ true)
    × (left_out (record item_declared { annotations = exposed_annotations item_declared }) ≡ false)
    × (left_out (record config_declared { annotations = exposed_annotations config_declared })
        ≡ false)
unfolding left_out annotated exposed_annotations item_declared config_declared lookup insert erase
    cut text text_eq skip_commands annotation_skip annotation_expose
all_exposed = (refl, refl, refl, refl)

pub none_exposed :
    (annotated item_declared.annotations annotation_expose ≡ false)
    × (annotated config_declared.annotations annotation_expose ≡ false)
    × (annotated item_list_declared.annotations annotation_expose ≡ false)
    × (annotated item_get_declared.annotations annotation_expose ≡ false)
    × (annotated item_search_declared.annotations annotation_expose ≡ false)
    × (annotated item_delete_declared.annotations annotation_expose ≡ false)
    × (annotated config_get_declared.annotations annotation_expose ≡ false)
    × (annotated config_set_declared.annotations annotation_expose ≡ false)
    × (annotated config_reset_declared.annotations annotation_expose ≡ false)
unfolding annotated item_declared config_declared item_list_declared item_get_declared
    item_search_declared item_delete_declared config_get_declared config_set_declared
    config_reset_declared text text_eq lookup annotation_expose annotation_read_only
    annotation_destructive
none_exposed = (refl, refl, refl, refl, refl, refl, refl, refl, refl)
