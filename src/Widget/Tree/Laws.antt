-- ===== src/Widget/Tree/Laws.antt =====
-- The tools of the example program, one for each command.
use lib_agent_mcp.Prelude.{◌≡◌, ◌∙◌, refl, true, false, List, [], ◌∷◌, ◌++◌}
use lib_agent_mcp.Prelude.Text.{Text, text}
use lib_agent_mcp.Bridge.Command.{
  Info, Command, info, Commands, node, no_commands, more, excluded, expose,
}
use lib_agent_mcp.Bridge.Schema.{Tool, tool_for, tool_for_group, legacy_tools}
use lib_agent_mcp.Widget.Tree.{
  Declared, Cobra, item_list_declared, item_get_declared, item_search_declared,
  item_delete_declared, config_get_declared, config_set_declared, config_reset_declared,
  item_declared, config_declared, admin_declared, leaf, item_command, config_command, admin_command,
  root_commands,
}
use lib_agent_mcp.Widget.Tree.Order.{
  item_command_sorted, config_command_sorted, root_commands_sorted,
}
use lib_agent_mcp.Widget.Tree.Declarations.{IsCobra, left_out, excluded_lem, all_left_out, all_run}

module _ (cobra : Cobra) (name_separator : Text) (hidden_flags : List Text) where
  abbrev tool_of : Text → Declared → Tool
  tool_of parent d = tool_for name_separator hidden_flags (leaf cobra parent d)

  -- One tool for each command that does something, without `admin secret`.
  abbrev pub seven_tools : List Tool
  seven_tools =
      tool_of (text "config") config_get_declared
      ∷ tool_of (text "config") config_reset_declared
      ∷ tool_of (text "config") config_set_declared
      ∷ tool_of (text "item") item_delete_declared
      ∷ tool_of (text "item") item_get_declared
      ∷ tool_of (text "item") item_list_declared
      ∷ tool_of (text "item") item_search_declared
      ∷ []

  abbrev pub two_tools : List Tool
  two_tools =
      tool_for_group name_separator hidden_flags (expose (config_command cobra))
      ∷ tool_for_group name_separator hidden_flags (expose (item_command cobra))
      ∷ []

module _ (cobra : Cobra) (law : IsCobra cobra) (name_separator : Text)
    (hidden_flags : List Text) where
  abbrev legacy : Commands → List Tool
  legacy = legacy_tools name_separator hidden_flags

  legacy-leaf :
      (parent : Text) (d : Declared) (rest : Commands)
      → left_out d ≡ false
      → d.runs ≡ true
      → legacy (more (leaf cobra parent d) rest)
        ≡ tool_of cobra name_separator hidden_flags parent d ∷ legacy rest
  unfolding legacy_tools
  legacy-leaf parent d rest e r =
      let path = text "widget" ∷ parent ∷ [] in
      rw (excluded_lem cobra law path d, e, law.runnable path d, r) refl

  legacy-group :
      (d : Declared) (cs rest : Commands)
      → left_out d ≡ false
      → d.runs ≡ false
      → legacy (more (node (cobra.info (text "widget" ∷ []) d) cs) rest) ≡ legacy cs ++ legacy rest
  unfolding legacy_tools
  legacy-group d cs rest e r =
      let path = text "widget" ∷ [] in
      rw (excluded_lem cobra law path d, e, law.runnable path d, r) refl

  legacy-excluded :
      (i : Info) (cs rest : Commands)
      → excluded i ≡ true
      → legacy (more (node i cs) rest) ≡ legacy rest
  unfolding legacy_tools
  legacy-excluded i cs rest e = rw e refl

  legacy-nil : legacy no_commands ≡ []
  unfolding legacy_tools
  legacy-nil = refl

  pub legacy-root_commands :
      (mcp : Command)
      → excluded (info mcp) ≡ true
      → (info mcp).name ≡ text "mcp"
      → legacy (root_commands cobra [] mcp) ≡ seven_tools cobra name_separator hidden_flags
  unfolding admin_command
  legacy-root_commands (node i cs) e m =
      rw
        (
          root_commands_sorted cobra law (node i cs) m,
          item_command_sorted cobra law,
          config_command_sorted cobra law,
          legacy-excluded (cobra.info (text "widget" ∷ []) admin_declared) _ _
              (excluded_lem cobra law (text "widget" ∷ []) admin_declared ∙ all_left_out.2),
          legacy-group config_declared _ _ all_left_out.1 all_run.1,
          legacy-group item_declared _ _ all_left_out.0 all_run.0,
          legacy-excluded i _ _ e,
          legacy-leaf (text "config") config_get_declared _ all_left_out.7 all_run.6,
          legacy-leaf (text "config") config_reset_declared _ all_left_out.9 all_run.8,
          legacy-leaf (text "config") config_set_declared _ all_left_out.8 all_run.7,
          legacy-leaf (text "item") item_delete_declared _ all_left_out.6 all_run.5,
          legacy-leaf (text "item") item_get_declared _ all_left_out.4 all_run.3,
          legacy-leaf (text "item") item_list_declared _ all_left_out.3 all_run.2,
          legacy-leaf (text "item") item_search_declared _ all_left_out.5 all_run.4,
          legacy-nil,
        )
        refl
