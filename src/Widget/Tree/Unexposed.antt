-- ===== src/Widget/Tree/Unexposed.antt =====
-- Without WIDGET_EXPOSE no command of the example program is exposed.
use lib_agent_mcp.Prelude.{◌≡◌, ◌∙◌, refl, Bool, true, false, ◌||◌, [], ◌∷◌}
use lib_agent_mcp.Prelude.Text.{Text, text}
use lib_agent_mcp.Bridge.Command.{
  Info, Command, info, Commands, node, no_commands, more, excluded, is_annotated, any_command,
  is_exposed, annotation_expose,
}
use lib_agent_mcp.Widget.Tree.{
  Declared, Cobra, item_list_declared, item_get_declared, item_search_declared,
  item_delete_declared, config_get_declared, config_set_declared, config_reset_declared,
  item_declared, config_declared, admin_declared, leaf, admin_command, root_commands,
}
use lib_agent_mcp.Widget.Tree.Order.{
  item_command_sorted, config_command_sorted, root_commands_sorted,
}
use lib_agent_mcp.Widget.Tree.Declarations.{
  IsCobra, left_out, annotated, excluded_lem, all_left_out, none_exposed,
}

-- Whether a command below is exposed.
abbrev pub exposes : Commands → Bool
exposes = any_command is_exposed

module _ (cobra : Cobra) (law : IsCobra cobra) where
  exposes-leaf :
      (parent : Text) (d : Declared) (rest : Commands)
      → left_out d ≡ false
      → annotated d.annotations annotation_expose ≡ false
      → exposes (more (leaf cobra parent d) rest) ≡ exposes rest
  unfolding any_command is_exposed is_annotated annotated
  exposes-leaf parent d rest e a =
      let path = text "widget" ∷ parent ∷ [] in
      rw (excluded_lem cobra law path d, e, law.annotations path d, a) refl

  exposes-group :
      (d : Declared) (cs rest : Commands)
      → left_out d ≡ false
      → annotated d.annotations annotation_expose ≡ false
      → exposes (more (node (cobra.info (text "widget" ∷ []) d) cs) rest)
        ≡ (exposes cs || exposes rest)
  unfolding any_command is_exposed is_annotated annotated
  exposes-group d cs rest e a =
      let path = text "widget" ∷ [] in
      rw (excluded_lem cobra law path d, e, law.annotations path d, a) refl

  pub exposes-excluded :
      (i : Info) (cs rest : Commands)
      → excluded i ≡ true
      → exposes (more (node i cs) rest) ≡ exposes rest
  unfolding any_command
  exposes-excluded i cs rest e = rw e refl

  exposes-nil : exposes no_commands ≡ false
  unfolding any_command
  exposes-nil = refl

  pub exposes-root_commands :
      (mcp : Command)
      → excluded (info mcp) ≡ true
      → (info mcp).name ≡ text "mcp"
      → exposes (root_commands cobra [] mcp) ≡ false
  unfolding admin_command
  exposes-root_commands (node i cs) e m =
      rw
        (
          root_commands_sorted cobra law (node i cs) m,
          item_command_sorted cobra law,
          config_command_sorted cobra law,
          exposes-excluded (cobra.info (text "widget" ∷ []) admin_declared) _ _
              (excluded_lem cobra law (text "widget" ∷ []) admin_declared ∙ all_left_out.2),
          exposes-group config_declared _ _ all_left_out.1 none_exposed.1,
          exposes-group item_declared _ _ all_left_out.0 none_exposed.0,
          exposes-excluded i _ _ e,
          exposes-leaf (text "config") config_get_declared _ all_left_out.7 none_exposed.6,
          exposes-leaf (text "config") config_reset_declared _ all_left_out.9 none_exposed.8,
          exposes-leaf (text "config") config_set_declared _ all_left_out.8 none_exposed.7,
          exposes-leaf (text "item") item_delete_declared _ all_left_out.6 none_exposed.5,
          exposes-leaf (text "item") item_get_declared _ all_left_out.4 none_exposed.3,
          exposes-leaf (text "item") item_list_declared _ all_left_out.3 none_exposed.2,
          exposes-leaf (text "item") item_search_declared _ all_left_out.5 none_exposed.4,
          exposes-nil,
        )
        refl
