-- ===== src/Widget/Tree/Order.antt =====
-- The order in which cobra gives the commands of the example program.
use lib_agent_mcp.Prelude.{ℕ, ◌≡◌, ◌∙◌, refl, true, [], ◌∷◌, List}
use lib_agent_mcp.Prelude.Text.{Text, text, text_eq, text_le, cut, is_empty}
use lib_agent_mcp.Bridge.Command.{
  Command, Commands, node, no_commands, more, info, expose, set_annotation,
}
use lib_agent_mcp.Widget.Tree.{
  Cobra, item_list_declared, item_get_declared, item_search_declared, item_delete_declared,
  config_get_declared, config_set_declared, config_reset_declared, item_declared, config_declared,
  admin_declared, leaf, item_command, config_command, admin_command, root_commands,
}
use lib_agent_mcp.Widget.Tree.Declarations.{
  IsCobra, in_front, insert_command, by_name, are_increasing,
}

module _ (cobra : Cobra) (law : IsCobra cobra) where
  -- Commands that were added in one order and have a sorted one.
  sorted_as :
      (cs : List Command) (ds : Commands)
      → by_name cs ≡ ds
      → are_increasing ds ≡ true
      → cobra.commands cs ≡ ds
  sorted_as cs ds e i = law.sorted cs (rw (e) i) ∙ e

  abbrev pub item_commands : Commands
  item_commands = more (leaf cobra (text "item") item_delete_declared) (
      more (leaf cobra (text "item") item_get_declared) (
        more (leaf cobra (text "item") item_list_declared)
          (more (leaf cobra (text "item") item_search_declared) no_commands)))

  abbrev pub config_commands : Commands
  config_commands = more (leaf cobra (text "config") config_get_declared) (
      more (leaf cobra (text "config") config_reset_declared)
        (more (leaf cobra (text "config") config_set_declared) no_commands))

  abbrev item_added : List Command
  item_added =
      leaf cobra (text "item") item_list_declared
      ∷ leaf cobra (text "item") item_get_declared
      ∷ leaf cobra (text "item") item_search_declared
      ∷ leaf cobra (text "item") item_delete_declared
      ∷ []

  item_order : (by_name item_added ≡ item_commands) × (are_increasing item_commands ≡ true)
  unfolding by_name insert_command are_increasing in_front item_list_declared item_get_declared
      item_search_declared item_delete_declared cut text text_eq text_le
  item_order =
      let path = text "widget" ∷ text "item" ∷ [] in
      rw
        (
          law.name path item_list_declared,
          law.name path item_get_declared,
          law.name path item_search_declared,
          law.name path item_delete_declared,
        )
        (refl, refl)

  pub item_command_sorted :
      item_command cobra ≡ node (cobra.info (text "widget" ∷ []) item_declared) item_commands
  unfolding item_command
  item_command_sorted = rw (sorted_as item_added item_commands item_order.0 item_order.1) refl

  abbrev config_added : List Command
  config_added =
      leaf cobra (text "config") config_get_declared
      ∷ leaf cobra (text "config") config_set_declared
      ∷ leaf cobra (text "config") config_reset_declared
      ∷ []

  config_order : (by_name config_added ≡ config_commands) × (are_increasing config_commands ≡ true)
  unfolding by_name insert_command are_increasing in_front config_get_declared config_set_declared
      config_reset_declared cut text text_eq text_le
  config_order =
      let path = text "widget" ∷ text "config" ∷ [] in
      rw
        (
          law.name path config_get_declared,
          law.name path config_set_declared,
          law.name path config_reset_declared,
        )
        (refl, refl)

  pub config_command_sorted :
      config_command cobra ≡ node (cobra.info (text "widget" ∷ []) config_declared) config_commands
  unfolding config_command
  config_command_sorted =
      rw (sorted_as config_added config_commands config_order.0 config_order.1) refl

  -- The four commands below the root, of which two may have been exposed.
  abbrev pub root_sorted : Command → Command → Command → Commands
  root_sorted item config mcp =
      more (admin_command cobra) (more config (more item (more mcp no_commands)))

  root_order :
      (item config admin mcp : Command)
      → (info item).name ≡ text "item"
      → (info config).name ≡ text "config"
      → (info admin).name ≡ text "admin"
      → (info mcp).name ≡ text "mcp"
      → (by_name (item ∷ config ∷ admin ∷ mcp ∷ [])
          ≡ more admin (more config (more item (more mcp no_commands))))
        × (are_increasing (more admin (more config (more item (more mcp no_commands)))) ≡ true)
  unfolding by_name insert_command are_increasing in_front text text_eq text_le
  root_order item config admin mcp i c a m = (simp (i, c, a, m), rw (i, c, a, m) refl)

  group_names :
      ((info (item_command cobra)).name ≡ text "item")
      × ((info (config_command cobra)).name ≡ text "config")
      × ((info (admin_command cobra)).name ≡ text "admin")
  unfolding item_command config_command admin_command item_declared config_declared admin_declared
      cut text
  group_names =
      let path = text "widget" ∷ [] in
      (law.name path item_declared, law.name path config_declared, law.name path admin_declared)

  expose-name : (c : Command) → (info (expose c)).name ≡ (info c).name
  unfolding expose set_annotation
  expose-name (node i cs) = refl

  pub root_commands_sorted :
      (mcp : Command)
      → (info mcp).name ≡ text "mcp"
      → root_commands cobra [] mcp ≡ root_sorted (item_command cobra) (config_command cobra) mcp
  unfolding root_commands is_empty
  root_commands_sorted mcp m =
      let (sorted, increasing) =
        root_order (item_command cobra) (config_command cobra) (admin_command cobra) mcp
          group_names.0 group_names.1 group_names.2 m in
      sorted_as _ _ sorted increasing

  pub root_commands_exposed :
      (c : ℕ) (s : Text) (mcp : Command)
      → (info mcp).name ≡ text "mcp"
      → root_commands cobra (c ∷ s) mcp
        ≡ root_sorted (expose (item_command cobra)) (expose (config_command cobra)) mcp
  unfolding root_commands is_empty
  root_commands_exposed c s mcp m =
      let (sorted, increasing) =
        root_order (expose (item_command cobra)) (expose (config_command cobra))
          (admin_command cobra) mcp (expose-name (item_command cobra) ∙ group_names.0)
          (expose-name (config_command cobra) ∙ group_names.1) group_names.2 m in
      sorted_as _ _ sorted increasing
