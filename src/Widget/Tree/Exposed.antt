-- ===== src/Widget/Tree/Exposed.antt =====
-- The tools of the example program, one for each exposed group, and which of the two it has.
use lib_agent_mcp.Prelude.{
  ℕ, any, arith, ◌≡◌, ◌∙◌, refl, true, false, List, [], ◌∷◌, ◌++◌, if◌then◌else◌,
}
use lib_agent_mcp.Prelude.Text.{Text, text, text_eq, is_empty}
use lib_agent_mcp.Bridge.Command.{
  Info, Command, Commands, skip_commands, node, no_commands, more, info, subs, excluded,
  is_annotated, any_command, any_exposed, is_exposed, is_runnable, has_runnable_sub, expose,
  set_annotation, annotation_expose,
}
use lib_agent_mcp.Bridge.Schema.{Tool, tool_for_group, exposed_tools, build_tools}
use lib_agent_mcp.Widget.Tree.{
  Declared, Cobra, item_delete_declared, config_get_declared, item_declared, config_declared,
  admin_declared, leaf, item_command, config_command, admin_command, root_commands,
}
use lib_agent_mcp.Widget.Tree.Order.{
  item_command_sorted, config_command_sorted, root_commands_exposed,
}
use lib_agent_mcp.Widget.Tree.Declarations.{
  IsCobra, left_out, annotated, excluded_lem, all_left_out, all_run, exposed_annotations,
  all_exposed,
}
use lib_agent_mcp.Widget.Tree.Laws.{seven_tools, two_tools, legacy-root_commands}
use lib_agent_mcp.Widget.Tree.Unexposed.{exposes, exposes-excluded, exposes-root_commands}

module _ (cobra : Cobra) (law : IsCobra cobra) where
  -- A group whose first subcommand does something.
  runnable-leaf :
      (parent : Text) (d : Declared) (rest : Commands)
      → left_out d ≡ false
      → d.runs ≡ true
      → any_command is_runnable (more (leaf cobra parent d) rest) ≡ true
  unfolding any_command
  runnable-leaf parent d rest e r =
      let path = text "widget" ∷ parent ∷ [] in
      rw (excluded_lem cobra law path d, e, law.runnable path d, r) refl

  -- What the bridge reads of an exposed group.
  exposed_group :
      (d : Declared) (cs : Commands)
      → left_out (record d { annotations = exposed_annotations d }) ≡ false
      → annotated (exposed_annotations d) annotation_expose ≡ true
      → let c = expose (node (cobra.info (text "widget" ∷ []) d) cs) in
        (excluded (info c) ≡ false) × (is_exposed c ≡ true) × (subs c ≡ cs)
  unfolding expose set_annotation excluded is_exposed is_annotated left_out annotated
      exposed_annotations
  exposed_group d cs e a =
      let path = text "widget" ∷ [] in
      (
        rw (law.hidden path d, law.name path d, law.annotations path d) e,
        rw (law.annotations path d) a,
        refl,
      )

  has_runnable_sub-of :
      (c : Command) (cs : Commands)
      → subs c ≡ cs
      → any_command is_runnable cs ≡ true
      → has_runnable_sub c ≡ true
  unfolding has_runnable_sub
  has_runnable_sub-of c cs e r = rw e r

  exposed_item :
      (excluded (info (expose (item_command cobra))) ≡ false)
      × (is_exposed (expose (item_command cobra)) ≡ true)
      × (has_runnable_sub (expose (item_command cobra)) ≡ true)
  exposed_item =
      let (shown, marked, below) = exposed_group item_declared _ all_exposed.2 all_exposed.0 in
      rw (item_command_sorted cobra law) (
        shown,
        marked,
        has_runnable_sub-of _ _ below
            (runnable-leaf (text "item") item_delete_declared _ all_left_out.6 all_run.5),
      )

  exposed_config :
      (excluded (info (expose (config_command cobra))) ≡ false)
      × (is_exposed (expose (config_command cobra)) ≡ true)
      × (has_runnable_sub (expose (config_command cobra)) ≡ true)
  exposed_config =
      let (shown, marked, below) = exposed_group config_declared _ all_exposed.3 all_exposed.1 in
      rw (config_command_sorted cobra law) (
        shown,
        marked,
        has_runnable_sub-of _ _ below
            (runnable-leaf (text "config") config_get_declared _ all_left_out.7 all_run.6),
      )

exposes-here :
    (c : Command) (rest : Commands)
    → excluded (info c) ≡ false
    → is_exposed c ≡ true
    → exposes (more c rest) ≡ true
unfolding any_command
exposes-here (node i cs) rest e x = rw (e, x) refl

module _ (name_separator : Text) (hidden_flags : List Text) where
  abbrev exposed : Commands → List Tool
  exposed = exposed_tools name_separator hidden_flags

  exposed-here :
      (c : Command) (rest : Commands)
      → excluded (info c) ≡ false
      → is_exposed c ≡ true
      → has_runnable_sub c ≡ true
      → exposed (more c rest) ≡ tool_for_group name_separator hidden_flags c ∷ exposed rest
  unfolding exposed_tools
  exposed-here (node i cs) rest e x r = rw (e, x, r) refl

  exposed-excluded :
      (i : Info) (cs rest : Commands)
      → excluded i ≡ true
      → exposed (more (node i cs) rest) ≡ exposed rest
  unfolding exposed_tools
  exposed-excluded i cs rest e = rw e refl

  exposed-nil : exposed no_commands ≡ []
  unfolding exposed_tools
  exposed-nil = refl

  exposed-root_commands :
      (cobra : Cobra) (law : IsCobra cobra) (c : ℕ) (s : Text) (mcp : Command)
      → excluded (info mcp) ≡ true
      → (info mcp).name ≡ text "mcp"
      → (exposed (root_commands cobra (c ∷ s) mcp) ≡ two_tools cobra name_separator hidden_flags)
        × (exposes (root_commands cobra (c ∷ s) mcp) ≡ true)
  unfolding admin_command
  exposed-root_commands cobra law c s (node i cs) e m =
      let (shown, marked, below) = exposed_item cobra law in
      let (shown', marked', below') = exposed_config cobra law in
      let admin = cobra.info (text "widget" ∷ []) admin_declared in
      let admin_excluded =
        excluded_lem cobra law (text "widget" ∷ []) admin_declared ∙ all_left_out.2 in
      (
        rw
            (
              root_commands_exposed cobra law c s (node i cs) m,
              exposed-excluded admin _ _ admin_excluded,
              exposed-here (expose (config_command cobra)) _ shown' marked' below',
              exposed-here (expose (item_command cobra)) _ shown marked below,
              exposed-excluded i _ _ e,
              exposed-nil,
            )
            refl,
        rw
            (
              root_commands_exposed cobra law c s (node i cs) m,
              exposes-excluded cobra law admin _ _ admin_excluded,
            )
            (exposes-here (expose (config_command cobra)) _ shown' marked'),
      )

  mcp_excluded : (i : Info) → i.name ≡ text "mcp" → excluded i ≡ true
  unfolding excluded skip_commands text text_eq
  mcp_excluded i m =
      let named : any (text_eq i.name) skip_commands ≡ true = rw (m) refl in ground (arith, named)

  -- Over a cobra that behaves as documented, which sorts commands by name, and with a command of
  -- the name mcp: the tools of the example program are one for each of its seven commands, those of
  -- `config` and then those of `item`, by name, without `admin secret`, if WIDGET_EXPOSE is empty,
  -- and one for the group `config` and one for the group `item` if it is not, with the native tools
  -- behind them.
  pub build_tools-root_commands :
      (cobra : Cobra)
      → IsCobra cobra
      → (widget_expose : Text) (root : Info) (mcp : Command) (native : List Tool)
      → (info mcp).name ≡ text "mcp"
      → build_tools name_separator hidden_flags
          (node root (root_commands cobra widget_expose mcp))
          native
        ≡ (if is_empty widget_expose
            then seven_tools cobra name_separator hidden_flags
            else two_tools cobra name_separator hidden_flags)
          ++ native
  unfolding build_tools any_exposed is_empty
  build_tools-root_commands cobra law [] root mcp native m =
      let e = mcp_excluded (info mcp) m in
      rw
        (
          exposes-root_commands cobra law mcp e m,
          legacy-root_commands cobra law name_separator hidden_flags mcp e m,
        )
        refl
  build_tools-root_commands cobra law (c ∷ s) root mcp native m =
      let (tools, some_exposed) =
        exposed-root_commands cobra law c s mcp (mcp_excluded (info mcp) m) m in
      rw (some_exposed, tools) refl
