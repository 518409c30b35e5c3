-- ===== src/Bridge/GroupHelp.antt =====
-- grouphelp.go: the help that a group tool gives on its subcommands.
pub mod Laws
use lib_agent_mcp.Prelude.{ℕ, zero, suc, ◌+◌, Bool, List, [], ◌∷◌, ◌++◌, map, if◌then◌else◌}
use lib_agent_mcp.Prelude.Text.{Text, text, trim_space, join}
use lib_agent_mcp.Bridge.Command.{
  Flag, Info, Command, Commands, node, no_commands, more, info, subs, excluded, any_command,
  is_runnable, command_path_parts,
}
use lib_agent_mcp.Bridge.Schema.{flag_skipped, flag_required, visit_flags}

-- formatFlagLine
unfoldable pub format_flag_line : Flag → Bool → Text
format_flag_line f required =
    text "--"
    ++ (f.name
        ++ (text " <"
            ++ (f.value_type
                ++ (text ">  " ++ (f.usage ++ (if required then text " (required)" else []))))))

-- A subcommand that the help lists, and how deep it stands.
pub record Shown : Type 0 where
  pub depth : ℕ
  pub command : Command

-- The subcommands that `render` goes through, in order.
unfoldable pub shown : ℕ → Commands → List Shown
shown depth no_commands = []
shown depth (more (node i cs) rest) =
    let deeper = shown (depth + 1) cs in
    let later = shown depth rest in
    if excluded i
    then later
    else record { depth = depth; command = node i cs }
      ∷ ((if any_command is_runnable cs then deeper else []) ++ later)

-- strings.Repeat
unfoldable pub repeated : Text → ℕ → Text
repeated s zero = []
repeated s (suc n) = s ++ repeated s n

unfoldable pub flag_lines : Text → List Flag → Text
flag_lines indent [] = []
flag_lines indent (f ∷ fs) =
    indent
    ++ (text "    "
        ++ (format_flag_line f (flag_required f) ++ (text "\n" ++ flag_lines indent fs)))

abbrev pub common_line : Flag → Text
common_line f = text "  " ++ format_flag_line f Bool.false

-- The options that the help reads, as for the schema.
module _ (name_separator : Text) (hidden_flags : List Text) where
  -- visitLocalFlags and the visit of InheritedFlags: the flags that are not skipped.
  unfoldable pub unskipped : List Flag → List Flag
  unskipped [] = []
  unskipped (f ∷ fs) =
      let rest = unskipped fs in
      if flag_skipped name_separator hidden_flags f then rest else f ∷ rest

  unfoldable pub shown_text : Shown → Text
  shown_text s =
      let indent = repeated (text "  ") (s.depth + 1) in
      indent
      ++ (trim_space (info s.command).use_line
          ++ (text " — "
              ++ ((info s.command).short
                  ++ (text "\n"
                      ++ (if is_runnable s.command
                          then flag_lines indent (unskipped (info s.command).local_flags)
                          else [])))))

  unfoldable pub shown_texts : List Shown → Text
  shown_texts [] = []
  shown_texts (s ∷ ss) = shown_text s ++ shown_texts ss

  unfoldable pub common_text : List Flag → Text
  common_text [] = []
  common_text (f ∷ fs) =
      text "Common flags (apply to every subcommand):\n"
      ++ (join (map common_line (f ∷ fs)) (text "\n") ++ text "\n\n")

  -- groupHelp
  unfoldable pub group_help : Command → Text
  group_help group =
      join (command_path_parts group) (text " ")
      ++ (text " — "
          ++ ((info group).short
              ++ (text "\n\n"
                  ++ (common_text (unskipped (info group).inherited_flags)
                      ++ (text "Subcommands (pass as args, e.g. args:[\"get\",\"ENG-123\"]):\n"
                          ++ shown_texts (shown 0 (subs group)))))))
