-- ===== src/Bridge/GroupHelp/Laws.antt =====
-- Which subcommands the help of a group lists.
use lib_agent_mcp.Prelude.{
  ℕ, ◌+◌, ◌≡◌, ◌↔◌, inl, inr, true, false, Bool-cases, List, [], ◌∷◌, ◌++◌, In, first, next,
  In-append, In-append_left, In-append_right, In-none, In-if, if◌then◌else◌,
}
use lib_agent_mcp.Bridge.Command.{
  Info, Command, Commands, node, no_commands, more, excluded, any_command, is_runnable,
}
use lib_agent_mcp.Bridge.Command.Laws.{Reaches, here, below, later, any_command_iff}
use lib_agent_mcp.Bridge.GroupHelp.{Shown, shown}

-- That the command is listed, at some depth.
pub data Lists (c : Command) (ss : List Shown) : Type 0 where
  listed : (n : ℕ) → In (record { depth = n; command = c }) ss → Lists c ss

Lists-later :
    {c : Command} (before : List Shown) {ss : List Shown} → Lists c ss → Lists c (before ++ ss)
Lists-later before (listed n h) = listed n (In-append_right before h)

shown_complete :
    (n : ℕ) {cs : Commands} {c : Command}
    → Reaches cs c
    → is_runnable c ≡ true
    → Lists c (shown n cs)
unfolding shown
shown_complete n (here visible) runs = rw (visible) (listed n first)
shown_complete n {cs = more (node i cs) rest} {c} (below visible r) runs =
    elim (shown_complete (n + 1) r runs) [
      | listed m h ↦
          rw (visible, (any_command_iff is_runnable cs).1 (c, r, runs))
            (listed m (next (In-append_left (shown n rest) h)))
    ]
shown_complete n {c} (later {d = node i cs} {rest = rest} r) runs = elim (Bool-cases (excluded i)) [
  | inl out ↦ rw (out) (shown_complete n r runs)
  | inr visible ↦ rw (visible) (
      Lists-later
        (record { depth = n; command = node i cs }
          ∷ (if any_command is_runnable cs then shown (n + 1) cs else []))
        (shown_complete n r runs))
]

reached_in :
    {n : ℕ} {i : Info} {cs rest : Commands} {s : Shown} (deep after : List Shown)
    → excluded i ≡ false
    → (In s deep → Reaches cs s.command)
    → (In s after → Reaches rest s.command)
    → In s (record { depth = n; command = node i cs } ∷ (deep ++ after))
    → Reaches (more (node i cs) rest) s.command
reached_in deep after visible in_deep in_after first = here visible
reached_in deep after visible in_deep in_after (next h) = elim (In-append deep after h) [
  | inl d ↦ below visible (in_deep d)
  | inr l ↦ later (in_after l)
]

shown_sound : (n : ℕ) (cs : Commands) {s : Shown} → In s (shown n cs) → Reaches cs s.command
unfolding shown
shown_sound n no_commands h = absurd (In-none h)
shown_sound n (more (node i cs) rest) {s} h = elim (Bool-cases (excluded i)) [
  | inl out ↦ later (shown_sound n rest (rw (out) at h))
  | inr visible ↦
      reached_in (if any_command is_runnable cs then shown (n + 1) cs else []) (shown n rest)
        visible
        (λ d. elim ((In-if (any_command is_runnable cs)).0 d) [
          | inl (found, k) ↦ shown_sound (n + 1) cs k
          | inr (none_found, k) ↦ absurd (In-none k)
        ])
        (λ l. shown_sound n rest l) (rw (visible) at h)
]

Lists-Reaches : (n : ℕ) (cs : Commands) {c : Command} → Lists c (shown n cs) → Reaches cs c
Lists-Reaches n cs (listed m h) = shown_sound n cs h

-- The help of a group lists a runnable command exactly if it is reached from the group without
-- passing through an excluded command and is not excluded itself.
pub shown_iff :
    (n : ℕ) (cs : Commands) (c : Command)
    → is_runnable c ≡ true
    → Lists c (shown n cs) ↔ Reaches cs c
shown_iff n cs c runs = (Lists-Reaches n cs, λ r. shown_complete n r runs)
