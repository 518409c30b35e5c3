-- ===== src/Bridge/Schema/Laws.antt =====
-- Which commands become tools, and which flags become their options.
use lib_agent_mcp.Prelude.{
  ℕ, ◌+◌, ◌≡◌, ◌↔◌, ◌⊎◌, inl, inr, Bool, true, false, not, ◌&&◌, ◌||◌, List, [], ◌∷◌, arith, any,
  Bool-cases, if◌then◌else◌, In, first, In-append, In-if, In-single, In-none, In-append_left,
  In-append_right,
}
use lib_agent_mcp.Prelude.Text.{Text, text_eq, text_eq_iff, text_eq_refl}
use lib_agent_mcp.Bridge.Command.{
  Flag, Command, Commands, node, no_commands, more, excluded, is_exposed, is_runnable,
  has_runnable_sub,
}
use lib_agent_mcp.Bridge.Command.Laws.{Reaches, here, below, later}
use lib_agent_mcp.Bridge.Schema.{
  Tool, leaf_tools, boundary_tools, tool_for, tool_for_group, legacy_tools, exposed_tools,
  visit_flags, flag_skipped,
}

module _ (name_separator : Text) (hidden_flags : List Text) where
  -- The tool of a runnable command that is reached.
  abbrev pub IsLegacy : Commands → Tool → Type 0
  IsLegacy cs t =
      (c : Command) × Reaches cs c
      × (is_runnable c ≡ true)
      × (t ≡ tool_for name_separator hidden_flags c)

  leaf_tools-In :
      (c : Command) {t : Tool}
      → In t (leaf_tools name_separator hidden_flags c)
        ↔ ((is_runnable c ≡ true) × (t ≡ tool_for name_separator hidden_flags c))
  leaf_tools-In c = (
    λ h. elim ((In-if (is_runnable c)).0 h) [
      | inl (r, l) ↦ (r, In-single l)
      | inr (_, l) ↦ absurd (In-none l)
    ],
    λ (r, e). rw (e) ((In-if (is_runnable c)).1 (inl (r, first))),
  )

  legacy_tools_complete :
      {cs : Commands} {c : Command} {t : Tool}
      → Reaches cs c
      → In t (leaf_tools name_separator hidden_flags c)
      → In t (legacy_tools name_separator hidden_flags cs)
  unfolding legacy_tools
  legacy_tools_complete (here {i} shown) h =
      (In-if (excluded i)).1 (inr (shown, In-append_left _ h))
  legacy_tools_complete (below {i} {cs} shown r) h = (In-if (excluded i)).1 (
      inr (
        shown,
        In-append_right (leaf_tools name_separator hidden_flags (node i cs))
            (In-append_left _ (legacy_tools_complete r h)),
      ))
  legacy_tools_complete (later {d = node i cs} r) h = elim (Bool-cases (excluded i)) [
    | inl hidden ↦ (In-if (excluded i)).1 (inl (hidden, legacy_tools_complete r h))
    | inr shown ↦ (In-if (excluded i)).1 (
        inr (
          shown,
          In-append_right (leaf_tools name_separator hidden_flags (node i cs)) (
              In-append_right (legacy_tools name_separator hidden_flags cs)
                (legacy_tools_complete r h)),
        ))
  ]

  legacy_tools_sound :
      (cs : Commands) {t : Tool}
      → In t (legacy_tools name_separator hidden_flags cs)
      → (c : Command) × Reaches cs c × In t (leaf_tools name_separator hidden_flags c)
  unfolding legacy_tools
  legacy_tools_sound no_commands h = absurd (In-none h)
  legacy_tools_sound (more (node i cs) rest) h = elim ((In-if (excluded i)).0 h) [
    | inl (_, l) ↦ let (c, r, m) = legacy_tools_sound rest l in (c, later r, m)
    | inr (shown, l) ↦ elim (In-append (leaf_tools name_separator hidden_flags (node i cs)) _ l) [
      | inl m ↦ (node i cs, here shown, m)
      | inr l ↦ elim (In-append (legacy_tools name_separator hidden_flags cs) _ l) [
        | inl l ↦ let (c, r, m) = legacy_tools_sound cs l in (c, below shown r, m)
        | inr l ↦ let (c, r, m) = legacy_tools_sound rest l in (c, later r, m)
      ]
    ]
  ]

  -- The walk for a program without exposed commands gives just the tools of the runnable commands
  -- that are reached without passing through an excluded command and are not excluded themselves.
  pub legacy_tools_iff :
      (cs : Commands) (t : Tool)
      → In t (legacy_tools name_separator hidden_flags cs) ↔ IsLegacy cs t
  legacy_tools_iff cs t = (
    λ h.
        let (c, r, m) = legacy_tools_sound cs h in
        let (runs, e) = (leaf_tools-In c).0 m in (c, r, runs, e),
    λ (c, r, runs, e). legacy_tools_complete r ((leaf_tools-In c).1 (runs, e)),
  )

  -- The tool of an exposed command that is reached: a group's, or a leaf's.
  abbrev pub IsBoundary : Commands → Tool → Type 0
  IsBoundary cs t =
      (c : Command) × Reaches cs c
      × (is_exposed c ≡ true)
      × (((has_runnable_sub c ≡ true) × (t ≡ tool_for_group name_separator hidden_flags c))
          ⊎ ((has_runnable_sub c ≡ false)
              × (is_runnable c ≡ true)
              × (t ≡ tool_for name_separator hidden_flags c)))

  boundary_tools-In :
      (c : Command) {t : Tool}
      → In t (boundary_tools name_separator hidden_flags c)
      → ((has_runnable_sub c ≡ true) × (t ≡ tool_for_group name_separator hidden_flags c))
        ⊎ ((has_runnable_sub c ≡ false)
            × (is_runnable c ≡ true)
            × (t ≡ tool_for name_separator hidden_flags c))
  boundary_tools-In c h = elim ((In-if (has_runnable_sub c)).0 h) [
    | inl (g, l) ↦ inl (g, In-single l)
    | inr (n, l) ↦ let (r, e) = (leaf_tools-In c).0 l in inr (n, r, e)
  ]

  -- Every tool that the walk for exposed commands gives is that of an exposed command that is
  -- reached without passing through an excluded one: a group's if a runnable command is reached
  -- below it, and otherwise the command's own.
  pub exposed_tools_sound :
      (cs : Commands) {t : Tool}
      → In t (exposed_tools name_separator hidden_flags cs)
      → IsBoundary cs t
  unfolding exposed_tools
  exposed_tools_sound no_commands h = absurd (In-none h)
  exposed_tools_sound (more (node i cs) rest) h = elim ((In-if (excluded i)).0 h) [
    | inl (_, l) ↦ let (c, r, x, m) = exposed_tools_sound rest l in (c, later r, x, m)
    | inr (shown, l) ↦ elim ((In-if (is_exposed (node i cs))).0 l) [
      | inl (e, l) ↦ elim (In-append (boundary_tools name_separator hidden_flags (node i cs)) _ l) [
        | inl m ↦ (node i cs, here shown, e, boundary_tools-In (node i cs) m)
        | inr l ↦ let (c, r, x, m) = exposed_tools_sound rest l in (c, later r, x, m)
      ]
      | inr (_, l) ↦ elim (In-append (exposed_tools name_separator hidden_flags cs) _ l) [
        | inl l ↦ let (c, r, x, m) = exposed_tools_sound cs l in (c, below shown r, x, m)
        | inr l ↦ let (c, r, x, m) = exposed_tools_sound rest l in (c, later r, x, m)
      ]
    ]
  ]

  -- How many of the flags have the name.
  abbrev pub count : Text → List Flag → ℕ
  count n [] = 0
  count n (f ∷ fs) = (if text_eq f.name n then 1 else 0) + count n fs

  -- Whether a flag of that name is not skipped.
  abbrev pub is_offered : Text → List Flag → Bool
  is_offered n [] = false
  is_offered n (f ∷ fs) =
      (text_eq f.name n && not (flag_skipped name_separator hidden_flags f)) || is_offered n fs

  -- Of the flags of one name, none becomes an option if the name was seen or each of them is
  -- skipped, and otherwise exactly one.
  pub count-visit_flags :
      (n : Text) (seen : List Text) (fs : List Flag)
      → count n (visit_flags name_separator hidden_flags seen fs)
        ≡ (if any (text_eq n) seen then 0 else if is_offered n fs then 1 else 0)
  unfolding visit_flags
  count-visit_flags n seen [] = ground arith
  count-visit_flags n seen (f ∷ fs) = elim (Bool-cases (text_eq f.name n)) [
    | inl same ↦
        let e : f.name ≡ n = (text_eq_iff f.name n).0 same in
        rw (← e) (
          ground (
            arith,
            text_eq_refl f.name,
            count-visit_flags f.name seen fs,
            count-visit_flags f.name (f.name ∷ seen) fs,
          ))
    | inr other ↦ ground (
      arith,
      text_eq_iff f.name n,
      text_eq_iff n f.name,
      count-visit_flags n seen fs,
      count-visit_flags n (f.name ∷ seen) fs,
    )
  ]
