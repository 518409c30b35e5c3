-- ===== src/Bridge/Command/Laws.antt =====
-- What it means that a command is reached, and the search of the tree.
use lib_agent_mcp.Prelude.{
  ◌≡◌, ◌↔◌, inl, inr, refl, Bool, true, false, ◌||◌, arith, Bool-cases, if◌then◌else◌,
}
use lib_agent_mcp.Bridge.Command.{
  Info, Command, Commands, node, no_commands, more, excluded, any_command, info, is_annotated,
  set_annotation, skip, annotation_skip,
}
use lib_agent_mcp.Prelude.Text.{Text, text, text_eq, text_eq_refl}
use lib_agent_mcp.Prelude.Dict.{lookup-insert}

-- A command that is reached from a list of commands through commands that are not excluded.
pub data Reaches : Commands → Command → Type 0 where
  here :
      {i : Info} {cs rest : Commands}
      → excluded i ≡ false
      → Reaches (more (node i cs) rest) (node i cs)
  below :
      {i : Info} {cs rest : Commands} {c : Command}
      → excluded i ≡ false
      → Reaches cs c
      → Reaches (more (node i cs) rest) c
  later : {d c : Command} {rest : Commands} → Reaches rest c → Reaches (more d rest) c

found_later : (x p d l : Bool) → l ≡ true → (if x then l else p || (d || l)) ≡ true
found_later x p d l h = ground arith

found_here :
    (x p d l : Bool)
    → (if x then l else p || (d || l)) ≡ true
    → l ≡ false
    → (x ≡ false) × ((p || d) ≡ true)
found_here x p d l h k = ground arith

any_command_complete :
    (pred : Command → Bool) {cs : Commands} {c : Command}
    → Reaches cs c
    → pred c ≡ true
    → any_command pred cs ≡ true
unfolding any_command
any_command_complete pred (here shown) e = ground arith
any_command_complete pred (below shown r) e = ground (arith, any_command_complete pred r e)
any_command_complete pred (later {d = node i cs} r) e =
    found_later (excluded i) (pred (node i cs)) (any_command pred cs) _
      (any_command_complete pred r e)

any_command_sound :
    (pred : Command → Bool) (cs : Commands)
    → any_command pred cs ≡ true
    → (c : Command) × Reaches cs c × (pred c ≡ true)
unfolding any_command
any_command_sound pred no_commands e = cc
any_command_sound pred (more (node i cs) rest) e = elim (Bool-cases (any_command pred rest)) [
  | inl h ↦ let (c, r, p) = any_command_sound pred rest h in (c, later r, p)
  | inr h ↦
      let (shown, found) =
        found_here (excluded i) (pred (node i cs)) (any_command pred cs) (any_command pred rest) e
          h in
      elim (Bool-cases (pred (node i cs))) [
        | inl p ↦ (node i cs, here shown, p)
        | inr q ↦
            let (c, r, p) = any_command_sound pred cs (rw (q) at found) in (c, below shown r, p)
      ]
]

-- The search of the tree finds a command exactly if one that passes the test is reached without
-- passing through an excluded command and is not excluded itself.
pub any_command_iff :
    (pred : Command → Bool) (cs : Commands)
    → (any_command pred cs ≡ true) ↔ ((c : Command) × Reaches cs c × (pred c ≡ true))
any_command_iff pred cs = (any_command_sound pred cs, λ (c, r, p). any_command_complete pred r p)

-- An annotation that is set to "true" is there, and the others are as they were.
is_annotated-set_annotation :
    (key j : Text) (c : Command)
    → is_annotated (info (set_annotation key (text "true") c)) j
      ≡ (if text_eq key j then true else is_annotated (info c) j)
unfolding is_annotated set_annotation
is_annotated-set_annotation key j (node i cs) = elim (Bool-cases (text_eq key j)) [
  | inl same ↦
      rw (is_annotated, set_annotation, lookup-insert key j (text "true") i.annotations, same)
        (text_eq_refl (text "true"))
  | inr other ↦
      rw (is_annotated, set_annotation, lookup-insert key j (text "true") i.annotations, other) refl
]

-- A command that is skipped is excluded.
pub excluded-skip : (c : Command) → excluded (info (skip c)) ≡ true
unfolding excluded skip
excluded-skip (node i cs) = ground (
  arith,
  is_annotated-set_annotation annotation_skip annotation_skip (node i cs),
  text_eq_refl annotation_skip,
)
