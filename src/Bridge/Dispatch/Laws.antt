-- ===== src/Bridge/Dispatch/Laws.antt =====
-- What a call of a tool may run, and which requests are answered.
use lib_agent_mcp.Prelude.{
  ◌≡◌, ◌⊎◌, inl, inr, refl, ap, ◌∙◌, true, false, not, ◌||◌, Option, none, some, List, [], ◌∷◌,
  ◌++◌, arith, Bool-cases, if◌then◌else◌,
}
use lib_agent_mcp.Prelude.Text.{Text, text, text_eq, is_empty}
use lib_agent_mcp.Prelude.Dict.{Dict, keys, sorted}
use lib_agent_mcp.Oauth.World.{Verified}
use lib_agent_mcp.Bridge.Command.{Command, info, excluded, is_runnable, has_flag, command_confirms}
use lib_agent_mcp.Bridge.Schema.{Tool}
use lib_agent_mcp.Bridge.Runner.{
  Value, finished, identity_injection, render_options, build_argv, child_argv, run,
}
use lib_agent_mcp.Bridge.Blocks.{ToolResult, help_result}
use lib_agent_mcp.Bridge.Translate.{translate}
use lib_agent_mcp.Bridge.Files.{effective_file_roots}
use lib_agent_mcp.Bridge.Dispatch.{
  Setup, Request, Response, Found, not_found, itself, other, run_command, run_found,
  unknown_subcommand, call_group, call_command, call_tool, dispatch, line_responses,
  request_responses, responses, serve,
}

module _ {V : Type 0} (s : Setup V) where
  -- A usage text, which no child process was started for.
  abbrev pub IsHelp : ToolResult → Type 0
  IsHelp r = (usage : Text) × (r ≡ help_result usage)

  run_found-cases :
      (ctx : Option Verified) (tool : Tool) (arg : Text) (args : List Text) (opts : Dict (Value V))
      (group : Command) (found : Found)
      → IsHelp (run_found s ctx tool arg args opts group found)
        ⊎ ((c : Command) × (found ≡ other c)
            × (excluded (info c) ≡ false)
            × (is_runnable c ≡ true)
            × (run_found s ctx tool arg args opts group found ≡ run_command s ctx tool args opts c))
  unfolding unknown_subcommand
  run_found-cases ctx tool arg args opts group not_found = inl (_, refl)
  run_found-cases ctx tool arg args opts group itself = inl (_, refl)
  run_found-cases ctx tool arg args opts group (other c) =
      elim (Bool-cases (excluded (info c) || not (is_runnable c))) [
        | inl bad ↦ inl (
          text "unknown subcommand " ++ (s.host.quote arg ++ (text "\n\n" ++ s.group_help group)),
          rw (bad) refl,
        )
        | inr good ↦ inr (c, refl, ground arith, ground arith, rw (good) refl)
      ]

  call_group-cases :
      (ctx : Option Verified) (tool : Tool) (args : List Text) (opts : Dict (Value V))
      (group : Command)
      → IsHelp (call_group s ctx tool args opts group)
        ⊎ ((c : Command) × (s.find group args ≡ other c)
            × (excluded (info c) ≡ false)
            × (is_runnable c ≡ true)
            × (call_group s ctx tool args opts group ≡ run_command s ctx tool args opts c))
  unfolding call_group
  call_group-cases ctx tool [] opts group = inl (s.group_help group, refl)
  call_group-cases ctx tool (a ∷ args) opts group = elim (Bool-cases (text_eq a (text "help"))) [
    | inl help ↦ inl (s.group_help group, rw (help) refl)
    | inr verb ↦
        rw (verb) (run_found-cases ctx tool a (a ∷ args) opts group (s.find group (a ∷ args)))
  ]

  call_tool-group :
      (ctx : Option Verified) (tool : Tool) (args : List Text) (opts : Dict (Value V))
      (group : Command)
      → tool.command ≡ some group
      → tool.group ≡ true
      → call_tool s ctx tool args opts ≡ call_group s ctx tool args opts group
  unfolding call_tool
  call_tool-group ctx tool args opts group e g =
      ap (call_command s ctx tool args opts) e
      ∙ ap
          (λ b.
            if b
            then call_group s ctx tool args opts group
            else run_command s ctx tool args opts group)
          g

  -- What a call answers whose child has these arguments, before those of the identity binding.
  abbrev pub answer_of : Option Verified → List Text → ToolResult
  answer_of ctx argv =
      let (extra, env) = identity_injection s.identity_binding ctx in
      translate s.decode s.marshal s.file_ref_for
        (effective_file_roots s.file_roots s.file_root_scope ctx)
        (finished (s.start (argv ++ extra) env))

  -- "--yes" for a command that has a flag of that name, and nothing for another one.
  abbrev pub confirmation : Command → List Text
  confirmation c = if has_flag (text "yes") (info c).flags then text "--yes" ∷ [] else []

  run_command-argv :
      (ctx : Option Verified) (tool : Tool) (args : List Text) (opts : Dict (Value V)) (c : Command)
      → run_command s ctx tool args opts c
        ≡ answer_of ctx (
            tool.path
            ++ (render_options s.show opts (sorted (keys opts))
                ++ (args ++ (confirmation c ++ (text "--format" ∷ text "jsonl" ∷ [])))))
  unfolding run_command run child_argv build_argv command_confirms
  run_command-argv ctx tool args opts c = refl

  -- A call of a tool that stands for a group gives a usage text, or finds a command under the
  -- group, which is not excluded itself and is runnable, and answers what the child gives whose
  -- arguments are the path of the tool, the rendered options, the arguments of the call, then --yes
  -- if the command has a flag of that name and nothing otherwise, then --format jsonl and those of
  -- the identity binding.
  pub call_group_cases :
      (ctx : Option Verified) (tool : Tool) (args : List Text) (opts : Dict (Value V))
      (group : Command)
      → tool.command ≡ some group
      → tool.group ≡ true
      → IsHelp (call_tool s ctx tool args opts)
        ⊎ ((c : Command) × (s.find group args ≡ other c)
            × (excluded (info c) ≡ false)
            × (is_runnable c ≡ true)
            × (call_tool s ctx tool args opts
                ≡ answer_of ctx (
                    tool.path
                    ++ (render_options s.show opts (sorted (keys opts))
                        ++ (args ++ (confirmation c ++ (text "--format" ∷ text "jsonl" ∷ [])))))))
  call_group_cases ctx tool args opts group e g = elim (call_group-cases ctx tool args opts group) [
    | inl help ↦ inl (rw (call_tool-group ctx tool args opts group e g) help)
    | inr (c, found, shown, runs, ran) ↦ inr (
      c,
      found,
      shown,
      runs,
      call_tool-group ctx tool args opts group e g ∙ (ran ∙ run_command-argv ctx tool args opts c),
    )
  ]

  abbrev pub optional : Option Text → List Text
  optional none = []
  optional (some id) = id ∷ []

  -- The ids of the requests among the lines, notifications and lines that do not decode left out.
  abbrev pub id_of : Option Request → List Text
  id_of none = []
  id_of (some r) = optional r.id

  abbrev pub request_ids : List Text → List Text
  request_ids [] = []
  request_ids (l ∷ ls) = (if is_empty l then [] else id_of (s.decode_request l)) ++ request_ids ls

  abbrev pub response_ids : List Response → List Text
  response_ids [] = []
  response_ids (r ∷ rs) = r.id ∷ response_ids rs

  response_ids-append :
      (xs ys : List Response) → response_ids (xs ++ ys) ≡ response_ids xs ++ response_ids ys
  response_ids-append [] ys = refl
  response_ids-append (x ∷ xs) ys = ap (λ ids. x.id ∷ ids) (response_ids-append xs ys)

  responses-ids :
      (ctx : Option Verified) (r : Request) (o : Option Text)
      → response_ids (responses s ctx r o) ≡ optional o
  unfolding dispatch
  responses-ids ctx r none = refl
  responses-ids ctx r (some id) = refl

  request_responses-ids :
      (ctx : Option Verified) (o : Option Request)
      → response_ids (request_responses s ctx o) ≡ id_of o
  request_responses-ids ctx none = refl
  request_responses-ids ctx (some r) = responses-ids ctx r r.id

  line_responses-ids :
      (ctx : Option Verified) (l : Text)
      → response_ids (line_responses s ctx l)
        ≡ (if is_empty l then [] else id_of (s.decode_request l))
  unfolding line_responses
  line_responses-ids ctx l = elim (Bool-cases (is_empty l)) [
    | inl blank ↦ rw (blank) refl
    | inr full ↦ rw (full) (request_responses-ids ctx (s.decode_request l))
  ]

  -- The server answers each request that has an id exactly once, in the order of the requests, and
  -- nothing else.
  pub serve_ids :
      (ctx : Option Verified) (ls : List Text) → response_ids (serve s ctx ls) ≡ request_ids ls
  unfolding serve
  serve_ids ctx [] = refl
  serve_ids ctx (l ∷ ls) =
      response_ids-append (line_responses s ctx l) (serve s ctx ls)
      ∙ (ap (λ ids. ids ++ response_ids (serve s ctx ls)) (line_responses-ids ctx l)
          ∙ ap (λ ids. (if is_empty l then [] else id_of (s.decode_request l)) ++ ids)
              (serve_ids ctx ls))
