-- ===== src/Bridge/Options/Schemas.antt =====
-- The schemas of the tools that a server has, whatever its options.
use lib_agent_mcp.Prelude.{◌≡◌, inl, inr, List, [], ◌∷◌, In, In-none, In-single, In-append, In-if}
use lib_agent_mcp.Prelude.Text.{Text}
use lib_agent_mcp.Bridge.Command.{Command, Commands, subs, any_exposed}
use lib_agent_mcp.Bridge.Schema.{Tool, legacy_tools, exposed_tools, build_tools}
use lib_agent_mcp.Bridge.Schema.Laws.{legacy_tools_iff, exposed_tools_sound}
use lib_agent_mcp.Bridge.Schema.Input.{file_args_description, input_json}
use lib_agent_mcp.Bridge.Blocks.{FileRoot}
use lib_agent_mcp.Bridge.Options.{
  Options, ServerOption, file_tool, tools_of_roots, native_tools, apply_all, default_options,
  new_server,
}
use lib_agent_mcp.Bridge.Schema.WellFormed.{
  IsSchema, only_args-IsSchema, tool_for-IsSchema, tool_for_group-IsSchema,
}

module _ (name_separator : Text) (hidden_flags : List Text) where
  same-IsSchema :
      {t u : Tool} → t ≡ u → IsSchema (input_json u.input) → IsSchema (input_json t.input)
  same-IsSchema e h = rw e h

  legacy_tools-IsSchema :
      (cs : Commands) {t : Tool}
      → In t (legacy_tools name_separator hidden_flags cs)
      → IsSchema (input_json t.input)
  legacy_tools-IsSchema cs {t} h =
      let (c, _, _, e) = (legacy_tools_iff name_separator hidden_flags cs t).0 h in
      same-IsSchema e (tool_for-IsSchema name_separator hidden_flags c)

  exposed_tools-IsSchema :
      (cs : Commands) {t : Tool}
      → In t (exposed_tools name_separator hidden_flags cs)
      → IsSchema (input_json t.input)
  exposed_tools-IsSchema cs h =
      let (c, _, _, kind) = exposed_tools_sound name_separator hidden_flags cs h in
      elim kind [
        | inl (_, e) ↦ same-IsSchema e (tool_for_group-IsSchema name_separator hidden_flags c)
        | inr (_, _, e) ↦ same-IsSchema e (tool_for-IsSchema name_separator hidden_flags c)
      ]

  build_tools-IsSchema :
      (root : Command) (native : List Tool) {t : Tool}
      → ((u : Tool) → In u native → IsSchema (input_json u.input))
      → In t (build_tools name_separator hidden_flags root native)
      → IsSchema (input_json t.input)
  unfolding build_tools
  build_tools-IsSchema root native ours h = elim ((In-if (any_exposed root)).0 h) [
    | inl (_, l) ↦
        elim (In-append (exposed_tools name_separator hidden_flags (subs root)) native l) [
          | inl k ↦ exposed_tools-IsSchema (subs root) k
          | inr k ↦ ours _ k
        ]
    | inr (_, l) ↦
        elim (In-append (legacy_tools name_separator hidden_flags (subs root)) native l) [
          | inl k ↦ legacy_tools-IsSchema (subs root) k
          | inr k ↦ ours _ k
        ]
  ]

native_tools-IsSchema :
    (tool : Tool) (roots : List FileRoot) {u : Tool}
    → IsSchema (input_json tool.input)
    → In u (tools_of_roots tool roots)
    → IsSchema (input_json u.input)
native_tools-IsSchema tool [] s h = absurd (In-none h)
native_tools-IsSchema tool (_ ∷ _) s h = same-tool (In-single h) s
  where
    same-tool : {t u : Tool} → t ≡ u → IsSchema (input_json u.input) → IsSchema (input_json t.input)
    same-tool e h = rw e h

file_tool-IsSchema : (o : Options) → IsSchema (input_json (file_tool o).input)
unfolding file_tool input_json
file_tool-IsSchema o = only_args-IsSchema file_args_description

-- Whatever the command tree and the options, the input schema of each tool that a server has is
-- well formed at every depth: it has a known type, an array has items, and what an object requires
-- is among its properties.
pub new_server-IsSchema :
    (root : Command) (version : Text) (opts : List ServerOption) {t : Tool}
    → In t (new_server root version opts).1
    → IsSchema (input_json t.input)
unfolding new_server native_tools
new_server-IsSchema root version opts h =
    let o = apply_all opts (default_options root version) in
    build_tools-IsSchema o.name_separator o.hidden_flags root
      (tools_of_roots (file_tool o) o.file_roots)
      (λ u k. native_tools-IsSchema (file_tool o) o.file_roots (file_tool-IsSchema o) k) h
