-- ===== src/Bridge/Options/Laws.antt =====
-- What no choice of options changes.
use lib_agent_mcp.Prelude.{List, [], ◌∷◌, In, In-append_right}
use lib_agent_mcp.Prelude.Text.{Text}
use lib_agent_mcp.Bridge.Command.{Command}
use lib_agent_mcp.Bridge.Options.{
  Options, ServerOption, with_name, with_version, with_name_separator, with_file_tool_name,
  with_oauth_keyring_service, with_executable, with_hidden_flags, with_file_roots,
  with_file_inline_limit, with_identity_binding, with_file_root_scope, apply, apply_all,
  default_options, default_hidden_flags, new_server,
}

apply-hidden :
    (x : ServerOption) (o : Options) {n : Text}
    → In n o.hidden_flags
    → In n (apply x o).hidden_flags
unfolding apply
apply-hidden (with_hidden_flags names) o h = In-append_right names h
apply-hidden (with_name _) o h = h
apply-hidden (with_version _) o h = h
apply-hidden (with_name_separator _) o h = h
apply-hidden (with_file_tool_name _) o h = h
apply-hidden (with_oauth_keyring_service _) o h = h
apply-hidden (with_executable _) o h = h
apply-hidden (with_file_roots _) o h = h
apply-hidden (with_file_inline_limit _) o h = h
apply-hidden (with_identity_binding _) o h = h
apply-hidden (with_file_root_scope _) o h = h

apply_all-hidden :
    (xs : List ServerOption) (o : Options) {n : Text}
    → In n o.hidden_flags
    → In n (apply_all xs o).hidden_flags
unfolding apply_all
apply_all-hidden [] o h = h
apply_all-hidden (x ∷ xs) o h = apply_all-hidden xs (apply x o) (apply-hidden x o h)

-- Whatever options a server is given, the flags that are hidden by default stay hidden.
pub new_server-hidden :
    (root : Command) (version : Text) (opts : List ServerOption) {n : Text}
    → In n default_hidden_flags
    → In n (new_server root version opts).0.hidden_flags
unfolding new_server default_options
new_server-hidden root version opts h = apply_all-hidden opts (default_options root version) h
