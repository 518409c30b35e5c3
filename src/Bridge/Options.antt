-- ===== src/Bridge/Options.antt =====
-- options.go, newServer of server.go, fileTool of fs.go and schema_cmd.go: the options of a server and
-- the server that they make.
pub mod Laws
pub mod Schemas
use lib_agent_mcp.Prelude.{
  ℕ, ◌*◌, Bool, true, false, Option, none, some, List, [], ◌∷◌, ◌++◌, if◌then◌else◌,
}
use lib_agent_mcp.Prelude.Text.{Text, text, join}
use lib_agent_mcp.Bridge.Command.{Command, info}
use lib_agent_mcp.Bridge.Schema.{Tool, file_input, build_tools}
use lib_agent_mcp.Bridge.Runner.{IdentityBinding}
use lib_agent_mcp.Bridge.Blocks.{FileRoot}
use lib_agent_mcp.Bridge.Files.{FileRootScope, root_names}
use lib_agent_mcp.Bridge.Banner.{root_version}

unfoldable pub default_file_tool_name : Text
default_file_tool_name = text "fs"

-- 5 << 20
abbrev pub default_file_inline_limit : ℕ
default_file_inline_limit = 5 * (1024 * 1024)

unfoldable pub default_hidden_flags : List Text
default_hidden_flags = text "format" ∷ text "debug" ∷ text "timeout" ∷ text "help" ∷ []

-- The struct options; the set of hidden flags is the list of its members.
pub record Options : Type 0 where
  pub name : Text
  pub version : Text
  pub name_separator : Text
  pub hidden_flags : List Text
  pub executable : Text
  pub file_roots : List FileRoot
  pub file_tool_name : Text
  pub file_inline_limit : ℕ
  pub oauth_keyring_service : Text
  pub identity_binding : Option IdentityBinding
  pub file_root_scope : Option FileRootScope

-- The options that a program can give: the type Option has no other values outside the package.
pub data ServerOption : Type 0 where
  with_name with_version with_name_separator with_file_tool_name : Text → ServerOption
  with_oauth_keyring_service with_executable : Text → ServerOption
  with_hidden_flags : List Text → ServerOption
  with_file_roots : List FileRoot → ServerOption
  with_file_inline_limit : ℕ → ServerOption
  with_identity_binding : Option IdentityBinding → ServerOption
  with_file_root_scope : Option FileRootScope → ServerOption

unfoldable pub apply : ServerOption → Options → Options
apply (with_name name) o = record o { name = name }
apply (with_version v) o = record o { version = v }
apply (with_name_separator sep) o = record o { name_separator = sep }
apply (with_file_tool_name name) o = record o { file_tool_name = name }
apply (with_oauth_keyring_service service) o = record o { oauth_keyring_service = service }
apply (with_executable path) o = record o { executable = path }
apply (with_hidden_flags names) o = record o { hidden_flags = names ++ o.hidden_flags }
apply (with_file_roots roots) o = record o { file_roots = o.file_roots ++ roots }
apply (with_file_inline_limit n) o = record o { file_inline_limit = n }
apply (with_identity_binding fn) o = record o { identity_binding = fn }
apply (with_file_root_scope fn) o = record o { file_root_scope = fn }

unfoldable pub apply_all : List ServerOption → Options → Options
apply_all [] o = o
apply_all (x ∷ xs) o = apply_all xs (apply x o)

-- The options before any is applied, for a root command of this version.
unfoldable pub default_options : Command → Text → Options
default_options root version = record {
  name = (info root).name;
  version = root_version version;
  name_separator = text "_";
  hidden_flags = default_hidden_flags;
  executable = [];
  file_roots = [];
  file_tool_name = default_file_tool_name;
  file_inline_limit = default_file_inline_limit;
  oauth_keyring_service = [];
  identity_binding = none;
  file_root_scope = none;
}

-- fileTool
unfoldable pub file_tool : Options → Tool
file_tool o = record {
  name = o.file_tool_name;
  description =
      text "Read-only access to local files under named roots ("
      ++ (join (root_names o.file_roots) (text ", ")
          ++ text
              "). Verbs via args: [\"find\",\"<root>\",\"-e\",\"png\"] searches a root, [\"ls\",\"<root>\",\"<dir?>\"] lists a directory, [\"get\",\"<root>\",\"<path>\"] returns a file's contents (images inline as image blocks). Paths are relative to the root.");
  input = file_input;
  hints = record { read_only = true; destructive = false };
  path = [];
  group = false;
  command = none;
}

abbrev pub tools_of_roots : Tool → List FileRoot → List Tool
tools_of_roots tool [] = []
tools_of_roots tool (_ ∷ _) = tool ∷ []

-- nativeTools
unfoldable pub native_tools : Options → List Tool
native_tools o = tools_of_roots (file_tool o) o.file_roots

-- newServer: the options and the tools; the map by name is tool_by_name of Dispatch.
unfoldable pub new_server : Command → Text → List ServerOption → Options × List Tool
new_server root version opts =
    let o = apply_all opts (default_options root version) in
    (o, build_tools o.name_separator o.hidden_flags root (native_tools o))

abbrev pub is_bound : Option IdentityBinding → Bool
is_bound none = false
is_bound (some _) = true

pub record Manifest : Type 0 where
  pub name : Text
  pub version : Text
  pub tools : List Tool
  pub file_roots : List Text
  pub identity_binding : Bool

-- schemaManifest
unfoldable pub schema_manifest : Options × List Tool → Manifest
schema_manifest (o, tools) = record {
  name = o.name;
  version = o.version;
  tools = tools;
  file_roots = root_names o.file_roots;
  identity_binding = is_bound o.identity_binding;
}
