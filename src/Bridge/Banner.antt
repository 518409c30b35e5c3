-- ===== src/Bridge/Banner.antt =====
-- banner.go and registration.go: what is printed for the person who starts the server. %d and %q are
-- parameters.
use lib_agent_mcp.Prelude.{ℕ, Bool, true, false, [], ◌∷◌, ◌++◌, ◌==◌, if◌then◌else◌}
use lib_agent_mcp.Prelude.Text.{Text, text, is_empty, join}
use lib_agent_mcp.Bridge.Dispatch.{default_protocol_version}

unfoldable pub mcp_http_path : Text
mcp_http_path = text "/mcp"

-- httpURL
unfoldable pub http_url : Text → Text
http_url [] = text "http://" ++ mcp_http_path
http_url (c ∷ addr) =
    text "http://"
    ++ ((if c == b':' then text "localhost" ++ (c ∷ addr) else c ∷ addr) ++ mcp_http_path)

-- rootVersion, of the version of the root command
unfoldable pub root_version : Text → Text
root_version v = if is_empty v then text "0.0.0" else v

unfoldable pub banner_name : Text → Text
banner_name name = if is_empty name then text "mcp" else name

unfoldable pub banner_version : Text → Text
banner_version version = if is_empty version then text "dev" else version

module _ (decimal : ℕ → Text) where
  -- toolCountPhrase, of the number of tools
  unfoldable pub tool_count_phrase : ℕ → Text
  tool_count_phrase n = decimal n ++ (text " " ++ (if n == 1 then text "tool" else text "tools"))

  -- bannerCore, of the server's name and version and the number of its tools
  unfoldable pub banner_core : Text → Text → ℕ → Text → Text → Text
  banner_core name version tools transport location =
      join
        ((banner_name name ++ (text " " ++ (banner_version version ++ text " — MCP server ready")))
          ∷ (text "transport: " ++ transport)
          ∷ ((if is_empty location then [] else location ∷ [])
              ++ (tool_count_phrase tools ∷ (text "protocol " ++ default_protocol_version) ∷ [])))
        (text " · ")

  unfoldable pub startup_banner : Text → Text → ℕ → Text
  startup_banner name version tools = banner_core name version tools (text "stdio") []

  unfoldable pub startup_banner_http : Text → Text → ℕ → Text → Text
  startup_banner_http name version tools addr =
      banner_core name version tools (text "streamable-http") (http_url addr)
      ++ text
          "\n  ⚠ UNAUTHENTICATED: anyone who can reach this address can call every tool — bind to loopback or front with an auth proxy/tunnel."

  unfoldable pub startup_banner_http_oauth : Text → Text → ℕ → Text → Text
  startup_banner_http_oauth name version tools addr =
      banner_core name version tools (text "streamable-http") (http_url addr)
      ++ text " · authorization: OAuth 2.1 (local)"

-- claudeMcpAddLine
unfoldable pub claude_mcp_add_line : Text → Text → Text
claude_mcp_add_line name exec =
    text "claude mcp add " ++ (name ++ (text " -- " ++ (exec ++ text " mcp")))

module _ (quote : Text → Text) where
  unfoldable pub mcp_servers_config : Text → Text → Bool → Text
  mcp_servers_config name exec true =
      text "{\n      \"mcpServers\": {\n        "
      ++ (quote name
          ++ (text ": {\n          \"command\": "
              ++ (quote exec
                  ++ text ",\n          \"args\": [\"mcp\"]\n        }\n      }\n    }")))
  mcp_servers_config name exec false =
      text "{\"mcpServers\": {"
      ++ (quote name
          ++ (text ": {\"command\": " ++ (quote exec ++ text ", \"args\": [\"mcp\"]}}}")))
