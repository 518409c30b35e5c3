-- ===== src/Bridge/Usage.antt =====
-- usage.go: the card that `mcp usage` prints.
use lib_agent_mcp.Prelude.{false, List, [], ◌∷◌, ◌++◌}
use lib_agent_mcp.Prelude.Text.{Text, text, join}
use lib_agent_mcp.Bridge.Io.{Attempt}
use lib_agent_mcp.Bridge.Banner.{mcp_servers_config, claude_mcp_add_line}

-- The lines of the card.
unfoldable pub usage_lines : Text → Text → Text → List Text
usage_lines name servers add_line =
    (name
      ++ (text " mcp — run "
          ++ (name ++ (text "'s command tree as an MCP (Model Context Protocol) server."))))
    ∷ []
    ∷ text "TRANSPORTS"
    ∷ (text "  stdio (default)      " ++ (name ++ (text " mcp")))
    ∷ text "      JSON-RPC over stdin/stdout. Launched BY an MCP client, not run by hand."
    ∷ (text "  Streamable HTTP      " ++ (name ++ (text " mcp --http :8000")))
    ∷ text "      One endpoint at http://<host>:8000/mcp. Unauthenticated unless --oauth —"
    ∷ text "      bind to loopback or front it with an auth proxy."
    ∷ []
    ∷ text "REGISTER (stdio)"
    ∷ text "  Desktop clients (Claude Desktop / Cursor / VS Code / Windsurf): add to the"
    ∷ text "  mcpServers config —"
    ∷ (text "    " ++ (servers))
    ∷ text "  Claude Code CLI:"
    ∷ (text "    " ++ (add_line))
    ∷ []
    ∷ text "REMOTE (Streamable HTTP + self-contained OAuth 2.1)"
    ∷ (text "  " ++ (name ++ (text " mcp --http :8000 --oauth local --public-url https://host")))
    ∷ text "      The server is its OWN OAuth authorization + resource server (no third"
    ∷ text "      party). Register the FULL /mcp URL in the connector — \"https://host/mcp\","
    ∷ text "      not the bare host: the path is the resource identifier, and the bare host"
    ∷ text "      makes the client POST to \"/\" and fail."
    ∷ text "      A pairing code is printed at boot; the human enters it once on the browser"
    ∷ text "      approval page. It is reusable across clients."
    ∷ (text "        "
        ++ (name ++ (text " mcp pair rotate   → new pairing code (if it leaks; keeps tokens)")))
    ∷ (text "        "
        ++ (name ++ (text " mcp pair reset     → wipe ALL state: signing key + clients + tokens")))
    ∷ text "                                  (requires --yes; every client must re-pair)"
    ∷ []
    ∷ text "TAILSCALE (auto-expose)"
    ∷ (text "  " ++ (name ++ (text " mcp --http :8000 --oauth local --tailscale funnel")))
    ∷ text "      Brings up a Tailscale funnel (public internet) or serve (tailnet-only) in"
    ∷ text "      front of the listener, derives --public-url from the node's MagicDNS name,"
    ∷ text "      and tears the tunnel down on Ctrl-C. --tailscale-port 443|8443|10000"
    ∷ text "      (default 443). Needs the tailscale CLI on PATH and Funnel enabled."
    ∷ []
    ∷ text "DEBUG"
    ∷ text "  --access-log <path>   NDJSON access log, one line per HTTP request (method,"
    ∷ text "                        path, status, duration, Origin, MCP-Protocol-Version,"
    ∷ text "                        User-Agent, X-Forwarded-For). Use \"-\" for stderr."
    ∷ text "                        Authorization/Cookie are redacted."
    ∷ []
    ∷ text "KEY FLAGS"
    ∷ text "  --http <addr>             serve Streamable HTTP instead of stdio"
    ∷ text "  --oauth local             self-contained OAuth 2.1 (needs --http + a public URL)"
    ∷ text "  --public-url <url>        externally-reachable https URL (issuer; /mcp = audience)"
    ∷ text "  --tailscale funnel|serve  auto-expose via Tailscale and derive --public-url"
    ∷ text "  --tailscale-port <port>   public HTTPS port for --tailscale (443|8443|10000)"
    ∷ text "  --access-log <path>       NDJSON request-log destination (\"-\" = stderr)"
    ∷ []

module _ (quote : Text → Text) where
  -- usageCard, for the program's name and its path
  unfoldable pub usage_card : Text → Text → Text
  usage_card name exec =
      join
        (usage_lines name (mcp_servers_config quote name exec false)
          (claude_mcp_add_line name exec))
        (b'\n' ∷ [])

  -- The RunE of `mcp usage`, with the write to the command's output.
  unfoldable pub usage_run :
      {E : Type 0} → (Text → E → Attempt (Unit {0}) × E) → Text → Text → E → Attempt (Unit {0}) × E
  usage_run print name exec = print (usage_card name exec ++ text "\n")
