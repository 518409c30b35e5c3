-- ===== src/Bridge/Startup.antt =====
-- server.go: what the command `mcp` does. The file system, the network, signals, the standard streams
-- and what runs behind a listener are parameters.
pub mod Laws
pub mod TearDown
pub mod Configured
use lib_agent_mcp.Prelude.{
  ℕ, ◌+◌, Bool, true, false, not, ◌&&◌, Option, none, some, List, [], ◌∷◌, ◌++◌, if◌then◌else◌,
}
use lib_agent_mcp.Prelude.Text.{Text, text, is_empty}
use lib_agent_mcp.Exec.{Fault}
use lib_agent_mcp.Oauth.World.{World}
use lib_agent_mcp.Oauth.Server.{Platform, Server, pairing_code}
use lib_agent_mcp.Bridge.Io.{
  Problem, message, fault, wrapped, followed, Attempt, done, failed, Io, pure, fail, finally,
  attempted, ◌>>=◌, ◌>>◌,
}
use lib_agent_mcp.Bridge.Tailscale.{CmdRunner, Tools, down_args, wire_tailscale}
use lib_agent_mcp.Bridge.AccessLog.{AccessLogger, new_access_logger, close}
use lib_agent_mcp.Bridge.OauthSetup.{
  Opener, OauthServer, oauth_service, setup_oauth, oauth_boot_info,
}
use lib_agent_mcp.Bridge.Banner.{
  http_url, startup_banner, startup_banner_http, startup_banner_http_oauth, banner_name,
  mcp_servers_config, claude_mcp_add_line,
}

-- httpServeConfig
pub record HttpServeConfig : Type 0 where
  pub addr : Text
  pub oauth_mode : Text
  pub public_url : Text
  pub tailscale_mode : Text
  pub tailscale_port : ℕ
  pub access_log_path : Text

-- The server's own data, as far as the start reads it.
pub record About : Type 0 where
  pub name : Text
  pub version : Text
  pub tools : ℕ
  pub executable : Text
  pub keyring_service : Text

-- What is outside the program.
pub record Host (E : Type 0) : Type 0 where
  pub open_file : Text → E → Attempt (Unit {0}) × E
  pub close_file : Text → E → E
  pub cmd_runner : CmdRunner E
  pub tools : Tools
  -- the text of an error of the package oauth
  pub fault_text : Fault → Text
  -- a write to the standard output
  pub print : Text → E → Attempt (Unit {0}) × E
  pub stdin_is_interactive : E → Bool
  pub serve_stdio : E → Attempt (Unit {0}) × E
  -- net.Listen, and the method Serve of http.Server, with `none` for http.ErrServerClosed
  pub listen : Text → E → Attempt (Unit {0}) × E
  pub serve : Option Server → Option AccessLogger → E → Option Problem × E

-- What was done, for the order of it.
pub data Event : Type 0 where
  stderr : Text → Event
  stdout : Text → Event
  served : Option Server → Option AccessLogger → Event
  served_stdio : Event
  tunnel_down : List Text → Event
  log_closed : AccessLogger → Event

-- The state of a start: the OAuth layer's, what is outside, the fields oauth and accessLog of
-- Server, and what was done, in order.
pub record Machine (K : Type 0) (E : Type 0) : Type 0 where
  pub world : World K
  pub outside : E
  pub oauth : Option (OauthServer K)
  pub access_log : Option AccessLogger
  pub events : List Event

abbrev pub server_of : {K : Type 0} → Option (OauthServer K) → Option Server
server_of none = none
server_of (some o) = some o.server

module _ {K E : Type 0} where
  abbrev pub on_outside : {A : Type 0} → (E → Attempt A × E) → Io (Machine K E) A
  on_outside m s = ((m s.outside).0, record s { outside = (m s.outside).1 })

  abbrev pub on_world : {A : Type 0} → (World K → Attempt A × World K) → Io (Machine K E) A
  on_world m s = ((m s.world).0, record s { world = (m s.world).1 })

  abbrev pub note : Event → Io (Machine K E) (Unit {0})
  note e s = (done tt, record s { events = s.events ++ (e ∷ []) })

  -- The field is left alone where there is no server.
  abbrev pub set_oauth : Option (OauthServer K) → Io (Machine K E) (Unit {0})
  set_oauth none s = (done tt, s)
  set_oauth (some server) s = (done tt, record s { oauth = some server })

  abbrev pub set_access_log : AccessLogger → Io (Machine K E) (Option AccessLogger)
  set_access_log al s = (done (some al), record s { access_log = some al })

module _ {K E : Type 0} (h : Host E) (o : Opener K) (p : Platform K) (about : About) where
  -- The branch on cfg.accessLogPath: what is closed when runHTTP returns.
  unfoldable pub open_log : Text → Io (Machine K E) (Option AccessLogger)
  open_log path =
      if is_empty path
      then pure none
      else (do al ← on_outside (new_access_logger h.open_file h.close_file path); set_access_log al)

  unfoldable pub close_log : Option AccessLogger → Machine K E → Machine K E
  close_log none s = s
  close_log (some al) s = record s {
    outside = close h.open_file h.close_file al s.outside;
    events = s.events ++ (log_closed al ∷ []);
  }

  abbrev pub print_line : Text → Io (Machine K E) (Unit {0})
  print_line line = do on_outside (h.print line); note (stdout line)

  abbrev pub startup_for : Option (OauthServer K) → Text → Text → Io (Machine K E) (Unit {0})
  startup_for none addr public_url =
      note (stderr (startup_banner_http h.tools.itoa about.name about.version about.tools addr))
  startup_for (some server) addr public_url = do
    note (stderr (startup_banner_http_oauth h.tools.itoa about.name about.version about.tools addr))
    code ← on_world (λ w. (
      attempted (pairing_code (record p { store = server.secrets }) w).0,
      (pairing_code (record p { store = server.secrets }) w).1,
    ))
    print_line (oauth_boot_info addr public_url code)

  -- printHTTPStartup, with writeOAuthBootInfo
  unfoldable pub print_http_startup : Text → Text → Io (Machine K E) (Unit {0})
  print_http_startup addr public_url s = startup_for s.oauth addr public_url s

  abbrev pub served_with : Option Problem → Attempt (Unit {0})
  served_with none = done tt
  served_with (some e) = failed e

  abbrev pub serve_listener : Io (Machine K E) (Unit {0})
  serve_listener s =
      let (result, outside) = h.serve (server_of s.oauth) s.access_log s.outside in
      (
        served_with result,
        record s {
          outside = outside;
          events = s.events ++ (served (server_of s.oauth) s.access_log ∷ []);
        },
      )

  -- ServeHTTP and serveHTTP
  unfoldable pub serve_http : Text → Io (Machine K E) (Unit {0})
  serve_http addr = do on_outside (h.listen addr); serve_listener

  -- The rest of runHTTP once the tunnel is wired.
  unfoldable pub serve_at : HttpServeConfig → Text → Io (Machine K E) (Unit {0})
  serve_at cfg public_url = do
    oauth ← on_world (
        setup_oauth o h.tools.quote p (oauth_service about.keyring_service about.name)
          cfg.oauth_mode public_url)
    set_oauth oauth
    print_http_startup cfg.addr public_url
    serve_http cfg.addr

  -- The method Error.
  unfoldable pub problem_text : Problem → Text
  problem_text (message m) = m
  problem_text (fault e) = h.fault_text e
  problem_text (wrapped m e) = m ++ (text ": " ++ problem_text e)
  problem_text (followed e m) = problem_text e ++ (text ": " ++ m)

  abbrev pub teardown_line : Text → Attempt (Unit {0}) → Text
  teardown_line mode (done _) = text "tailscale " ++ (mode ++ text ": shut down")
  teardown_line mode (failed e) =
      text "tailscale "
      ++ (mode
          ++ (text " teardown: " ++ problem_text (wrapped (text "stopping tailscale " ++ mode) e)))

  -- The deferred teardown of the tunnel.
  unfoldable pub tear_down : Text → List Text → Machine K E → Machine K E
  tear_down mode args s =
      let (result, outside) = h.cmd_runner.run args s.outside in
      record s {
        outside = outside;
        events = s.events ++ (tunnel_down args ∷ stderr (teardown_line mode result) ∷ []);
      }

  unfoldable pub with_tunnel :
      HttpServeConfig → Text → Option (List Text) → Io (Machine K E) (Unit {0})
  with_tunnel cfg public_url none = serve_at cfg public_url
  with_tunnel cfg public_url (some args) = do
    note (
        stderr (
          text "tailscale "
          ++ (cfg.tailscale_mode
              ++ (text ": "
                  ++ (public_url
                      ++ (text " → "
                          ++ (http_url cfg.addr ++ text " (will shut down on exit)")))))))
    finally (tear_down cfg.tailscale_mode args) (serve_at cfg public_url)

  -- The rest of runHTTP once the log is open.
  unfoldable pub run_tunnel : HttpServeConfig → Io (Machine K E) (Unit {0})
  run_tunnel cfg = do
    (public_url, teardown) ← on_outside (
        wire_tailscale h.tools h.cmd_runner cfg.tailscale_mode cfg.tailscale_port cfg.addr
          cfg.public_url)
    with_tunnel cfg public_url teardown

  unfoldable pub run_http : HttpServeConfig → Io (Machine K E) (Unit {0})
  run_http cfg = do al ← open_log cfg.access_log_path; finally (close_log al) (run_tunnel cfg)

  -- setupHint
  unfoldable pub setup_hint : Text
  setup_hint =
      text
        "This is an MCP server: it speaks JSON-RPC over stdin/stdout and is meant to be\nlaunched by an MCP client, not run by hand. To register it, add this to your MCP\nclient config (Claude Desktop / Cursor / VS Code / Windsurf / …):\n\n    "
      ++ (mcp_servers_config h.tools.quote (banner_name about.name) about.executable true
          ++ (text "\n\n…or, with the Claude Code CLI:\n\n    "
              ++ (claude_mcp_add_line (banner_name about.name) about.executable
                  ++ text
                      "\n\nNow waiting for an MCP client to connect on stdin — press Ctrl-C to exit.")))

  abbrev pub hint : Io (Machine K E) (Unit {0})
  hint s =
      if h.stdin_is_interactive s.outside
      then note (stderr (text "\n" ++ setup_hint)) s
      else pure tt s

  unfoldable pub run_stdio : Io (Machine K E) (Unit {0})
  run_stdio = do
    note (stderr (startup_banner h.tools.itoa about.name about.version about.tools))
    hint
    note served_stdio
    on_outside h.serve_stdio

  -- The RunE of Command.
  unfoldable pub run_mcp : HttpServeConfig → Io (Machine K E) (Unit {0})
  run_mcp cfg =
      if not (is_empty cfg.tailscale_mode) && is_empty cfg.addr
      then fail (message (text "--tailscale requires --http (it fronts the local HTTP listener)"))
      else if not (is_empty cfg.addr)
      then run_http cfg
      else run_stdio
