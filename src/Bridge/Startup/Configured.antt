-- ===== src/Bridge/Startup/Configured.antt =====
-- That what a start serves is what its flags ask for.
use lib_agent_mcp.Prelude.{
  ◌≡◌, inl, inr, ◌∙◌, ap, refl, arith, true, false, not, Bool-cases, Option, none, some, List, [],
  ◌∷◌, ◌++◌, All, All-append,
}
use lib_agent_mcp.Prelude.Text.{Text, text, is_empty}
use lib_agent_mcp.Oauth.World.{World}
use lib_agent_mcp.Oauth.Server.{Platform}
use lib_agent_mcp.Bridge.Io.{Attempt, Attempt-cases, done, failed, next, ◌>>◌}
use lib_agent_mcp.Bridge.Tailscale.{wire_tailscale}
use lib_agent_mcp.Bridge.AccessLog.{AccessLogger, new_access_logger}
use lib_agent_mcp.Bridge.OauthSetup.{OauthServer, Opener, oauth_service, setup_oauth}
use lib_agent_mcp.Bridge.OauthSetup.Laws.{is_given, setup_oauth-is_given}
use lib_agent_mcp.Bridge.Banner.{http_url}
use lib_agent_mcp.Bridge.Startup.{
  server_of, HttpServeConfig, About, Host, Event, stderr, stdout, served, served_stdio, tunnel_down,
  log_closed, Machine, set_oauth, note, open_log, close_log, print_http_startup, serve_http,
  serve_at, tear_down, with_tunnel, run_tunnel, run_http, run_stdio, run_mcp,
}
use lib_agent_mcp.Bridge.Startup.Laws.{Keeps, >>=-Keeps, print_http_startup-Keeps, serve_http-Keeps}

is_given-server_of : {K : Type 0} (o : Option (OauthServer K)) → is_given (server_of o) ≡ is_given o
is_given-server_of none = refl
is_given-server_of (some o) = refl

-- What an event may be, for the flags of a start: HTTP is served only where --http is given, with the
-- OAuth gate exactly where --oauth is given, and with a log exactly where --access-log is given.
unfoldable pub IsConfigured : HttpServeConfig → Event → Type 0
IsConfigured cfg (served oauth al) =
    (is_empty cfg.addr ≡ false)
    × (is_given oauth ≡ not (is_empty cfg.oauth_mode))
    × (is_given al ≡ not (is_empty cfg.access_log_path))
IsConfigured cfg served_stdio = is_empty cfg.addr ≡ true
IsConfigured cfg (tunnel_down _) =
    (is_empty cfg.addr ≡ false) × (is_empty cfg.tailscale_mode ≡ false)
IsConfigured cfg (log_closed _) = is_empty cfg.addr ≡ false
IsConfigured cfg (stderr _) = Unit
IsConfigured cfg (stdout _) = Unit

-- A program that has just started, around what is outside it.
abbrev pub start : {K E : Type 0} → World K → E → Machine K E
start world outside = record {
  world = world;
  outside = outside;
  oauth = none;
  access_log = none;
  events = [];
}

module _ {K E : Type 0} (h : Host E) (o : Opener K) (p : Platform K) (about : About) where
  -- What is known before and after the OAuth layer is set up.
  abbrev Before :
      HttpServeConfig → List Event → Option (OauthServer K) → Option AccessLogger → Type 0
  Before cfg events oauth al =
      All (IsConfigured cfg) events
      × (oauth ≡ none)
      × (is_given al ≡ not (is_empty cfg.access_log_path))

  abbrev After :
      HttpServeConfig → List Event → Option (OauthServer K) → Option AccessLogger → Type 0
  After cfg events oauth al =
      All (IsConfigured cfg) events
      × (is_given oauth ≡ not (is_empty cfg.oauth_mode))
      × (is_given al ≡ not (is_empty cfg.access_log_path))

  begun-After :
      (cfg : HttpServeConfig) (public_url : Text)
      → is_empty cfg.addr ≡ false
      → Keeps h o p about
          (After cfg)
          (print_http_startup h o p about cfg.addr public_url >> serve_http h o p about cfg.addr)
  unfolding IsConfigured
  begun-After cfg public_url http =
      >>=-Keeps h o p about (After cfg) (print_http_startup h o p about cfg.addr public_url)
        (λ _. serve_http h o p about cfg.addr)
        (print_http_startup-Keeps h o p about (After cfg)
          (λ t s (e, g, l).
            (All-append (IsConfigured cfg) s.events (stderr t ∷ []) e (tt, tt), g, l))
          (λ t s (e, g, l).
            (All-append (IsConfigured cfg) s.events (stdout t ∷ []) e (tt, tt), g, l))
          cfg.addr public_url)
        (λ _. serve_http-Keeps h o p about (After cfg) cfg.addr (λ s (e, g, l). (
          All-append (IsConfigured cfg) s.events (served (server_of s.oauth) s.access_log ∷ []) e
              ((http, is_given-server_of s.oauth ∙ g, l), tt),
          g,
          l,
        )))

  next_begun :
      (cfg : HttpServeConfig) (public_url : Text) (r : Attempt (Option (OauthServer K)))
      (s : Machine K E)
      → is_empty cfg.addr ≡ false
      → ((server : Option (OauthServer K))
          → r ≡ done server
          → is_given server ≡ not (is_empty cfg.oauth_mode))
      → Before cfg s.events s.oauth s.access_log
      → All
          (IsConfigured cfg)
          (next r
            (λ server.
              set_oauth server
              >> (print_http_startup h o p about cfg.addr public_url
                  >> serve_http h o p about cfg.addr))
            s).1.events
  next_begun cfg public_url (failed e) s http shape b = b.0
  next_begun cfg public_url (done none) s http shape (e, was, l) =
      (begun-After cfg public_url http s (e, ap is_given was ∙ shape _ refl, l)).0
  next_begun cfg public_url (done (some server)) s http shape (e, was, l) =
      (begun-After cfg public_url http (set_oauth (some server) s).1 (e, shape _ refl, l)).0

  serve_at-IsConfigured :
      (cfg : HttpServeConfig) (public_url : Text) (s : Machine K E)
      → is_empty cfg.addr ≡ false
      → Before cfg s.events s.oauth s.access_log
      → All (IsConfigured cfg) (serve_at h o p about cfg public_url s).1.events
  unfolding serve_at
  serve_at-IsConfigured cfg public_url s http b =
      let service = oauth_service about.keyring_service about.name in
      let set = setup_oauth o h.tools.quote p service cfg.oauth_mode public_url s.world in
      next_begun cfg public_url set.0 (record s { world = set.1 }) http
        (λ _ e. setup_oauth-is_given o h.tools.quote p service cfg.oauth_mode public_url s.world e)
        b

  with_tunnel-IsConfigured :
      (cfg : HttpServeConfig) (public_url : Text) (down : Option (List Text)) (s : Machine K E)
      → is_empty cfg.addr ≡ false
      → (is_given down ≡ true → is_empty cfg.tailscale_mode ≡ false)
      → Before cfg s.events s.oauth s.access_log
      → All (IsConfigured cfg) (with_tunnel h o p about cfg public_url down s).1.events
  unfolding with_tunnel tear_down IsConfigured
  with_tunnel-IsConfigured cfg public_url none s http asked b =
      serve_at-IsConfigured cfg public_url s http b
  with_tunnel-IsConfigured cfg public_url (some down) s http asked (e, was, l) =
      let line =
        text "tailscale "
        ++ (cfg.tailscale_mode
            ++ (text ": "
                ++ (public_url
                    ++ (text " → " ++ (http_url cfg.addr ++ text " (will shut down on exit)"))))) in
      let s1 = (note {K = K} {E = E} (stderr line) s).1 in
      let t = (serve_at h o p about cfg public_url s1).1 in
      All-append (IsConfigured cfg) t.events (tunnel_down down ∷ stderr _ ∷ [])
        (serve_at-IsConfigured cfg public_url s1 http
          (All-append (IsConfigured cfg) s.events (stderr line ∷ []) e (tt, tt), was, l))
        ((http, asked refl), (tt, tt))

  wire_tailscale-absent :
      (cfg : HttpServeConfig) (s : E) {url : Text} {down : Option (List Text)}
      → (wire_tailscale h.tools h.cmd_runner cfg.tailscale_mode cfg.tailscale_port cfg.addr
          cfg.public_url s).0
        ≡ done (url, down)
      → is_given down ≡ true
      → is_empty cfg.tailscale_mode ≡ false
  unfolding wire_tailscale
  wire_tailscale-absent cfg s e up = elim (Bool-cases (is_empty cfg.tailscale_mode)) [
    | inl absent ↦ ground (arith, rw (absent) at e)
    | inr present ↦ present
  ]

  run_tunnel-IsConfigured :
      (cfg : HttpServeConfig) (s : Machine K E)
      → is_empty cfg.addr ≡ false
      → Before cfg s.events s.oauth s.access_log
      → All (IsConfigured cfg) (run_tunnel h o p about cfg s).1.events
  unfolding run_tunnel
  run_tunnel-IsConfigured cfg s http b =
      let wired =
        wire_tailscale h.tools h.cmd_runner cfg.tailscale_mode cfg.tailscale_port cfg.addr
          cfg.public_url s.outside in
      elim (Attempt-cases wired.0) [
        | inl ((url, down), e) ↦ rw (e) (
            with_tunnel-IsConfigured cfg url down (record s { outside = wired.1 }) http
              (wire_tailscale-absent cfg s.outside e) b)
        | inr (bad, e) ↦ rw (e) (b.0)
      ]

  closed-IsConfigured :
      (cfg : HttpServeConfig) (al : Option AccessLogger) (s : Machine K E)
      → is_empty cfg.addr ≡ false
      → All (IsConfigured cfg) s.events
      → All (IsConfigured cfg) (close_log h o p about al s).events
  unfolding close_log IsConfigured
  closed-IsConfigured cfg none s http e = e
  closed-IsConfigured cfg (some al) s http e =
      All-append (IsConfigured cfg) s.events (log_closed al ∷ []) e (http, tt)

  run_http-IsConfigured :
      (cfg : HttpServeConfig) (s : Machine K E)
      → is_empty cfg.addr ≡ false
      → All (IsConfigured cfg) s.events
      → s.oauth ≡ none
      → s.access_log ≡ none
      → All (IsConfigured cfg) (run_http h o p about cfg s).1.events
  unfolding run_http open_log
  run_http-IsConfigured cfg s http e was unset =
      let file = new_access_logger h.open_file h.close_file cfg.access_log_path s.outside in
      elim (Bool-cases (is_empty cfg.access_log_path)) [
        | inl off ↦ rw (off) (
            closed-IsConfigured cfg none (run_tunnel h o p about cfg s).1 http
              (run_tunnel-IsConfigured cfg s http (e, was, ground arith)))
        | inr on ↦ elim (Attempt-cases file.0) [
          | inl (al, opened) ↦
              let s1 = record s { outside = file.1; access_log = some al } in
              rw (on, opened)
                (closed-IsConfigured cfg (some al) (run_tunnel h o p about cfg s1).1 http
                  (run_tunnel-IsConfigured cfg s1 http (e, was, ground arith)))
          | inr (bad, refused) ↦ rw (on, refused) e
        ]
      ]

  -- From a fresh start, HTTP is served, a log closed or a tunnel taken down only if --http is
  -- given, and stdio served only if it is not; where HTTP is served, the OAuth gate is there
  -- exactly if --oauth is not empty, and the access log exactly if --access-log is not; and a
  -- tunnel is taken down only if --tailscale is given.
  pub run_mcp-IsConfigured :
      (cfg : HttpServeConfig) (world : World K) (outside : E)
      → All (IsConfigured cfg) (run_mcp h o p about cfg (start world outside)).1.events
  unfolding run_mcp run_stdio IsConfigured
  run_mcp-IsConfigured cfg world outside = elim (Bool-cases (is_empty cfg.addr)) [
    | inr http ↦ rw (http) (elim (Bool-cases (is_empty cfg.tailscale_mode)) [
      | inl off ↦ rw (off) (run_http-IsConfigured cfg (start world outside) http tt refl refl)
      | inr on ↦ rw (on) (run_http-IsConfigured cfg (start world outside) http tt refl refl)
    ])
    | inl stdio ↦ rw (stdio) (elim (Bool-cases (is_empty cfg.tailscale_mode)) [
      | inr on ↦ rw (on) tt
      | inl off ↦ rw (off) (elim (Bool-cases (h.stdin_is_interactive outside)) [
        | inl terminal ↦ rw (terminal) (tt, (tt, (stdio, tt)))
        | inr pipe ↦ rw (pipe) (tt, (stdio, tt))
      ])
    ])
  ]
