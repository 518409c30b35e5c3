-- ===== src/Bridge/Startup/TearDown.antt =====
-- That a start takes down the tunnel that it brought up.
use lib_agent_mcp.Prelude.{
  ◌≡◌, ◌∙◌, ap, sym, refl, inl, inr, Bool-cases, arith, Bool, true, false, Option, none, some, List,
  [], ◌∷◌, ◌++◌, All, All-append,
}
use mathlib.Core.List.{append_assoc, append-nil}
use lib_agent_mcp.Prelude.Text.{Text, text, is_empty}
use lib_agent_mcp.Oauth.Server.{Platform}
use lib_agent_mcp.Bridge.Io.{Attempt, Attempt-cases, done, failed, next, ◌>>◌}
use lib_agent_mcp.Bridge.Tailscale.{wire_tailscale}
use lib_agent_mcp.Bridge.Tailscale.Laws.{IsUp, wire_tailscale-IsUp}
use lib_agent_mcp.Bridge.AccessLog.{AccessLogger, new_access_logger}
use lib_agent_mcp.Bridge.OauthSetup.{OauthServer, Opener, oauth_service, setup_oauth}
use lib_agent_mcp.Bridge.Startup.{
  server_of, HttpServeConfig, About, Host, Event, stderr, stdout, served, served_stdio, tunnel_down,
  log_closed, Machine, set_oauth, note, open_log, close_log, print_http_startup, serve_http,
  serve_at, tear_down, teardown_line, with_tunnel, run_tunnel, run_http,
}
use lib_agent_mcp.Bridge.Banner.{http_url}
use lib_agent_mcp.Bridge.Startup.Laws.{Keeps, >>=-Keeps, print_http_startup-Keeps, serve_http-Keeps}

-- Whether the event ends the tunnel or the log.
unfoldable pub is_cleanup : Event → Bool
is_cleanup (tunnel_down _) = true
is_cleanup (log_closed _) = true
is_cleanup (stderr _) = false
is_cleanup (stdout _) = false
is_cleanup (served _ _) = false
is_cleanup served_stdio = false

-- What was done since the first events, and that none of it was a cleanup.
pub record Grown (first events : List Event) : Type 0 where
  pub since : List Event
  pub appended : events ≡ first ++ since
  pub quiet : All (λ e. is_cleanup e ≡ false) since

append-Grown :
    (first events : List Event) (e : Event)
    → is_cleanup e ≡ false
    → Grown first events
    → Grown first (events ++ (e ∷ []))
append-Grown first events e q g = record {
  since = g.since ++ (e ∷ []);
  appended = rw (g.appended) (append_assoc first g.since (e ∷ []));
  quiet = All-append (λ e. is_cleanup e ≡ false) g.since (e ∷ []) g.quiet (q, tt);
}

-- What a log that was opened leaves to be done.
abbrev pub closing : Option AccessLogger → List Event
closing none = []
closing (some al) = log_closed al ∷ []

-- What is left of a tunnel and its log at the end, behind everything else that was done.
pub record TornDown (first : List Event) (down : List Text) (al : Option AccessLogger)
    (last : List Event) : Type 0 where
  pub since : List Event
  pub line : Text
  pub ending : last ≡ first ++ (since ++ (tunnel_down down ∷ stderr line ∷ closing al))
  pub quiet : All (λ e. is_cleanup e ≡ false) since

torn_down :
    (first : List Event) (e : Event) (down : List Text) (line : Text) (al : Option AccessLogger)
    (served_events : List Event)
    → is_cleanup e ≡ false
    → Grown (first ++ (e ∷ [])) served_events
    → TornDown first down al
        ((served_events ++ (tunnel_down down ∷ stderr line ∷ [])) ++ closing al)
torn_down first e down line al served_events q g = record {
  since = e ∷ g.since;
  line = line;
  ending =
      rw (g.appended, append_assoc first (e ∷ []) g.since)
        (append_assoc (first ++ (e ∷ g.since)) (tunnel_down down ∷ stderr line ∷ []) (closing al)
          ∙ append_assoc first (e ∷ g.since) (tunnel_down down ∷ stderr line ∷ closing al));
  quiet = (q, g.quiet);
}

module _ {K E : Type 0} (h : Host E) (o : Opener K) (p : Platform K) (about : About) where
  abbrev Since : List Event → List Event → Option (OauthServer K) → Option AccessLogger → Type 0
  Since first events _ _ = Grown first events

  begun-Keeps :
      (first : List Event) (addr public_url : Text)
      → Keeps h o p about
          (Since first)
          (print_http_startup h o p about addr public_url >> serve_http h o p about addr)
  unfolding is_cleanup
  begun-Keeps first addr public_url =
      >>=-Keeps h o p about (Since first) (print_http_startup h o p about addr public_url)
        (λ _. serve_http h o p about addr)
        (print_http_startup-Keeps h o p about (Since first)
          (λ t s g. append-Grown first s.events (stderr t) refl g)
          (λ t s g. append-Grown first s.events (stdout t) refl g) addr public_url)
        (λ _.
          serve_http-Keeps h o p about (Since first) addr
            (λ s g. append-Grown first s.events (served (server_of s.oauth) s.access_log) refl g))

  set_oauth-Keeps :
      (first : List Event) (server : Option (OauthServer K)) (s : Machine K E)
      → Grown first s.events
      → Grown first (set_oauth server s).1.events
  set_oauth-Keeps first none s g = g
  set_oauth-Keeps first (some server) s g = g

  next_begun :
      (first : List Event) (addr public_url : Text) (r : Attempt (Option (OauthServer K)))
      (s : Machine K E)
      → Grown first s.events
      → Grown first
          (next r
            (λ server.
              set_oauth server
              >> (print_http_startup h o p about addr public_url >> serve_http h o p about addr))
            s).1.events
  next_begun first addr public_url (failed e) s g = g
  next_begun first addr public_url (done none) s g = begun-Keeps first addr public_url s g
  next_begun first addr public_url (done (some server)) s g =
      begun-Keeps first addr public_url (set_oauth (some server) s).1 g

  serve_at-Grown :
      (cfg : HttpServeConfig) (public_url : Text) (s : Machine K E)
      → Grown s.events (serve_at h o p about cfg public_url s).1.events
  unfolding serve_at
  serve_at-Grown cfg public_url s =
      next_begun s.events cfg.addr public_url
        (setup_oauth o h.tools.quote p (oauth_service about.keyring_service about.name)
          cfg.oauth_mode public_url s.world).0
        (record s {
          world =
              (setup_oauth o h.tools.quote p (oauth_service about.keyring_service about.name)
                cfg.oauth_mode public_url s.world).1;
        })
        (record { since = []; appended = sym (append-nil s.events); quiet = tt })

  open_log-events :
      (path : Text) (s : Machine K E) → (open_log h o p about path s).1.events ≡ s.events
  unfolding open_log
  open_log-events path s = elim (Bool-cases (is_empty path)) [
    | inl none_given ↦ rw (none_given) refl
    | inr given ↦
        elim (Attempt-cases (new_access_logger h.open_file h.close_file path s.outside).0) [
          | inl (al, opened) ↦ rw (given, opened) refl
          | inr (e, refused) ↦ rw (given, refused) refl
        ]
  ]

  pub close_log-events :
      (al : Option AccessLogger) (s : Machine K E)
      → (close_log h o p about al s).events ≡ s.events ++ closing al
  unfolding close_log
  close_log-events none s = sym (append-nil s.events)
  close_log-events (some al) s = refl

  with_tunnel-TornDown :
      (cfg : HttpServeConfig) (public_url : Text) (down : List Text) (al : Option AccessLogger)
      (s : Machine K E)
      → TornDown s.events down al
          (close_log h o p about al (with_tunnel h o p about cfg public_url (some down) s).1).events
  unfolding with_tunnel tear_down is_cleanup
  with_tunnel-TornDown cfg public_url down al s =
      let line =
        text "tailscale "
        ++ (cfg.tailscale_mode
            ++ (text ": "
                ++ (public_url
                    ++ (text " → " ++ (http_url cfg.addr ++ text " (will shut down on exit)"))))) in
      let t = (serve_at h o p about cfg public_url (note (stderr line) s).1).1 in
      let end = teardown_line h o p about cfg.tailscale_mode (h.cmd_runner.run down t.outside).0 in
      rw (close_log-events al (tear_down h o p about cfg.tailscale_mode down t)) (
        torn_down s.events (stderr line) down end al t.events refl
          (serve_at-Grown cfg public_url (note (stderr line) s).1))

  -- If the access log could be opened, where one is asked for, and a tunnel was brought up, then
  -- the tunnel is for an allowed mode and port and its command ran last; and whatever happens
  -- afterwards, an error in the set-up of OAuth, in printing or in listening included, the start
  -- ends with the teardown of just this mode and port, a line about it and then the close of the
  -- log, none of which happened earlier.
  pub run_http-TornDown :
      (cfg : HttpServeConfig) (s : Machine K E) {al : Option AccessLogger} {s1 : Machine K E}
      {public_url : Text} {down : List Text} {e2 : E}
      → open_log h o p about cfg.access_log_path s ≡ (done al, s1)
      → wire_tailscale h.tools h.cmd_runner cfg.tailscale_mode cfg.tailscale_port cfg.addr
          cfg.public_url s1.outside
        ≡ (done (public_url, some down), e2)
      → IsUp h.tools h.cmd_runner cfg.tailscale_mode cfg.tailscale_port cfg.addr down e2
        × TornDown s.events down al (run_http h o p about cfg s).1.events
  unfolding run_http run_tunnel
  run_http-TornDown cfg s {al} {s1} {public_url} {down} {e2} opened wired =
      let up =
        wire_tailscale-IsUp h.tools h.cmd_runner cfg.tailscale_mode cfg.tailscale_port cfg.addr
          cfg.public_url s1.outside (ap (λ r. r.0) wired) in
      let same : s1.events ≡ s.events =
        sym (ap (λ r. r.1.events) opened) ∙ open_log-events cfg.access_log_path s in
      (
        elim up [
          | inl (absent, _, none_up, _) ↦ cc
          | inr (d, is_d, up) ↦
              let same_down : d ≡ down = ground arith in
              let end : (wire_tailscale h.tools h.cmd_runner cfg.tailscale_mode cfg.tailscale_port
                    cfg.addr cfg.public_url s1.outside).1
                  ≡ e2 =
                ap (λ r. r.1) wired in
              rw (same_down, end) at up
        ],
        rw (opened, wired, sym same)
            (with_tunnel-TornDown cfg public_url down al (record s1 { outside = e2 })),
      )
