-- ===== src/Bridge/Startup/Laws.antt =====
-- Properties of what was done so far that the steps of a start keep.
use lib_agent_mcp.Prelude.{Option, none, some, List, [], ◌∷◌, ◌++◌}
use lib_agent_mcp.Prelude.Text.{Text}
use lib_agent_mcp.Oauth.Server.{Platform, pairing_code}
use lib_agent_mcp.Bridge.Io.{attempted, Attempt, done, failed, Io, next, ◌>>=◌}
use lib_agent_mcp.Bridge.AccessLog.{AccessLogger}
use lib_agent_mcp.Bridge.OauthSetup.{OauthServer, Opener, oauth_boot_info}
use lib_agent_mcp.Bridge.Banner.{startup_banner_http_oauth}
use lib_agent_mcp.Bridge.Startup.{
  server_of, About, Host, Event, stderr, stdout, served, Machine, on_outside, note, startup_for,
  print_http_startup, serve_listener, serve_http, print_line,
}

module _ {K E : Type 0} (h : Host E) (o : Opener K) (p : Platform K) (about : About) where
  -- A property of what was done so far and of the two fields, that printing keeps.
  module _ (J : List Event → Option (OauthServer K) → Option AccessLogger → Type 0) where
    abbrev pub Holds : Machine K E → Type 0
    Holds s = J s.events s.oauth s.access_log

    abbrev pub Keeps : {A : Type 0} → Io (Machine K E) A → Type 0
    Keeps m = (s : Machine K E) → Holds s → Holds (m s).1

    pub next-Holds :
        {A B : Type 0} (r : Attempt A) (f : A → Io (Machine K E) B) (s : Machine K E)
        → ((a : A) → Keeps (f a))
        → Holds s
        → Holds (next r f s).1
    next-Holds (done a) f s keeps hs = keeps a s hs
    next-Holds (failed e) f s keeps hs = hs

    pub >>=-Keeps :
        {A B : Type 0} (m : Io (Machine K E) A) (f : A → Io (Machine K E) B)
        → Keeps m
        → ((a : A) → Keeps (f a))
        → Keeps (m >>= f)
    >>=-Keeps m f hm hf s hs = next-Holds (m s).0 f (m s).1 hf (hm s hs)

    pub serve_http-Keeps :
        (addr : Text)
        → ((s : Machine K E)
            → Holds s
            → J (s.events ++ (served (server_of s.oauth) s.access_log ∷ [])) s.oauth s.access_log)
        → Keeps (serve_http h o p about addr)
    unfolding serve_http
    serve_http-Keeps addr on_served =
        >>=-Keeps {A = Unit {0}} (on_outside (h.listen addr)) (λ _. serve_listener h o p about)
          (λ s hs. hs) (λ _ s hs. on_served s hs)

    module _ (on_stderr : (t : Text) → Keeps (note (stderr t)))
        (on_stdout : (t : Text) → Keeps (note (stdout t))) where
      print_line-Keeps : (line : Text) → Keeps (print_line h o p about line)
      print_line-Keeps line s hs =
          next-Holds (h.print line s.outside).0 (λ _. note (stdout line))
            (record s { outside = (h.print line s.outside).1 }) (λ _. on_stdout line) hs

      startup_for-Keeps :
          (server : Option (OauthServer K)) (addr public_url : Text)
          → Keeps (startup_for h o p about server addr public_url)
      startup_for-Keeps none addr public_url s hs = on_stderr _ s hs
      startup_for-Keeps (some server) addr public_url s hs =
          let banner =
            startup_banner_http_oauth h.tools.itoa about.name about.version about.tools addr in
          let s1 = (note {E = E} (stderr banner) s).1 in
          next-Holds (attempted (pairing_code (record p { store = server.secrets }) s.world).0)
            (λ code. print_line h o p about (oauth_boot_info addr public_url code))
            (record s1 { world = (pairing_code (record p { store = server.secrets }) s.world).1 })
            (λ code. print_line-Keeps (oauth_boot_info addr public_url code))
            (on_stderr banner s hs)

      pub print_http_startup-Keeps :
          (addr public_url : Text) → Keeps (print_http_startup h o p about addr public_url)
      unfolding print_http_startup
      print_http_startup-Keeps addr public_url s hs = startup_for-Keeps s.oauth addr public_url s hs
