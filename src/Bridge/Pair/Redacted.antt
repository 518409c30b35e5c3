-- ===== src/Bridge/Pair/Redacted.antt =====
-- That `pair list` shows no pairing code.
use lib_agent_mcp.Prelude.{◌≡◌, refl, ap, List, [], ◌∷◌, ◌++◌}
use lib_agent_mcp.Prelude.Text.{Text, text}
use lib_agent_mcp.Prelude.Dict.{Dict, lookup, sorted, keys}
use lib_agent_mcp.Exec.{ok}
use lib_agent_mcp.Oauth.MapStore
use lib_agent_mcp.Oauth.World.{PrincipalRecord}
use lib_agent_mcp.Oauth.Server.{Platform}
use lib_agent_mcp.Oauth.Principal.{principals, bindings, list_principals}
use lib_agent_mcp.Bridge.Io.{Attempt, done, failed, Io, next}
use lib_agent_mcp.Bridge.OauthSetup.{Opener, OauthSecretStore, oauth_store, oauth_service}
use lib_agent_mcp.Bridge.Startup.{About, Host, Machine, note, stdout, print_line}
use lib_agent_mcp.Bridge.Pair.{
  format_principal_line, binding_of, opened_store, pairing, list_of, print_principals, pair_list,
}

module _ {K E : Type 0} (h : Host E) (o : Opener K) (p : Platform K) (about : About) where
  -- What a person at the terminal sees of a run: whether it failed and how, and what was written.
  pub record SameOutput (r r' : Attempt (Unit {0}) × Machine K E) : Type 0 where
    pub same_result : r.0 ≡ r'.0
    pub same_events : r.1.events ≡ r'.1.events
    pub same_outside : r.1.outside ≡ r'.1.outside

  next-SameOutput :
      (a : Attempt (Unit {0})) (m : Io (Machine K E) (Unit {0})) (s s' : Machine K E)
      → s.events ≡ s'.events
      → s.outside ≡ s'.outside
      → ((t t' : Machine K E)
          → t.events ≡ t'.events
          → t.outside ≡ t'.outside
          → SameOutput (m t) (m t'))
      → SameOutput (next a (λ _. m) s) (next a (λ _. m) s')
  next-SameOutput (done a) m s s' e f same = same s s' e f
  next-SameOutput (failed b) m s s' e f same = record {
    same_result = refl;
    same_events = e;
    same_outside = f;
  }

  print_line-SameOutput :
      (line : Text) (s s' : Machine K E)
      → s.events ≡ s'.events
      → s.outside ≡ s'.outside
      → SameOutput (print_line h o p about line s) (print_line h o p about line s')
  print_line-SameOutput line s s' e f = rw (f) (
      next-SameOutput (h.print line s'.outside).0 (note (stdout line))
        (record s { outside = (h.print line s'.outside).1 })
        (record s' { outside = (h.print line s'.outside).1 }) e refl
        (λ t t' same g. record {
          same_result = refl;
          same_events = ap (λ es. es ++ (stdout line ∷ [])) same;
          same_outside = g;
        }))

  step-SameOutput :
      (r r' : Attempt (Unit {0}) × Machine K E) (m : Io (Machine K E) (Unit {0}))
      → SameOutput r r'
      → ((t t' : Machine K E)
          → t.events ≡ t'.events
          → t.outside ≡ t'.outside
          → SameOutput (m t) (m t'))
      → SameOutput (next r.0 (λ _. m) r.1) (next r'.0 (λ _. m) r'.1)
  step-SameOutput r r' m same each =
      rw (same.same_result)
        (next-SameOutput r'.0 m r.1 r'.1 same.same_events same.same_outside each)

  print_principals-SameOutput :
      (ps : Dict (Dict Text)) (names : List Text) (s s' : Machine K E)
      → s.events ≡ s'.events
      → s.outside ≡ s'.outside
      → SameOutput
          (print_principals h o p about ps names s)
          (print_principals h o p about ps names s')
  unfolding print_principals
  print_principals-SameOutput ps [] s s' e f = record {
    same_result = refl;
    same_events = e;
    same_outside = f;
  }
  print_principals-SameOutput ps (name ∷ names) s s' e f =
      let line = format_principal_line name (binding_of (lookup name ps)) ++ text "\n" in
      step-SameOutput (print_line h o p about line s) (print_line h o p about line s')
        (print_principals h o p about ps names) (print_line-SameOutput line s s' e f)
        (print_principals-SameOutput ps names)

  list_of-SameOutput :
      (ps : Dict (Dict Text)) (s s' : Machine K E)
      → s.events ≡ s'.events
      → s.outside ≡ s'.outside
      → SameOutput (list_of h o p about ps s) (list_of h o p about ps s')
  list_of-SameOutput [] s s' e f =
      print_line-SameOutput (text "no named principals (only the shared operator pairing code)\n") s
        s' e f
  list_of-SameOutput (q ∷ qs) s s' e f =
      print_principals-SameOutput (q ∷ qs) (sorted (keys (q ∷ qs))) s s' e f

  -- What `pair list` reads: the store, and the principals in it.
  pub record Listed (s : Machine K E) (m : Dict PrincipalRecord) : Type 0 where
    pub store : OauthSecretStore K
    pub secrets : K
    pub loaded : K
    pub opened :
        oauth_store o (oauth_service about.keyring_service about.name) s.world.secrets
        ≡ (done store, secrets)
    pub read :
        MapStore.load (principals store.secrets p.principals_json p.rand) secrets ≡ (ok m, loaded)

  pair_list-Listed :
      (s : Machine K E) {m : Dict PrincipalRecord} (l : Listed s m)
      → pair_list h o p about s
        ≡ list_of h o p about
            (bindings m)
            (record s { world = record s.world { secrets = l.loaded } })
  unfolding pair_list pairing opened_store list_principals
  pair_list-Listed s l = rw (l.opened, l.read) refl

  -- What `pair list` prints, and whether it fails, is the same for any two stores that can be read
  -- and whose principals have the same names and bindings in the same order, whatever the pairing
  -- codes and the other secrets in them.
  pub pair_list-redacted :
      (s s' : Machine K E) {m m' : Dict PrincipalRecord}
      → Listed s m
      → Listed s' m'
      → bindings m ≡ bindings m'
      → s.events ≡ s'.events
      → s.outside ≡ s'.outside
      → SameOutput (pair_list h o p about s) (pair_list h o p about s')
  pair_list-redacted s s' {m} {m'} l l' same e f =
      rw (pair_list-Listed s l, pair_list-Listed s' l', same)
        (list_of-SameOutput (bindings m')
          (record s { world = record s.world { secrets = l.loaded } })
          (record s' { world = record s'.world { secrets = l'.loaded } }) e f)
