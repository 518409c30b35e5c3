-- ===== src/Bridge/Serving/Steps.antt =====
-- What the steps of serveHTTP keep: that Serve has returned, and that serveHTTP has.
use lib_agent_mcp.Prelude.{
  ◌≡◌, ◌≢◌, inl, inr, refl, ◌∙◌, ap, Bool, true, false, Option, none, some, Option-cases,
}
use lib_agent_mcp.Bridge.Io.{Problem}
use lib_agent_mcp.Bridge.Serving.{
  End, server_closed, HttpServer, Drainer, waiting, shutting_down, Serving, outcome, drained,
  drainer_turn, ended, main_turn, Step, cancel, drainer, main, outside, Run, nothing, after,
}

-- The documented behaviour of net/http: once Shutdown is called, Serve returns ErrServerClosed at
-- once, which it does not return before; and a result stays.
pub record IsHttpServer {H E : Type 0} (server : HttpServer H E) : Type 0 where
  pub closes :
      (h : H) → server.returned h ≡ none → server.returned (server.shutdown h) ≡ some server_closed
  pub keeps :
      (h : H) (e : End) → server.returned h ≡ some e → server.returned (server.shutdown h) ≡ some e
  pub stays :
      (h : H) (m : E) (e : End)
      → server.returned h ≡ some e
      → server.returned (server.move m h) ≡ some e
  pub open_until :
      (h : H) (m : E)
      → server.returned h ≡ none
      → server.returned (server.move m h) ≢ some server_closed

module _ {H E : Type 0} (server : HttpServer H E) (law : IsHttpServer server) where
  -- Serve has returned, at the latest since Shutdown was called.
  unfoldable pub IsEnding : Serving H → Type 0
  IsEnding s = (e : End) × (server.returned s.http ≡ some e)

  unfoldable pub IsOver : Serving H → Type 0
  IsOver s = (r : Option Problem) × (s.result ≡ some r)

  pub IsEnding-shutdown : (h : H) → (e : End) × (server.returned (server.shutdown h) ≡ some e)
  IsEnding-shutdown h = elim (Option-cases (server.returned h)) [
    | inl running ↦ (server_closed, law.closes h running)
    | inr (e, done) ↦ (e, law.keeps h e done)
  ]

  drained-IsEnding :
      (c : Bool) (d : Drainer) (s : Serving H) → IsEnding s → IsEnding (drained server c d s)
  unfolding IsEnding
  drained-IsEnding true waiting s (e, h) = IsEnding-shutdown s.http
  drained-IsEnding true shutting_down s h = h
  drained-IsEnding false d s h = h

  ended-http :
      (r : Option (Option Problem)) (e : Option End) (s : Serving H)
      → (ended server r e s).http ≡ s.http
  ended-http none (some e) s = refl
  ended-http none none s = refl
  ended-http (some r) e s = refl

  Step-IsEnding : {s t : Serving H} → Step server s t → IsEnding s → IsEnding t
  unfolding IsEnding drainer_turn main_turn
  Step-IsEnding cancel h = h
  Step-IsEnding {s} drainer h = drained-IsEnding s.cancelled s.drainer s h
  Step-IsEnding {s} main (e, h) =
      (e, ap server.returned (ended-http s.result (server.returned s.http) s) ∙ h)
  Step-IsEnding {s} (outside m) (e, h) = (e, law.stays s.http m e h)

  pub Run-IsEnding : {s t : Serving H} → Run server s t → IsEnding s → IsEnding t
  Run-IsEnding nothing h = h
  Run-IsEnding (after r st) h = Step-IsEnding st (Run-IsEnding r h)

  pub ended-IsOver :
      (r : Option (Option Problem)) (e : End) (s : Serving H)
      → s.result ≡ r
      → IsOver (ended server r (some e) s)
  unfolding IsOver
  ended-IsOver none e s h = (outcome e, refl)
  ended-IsOver (some r) e s h = (r, h)

  drained_kept :
      (c : Bool) (d : Drainer) (s : Serving H)
      → ((drained server c d s).result ≡ s.result)
        × ((drained server c d s).cancelled ≡ s.cancelled)
  drained_kept true waiting s = (refl, refl)
  drained_kept true shutting_down s = (refl, refl)
  drained_kept false d s = (refl, refl)

  ended_kept :
      (r o : Option (Option Problem)) (e : Option End) (s : Serving H)
      → s.result ≡ r
      → r ≡ o
      → {p : Option Problem} → o ≡ some p
      → (ended server r e s).result ≡ some p
  ended_kept none o e s h k l = cc
  ended_kept (some q) o e s h k l = h ∙ k ∙ l

  Step-IsOver : {s t : Serving H} → Step server s t → IsOver s → IsOver t
  unfolding IsOver drainer_turn main_turn
  Step-IsOver cancel h = h
  Step-IsOver {s} drainer (r, h) = (r, (drained_kept s.cancelled s.drainer s).0 ∙ h)
  Step-IsOver {s} main (r, h) =
      (r, ended_kept s.result s.result (server.returned s.http) s refl refl h)
  Step-IsOver (outside m) h = h

  pub Run-IsOver : {s t : Serving H} → Run server s t → IsOver s → IsOver t
  Run-IsOver nothing h = h
  Run-IsOver (after r st) h = Step-IsOver st (Run-IsOver r h)
