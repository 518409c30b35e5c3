-- ===== src/Bridge/Serving.antt =====
-- serveHTTP of http.go: the server runs until the context is cancelled, and a goroutine shuts it down
-- then. The server of net/http is a parameter, and so is what its clients do meanwhile.
pub mod Steps
pub mod Laws
use lib_agent_mcp.Prelude.{ℕ, Bool, true, false, Option, none, some}
use lib_agent_mcp.Bridge.Io.{Problem}

-- What Serve returns: http.ErrServerClosed or another error.
pub data End : Type 0 where
  server_closed : End
  broken : Problem → End

-- http.Server on its listener, as far as serveHTTP uses it.
pub record HttpServer (H E : Type 0) : Type 0 where
  -- what Serve has returned, if it has
  pub returned : H → Option End
  -- what a call of Shutdown does at once, before it waits
  pub shutdown : H → H
  -- what an event of the server and its clients does
  pub move : E → H → H

-- Where the goroutine is: at <-ctx.Done(), or in the call of Shutdown.
pub data Drainer : Type 0 where
  waiting shutting_down : Drainer

-- The state while serveHTTP runs, and its result once it has returned, where `some none` is nil.
pub record Serving (H : Type 0) : Type 0 where
  pub http : H
  pub cancelled : Bool
  pub drainer : Drainer
  pub result : Option (Option Problem)

-- serveHTTP, at its start
unfoldable pub begin_serving : {H : Type 0} → H → Serving H
begin_serving h = record { http = h; cancelled = false; drainer = waiting; result = none }

-- `!errors.Is(err, http.ErrServerClosed)`
abbrev pub outcome : End → Option Problem
outcome server_closed = none
outcome (broken p) = some p

module _ {H E : Type 0} (server : HttpServer H E) where
  abbrev pub drained : Bool → Drainer → Serving H → Serving H
  drained true waiting s = record s { http = server.shutdown s.http; drainer = shutting_down }
  drained true shutting_down s = s
  drained false _ s = s

  -- A turn of the goroutine, which does nothing while the context is not cancelled, or once Shutdown
  -- was called.
  unfoldable pub drainer_turn : Serving H → Serving H
  drainer_turn s = drained s.cancelled s.drainer s

  abbrev pub ended : Option (Option Problem) → Option End → Serving H → Serving H
  ended none (some e) s = record s { result = some (outcome e) }
  ended none none s = s
  ended (some _) _ s = s

  -- A turn of serveHTTP itself, which does nothing while Serve has not returned.
  unfoldable pub main_turn : Serving H → Serving H
  main_turn s = ended s.result (server.returned s.http) s

  -- What can happen next.
  pub data Step (s : Serving H) : Serving H → Type 0 where
    cancel : Step s (record s { cancelled = true })
    drainer : Step s (drainer_turn s)
    main : Step s (main_turn s)
    outside : (e : E) → Step s (record s { http = server.move e s.http })

  pub data Run (s : Serving H) : Serving H → Type 0 where
    nothing : Run s s
    after : {t u : Serving H} → Run s t → Step t u → Run s u
