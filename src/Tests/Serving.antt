-- ===== src/Tests/Serving.antt =====
-- An HTTP server that counts its requests, while serveHTTP is cancelled.
use lib_agent_mcp.Prelude.{
  ℕ, ◌+◌, ◌-◌, ◌≡◌, refl, Bool, true, false, Option, none, some, arith, if◌then◌else◌,
}
use lib_agent_mcp.Bridge.Io.{Problem}
use lib_agent_mcp.Bridge.Serving.{
  server_closed, HttpServer, waiting, shutting_down, Serving, begin_serving, drainer_turn,
  main_turn, cancel, drainer, main, outside, Run, nothing, after,
}
use lib_agent_mcp.Bridge.Serving.Steps.{IsHttpServer}
use lib_agent_mcp.Bridge.Serving.Laws.{serve_http-returns, serve_http-closed}

-- Whether Shutdown was called, and the requests that are being answered.
pub record Counting : Type 0 where
  pub shut : Bool
  pub requests : ℕ

abbrev counting : HttpServer Counting Bool
counting = record {
  returned = λ h. if h.shut then some server_closed else none;
  shutdown = λ h. record h { shut = true };
  move = λ arrives h. record h { requests = if arrives then h.requests + 1 else h.requests - 1 };
}

counting-IsHttpServer : IsHttpServer counting
counting-IsHttpServer = record {
  closes = λ h e. refl;
  keeps = λ h e d. ground arith;
  stays = λ h m e d. d;
  open_until = λ h m e d. ground arith;
}

abbrev idle : Counting
idle = record { shut = false; requests = 0 }

-- A request has arrived when the context is cancelled.
abbrev busy : Serving Counting
busy = record {
  http = record { shut = false; requests = 1 };
  cancelled = true;
  drainer = waiting;
  result = none;
}

run : Run counting (begin_serving idle) busy
unfolding begin_serving
run = after (after nothing (outside true)) cancel

serve_http-returns_example :
    (r : Option Problem) × ((main_turn counting (drainer_turn counting busy)).result ≡ some r)
serve_http-returns_example =
    serve_http-returns counting counting-IsHttpServer idle refl run refl nothing nothing

-- Once the goroutine has called Shutdown, serveHTTP returns nil.
abbrev done : Serving Counting
done = main_turn counting (drainer_turn counting busy)

whole_run : Run counting (begin_serving idle) done
whole_run = after (after run drainer) main

returned_nil : done.result ≡ some none
unfolding drainer_turn main_turn
returned_nil = refl

serve_http-closed_example :
    (done.cancelled ≡ true)
    × (done.drainer ≡ shutting_down)
    × (counting.returned done.http ≡ some server_closed)
serve_http-closed_example =
    serve_http-closed counting counting-IsHttpServer idle refl whole_run returned_nil
