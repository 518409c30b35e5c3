-- ===== src/Bridge/Serving/Laws.antt =====
-- That serveHTTP ends, and when it returns nil.
use lib_agent_mcp.Prelude.{
  ◌≡◌, inl, inr, refl, Bool, true, false, Option, none, some, arith, Option-cases,
}
use lib_agent_mcp.Bridge.Io.{Problem}
use lib_agent_mcp.Bridge.Serving.{
  End, server_closed, broken, HttpServer, Drainer, waiting, shutting_down, Serving, begin_serving,
  outcome, drained, drainer_turn, ended, main_turn, Step, cancel, drainer, main, outside, Run,
  nothing, after,
}
use lib_agent_mcp.Bridge.Serving.Steps.{
  IsHttpServer, IsEnding, IsOver, IsEnding-shutdown, Run-IsEnding, Run-IsOver, ended-IsOver,
}

module _ {H E : Type 0} (server : HttpServer H E) (law : IsHttpServer server) where
  -- What is known of a run from the start: Shutdown is called only after the cancellation, Serve
  -- returns ErrServerClosed only after Shutdown, and the result is that of Serve.
  record IsSound (s : Serving H) : Type 0 where
    shut : s.drainer ≡ shutting_down → (s.cancelled ≡ true) × IsEnding server law s
    closed : server.returned s.http ≡ some server_closed → s.drainer ≡ shutting_down
    result :
        (r : Option Problem)
        → s.result ≡ some r
        → (e : End) × (server.returned s.http ≡ some e) × (r ≡ outcome e)

  drained-IsSound :
      (c : Bool) (d : Drainer) (s : Serving H)
      → s.cancelled ≡ c
      → s.drainer ≡ d
      → IsSound s
      → IsSound (drained server c d s)
  unfolding IsEnding
  drained-IsSound true waiting s c d h = record {
    shut = λ _. (c, IsEnding-shutdown server law s.http);
    closed = λ _. refl;
    result = λ r e. let (end, done, same) = h.result r e in (end, law.keeps s.http end done, same);
  }
  drained-IsSound true shutting_down s c d h = h
  drained-IsSound false d' s c d h = h

  ended-IsSound :
      (r : Option (Option Problem)) (e : Option End) (s : Serving H)
      → s.result ≡ r
      → server.returned s.http ≡ e
      → IsSound s
      → IsSound (ended server r e s)
  unfolding IsEnding
  ended-IsSound none none s r e h = h
  ended-IsSound none (some end) s r e h = record {
    shut = h.shut;
    closed = h.closed;
    result = λ p k. (end, e, ground arith);
  }
  ended-IsSound (some q) e' s r e h = h

  moved-IsSound :
      (m : E) (s : Serving H) → IsSound s → IsSound (record s { http = server.move m s.http })
  unfolding IsEnding
  moved-IsSound m s h = record {
    shut = λ d. let (c, (e, done)) = h.shut d in (c, (e, law.stays s.http m e done));
    closed = λ done. elim (Option-cases (server.returned s.http)) [
      | inl running ↦ absurd (law.open_until s.http m running done)
      | inr (e, before) ↦
          let later = law.stays s.http m e before in
          let same : e ≡ server_closed = ground arith in h.closed (rw same at before)
    ];
    result = λ r k. let (e, done, same) = h.result r k in (e, law.stays s.http m e done, same);
  }

  Step-IsSound : {s t : Serving H} → Step server s t → IsSound s → IsSound t
  unfolding drainer_turn main_turn IsEnding
  Step-IsSound cancel h = record {
    shut = λ d. (refl, (h.shut d).1);
    closed = h.closed;
    result = h.result;
  }
  Step-IsSound {s} drainer h = drained-IsSound s.cancelled s.drainer s refl refl h
  Step-IsSound {s} main h = ended-IsSound s.result (server.returned s.http) s refl refl h
  Step-IsSound {s} (outside m) h = moved-IsSound m s h

  Run-IsSound : {s t : Serving H} → Run server s t → IsSound s → IsSound t
  Run-IsSound nothing h = h
  Run-IsSound (after r st) h = Step-IsSound st (Run-IsSound r h)

  begin_serving-IsSound : (h : H) → server.returned h ≡ none → IsSound (begin_serving h)
  unfolding begin_serving IsEnding
  begin_serving-IsSound h running = record {
    shut = λ d. cc;
    closed = λ d. ground arith;
    result = λ r k. cc;
  }

  cancelled-IsEnding :
      (c : Bool) (d : Drainer) (s : Serving H)
      → s.cancelled ≡ c
      → c ≡ true
      → s.drainer ≡ d
      → IsSound s
      → IsEnding server law (drained server c d s)
  unfolding IsEnding
  cancelled-IsEnding true waiting s c e d h = IsEnding-shutdown server law s.http
  cancelled-IsEnding true shutting_down s c e d h = (h.shut d).1
  cancelled-IsEnding false d' s c e d h = cc

  -- Over a server that behaves as net/http documents: in any run of serveHTTP, whatever requests
  -- come and go, once the context is cancelled, a turn of the goroutine and a later turn of
  -- serveHTTP itself are enough for it to have returned, and it stays so.
  pub serve_http-returns :
      (h : H) {s t u : Serving H}
      → server.returned h ≡ none
      → Run server (begin_serving h) s
      → s.cancelled ≡ true
      → Run server (drainer_turn server s) t
      → Run server (main_turn server t) u
      → (r : Option Problem) × (u.result ≡ some r)
  unfolding drainer_turn main_turn IsEnding IsOver
  serve_http-returns h {s} {t} {u} running run cancelled next last =
      let sound = Run-IsSound run (begin_serving-IsSound h running) in
      let (e, done) =
        Run-IsEnding server law next
          (cancelled-IsEnding s.cancelled s.drainer s refl cancelled refl sound) in
      Run-IsOver server law last (rw done (ended-IsOver server law t.result e t refl))

  -- Over a server that behaves as net/http documents: if serveHTTP has returned nil in any run from
  -- its start, then the context was cancelled, the goroutine called Shutdown, and Serve has
  -- returned ErrServerClosed.
  pub serve_http-closed :
      (h : H) {s : Serving H}
      → server.returned h ≡ none
      → Run server (begin_serving h) s
      → s.result ≡ some none
      → (s.cancelled ≡ true)
        × (s.drainer ≡ shutting_down)
        × (server.returned s.http ≡ some server_closed)
  serve_http-closed h {s} running run k =
      let sound = Run-IsSound run (begin_serving-IsSound h running) in
      let (e, done, same) = sound.result none k in
      let closed = by_outcome e same done in
      ((sound.shut (sound.closed closed)).0, sound.closed closed, closed)
    where
      by_outcome :
          (e : End)
          → none ≡ outcome e
          → server.returned s.http ≡ some e
          → server.returned s.http ≡ some server_closed
      by_outcome server_closed k done = done
      by_outcome (broken p) k done = cc
