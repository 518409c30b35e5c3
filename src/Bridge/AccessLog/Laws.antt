-- ===== src/Bridge/AccessLog/Laws.antt =====
-- That the access log changes no response, what it records, and what it does not read.
use lib_agent_mcp.Prelude.{ℕ, ◌+◌, ◌≡◌, refl, arith, Option, All, List, [], ◌∷◌}
use lib_agent_mcp.Prelude.Text.{Text, text}
use lib_agent_mcp.Prelude.Dict.{Dict}
use lib_agent_mcp.Bridge.AccessLog.{
  ResponseWriter, Reply, finished, header_then, write_then, answer_with, status_recorder,
  LoggedRequest, LogValue, logged_headers, add_headers, entry_of, write_entry, middleware,
}

-- What was done to a response: a status was set, or so many bytes were written.
pub data Sent : Type 0 where
  status_sent : ℕ → Sent
  bytes_sent : ℕ → Sent

-- What a reply does to a response, in order.
unfoldable pub trace : {W : Type 0} → ResponseWriter W → Reply → W → List Sent
trace out finished w = []
trace out (header_then code p) w = status_sent code ∷ trace out p (out.write_header code w)
trace out (write_then b next) w =
    bytes_sent (out.write b w).0.0 ∷ trace out (next (out.write b w).0) (out.write b w).1

-- The last status that was set, or the one given.
unfoldable pub last_status : ℕ → List Sent → ℕ
last_status s [] = s
last_status s (status_sent code ∷ ts) = last_status code ts
last_status s (bytes_sent n ∷ ts) = last_status s ts

unfoldable pub total_bytes : List Sent → ℕ
total_bytes [] = 0
total_bytes (status_sent code ∷ ts) = total_bytes ts
total_bytes (bytes_sent n ∷ ts) = n + total_bytes ts

module _ {W : Type 0} (out : ResponseWriter W) where
  answer_with-recorder :
      (p : Reply) (w : W) (status bytes : ℕ)
      → answer_with
          (status_recorder out)
          p
          (record { response_writer = w; status = status; bytes = bytes })
        ≡ record {
          response_writer = answer_with out p w;
          status = last_status status (trace out p w);
          bytes = bytes + total_bytes (trace out p w);
        }
  unfolding answer_with status_recorder last_status total_bytes trace
  answer_with-recorder finished w status bytes = ground arith
  answer_with-recorder (header_then code p) w status bytes =
      answer_with-recorder p (out.write_header code w) code bytes
  answer_with-recorder (write_then b next) w status bytes =
      rw
        (answer_with-recorder (next (out.write b w).0) (out.write b w).1 status
          (bytes + (out.write b w).0.0))
        (ground arith)

module _ {L : Type 0} (format_time : ℕ → Text) (marshal : Dict LogValue → Option Text)
    (append : Text → L → L) where
  -- Behind the access log a handler does to the response just what it does without it, and the line
  -- that is written gives the last status that it set, or 200, and the sum of the bytes that its
  -- writes report.
  pub middleware-recorded :
      {W : Type 0} (out : ResponseWriter W) (next : LoggedRequest → Reply) (r : LoggedRequest)
      (started ended : ℕ) (w : W) (l : L)
      → middleware format_time marshal append out next r started ended (w, l) ≡ (
        answer_with out (next r) w,
        write_entry format_time marshal append r
            (last_status 200 (trace out (next r) w))
            (total_bytes (trace out (next r) w))
            started
            ended
            l,
      )
  unfolding middleware
  middleware-recorded out next r started ended w l =
      rw (answer_with-recorder out (next r) w 200 0) (ground arith)

  -- Requests with the same method, path, Origin, MCP-Protocol-Version, User-Agent and X-Forwarded-
  -- For give the same log for the same status, bytes and instants, whatever their other headers
  -- hold, Authorization and Cookie among them.
  pub write_entry-redacted :
      (r r' : LoggedRequest) (status bytes started ended : ℕ) (l : L)
      → r.method ≡ r'.method
      → r.path ≡ r'.path
      → All
          (λ h. r.header h ≡ r'.header h)
          (text "Origin"
            ∷ text "MCP-Protocol-Version"
            ∷ text "User-Agent"
            ∷ text "X-Forwarded-For"
            ∷ [])
      → write_entry format_time marshal append r status bytes started ended l
        ≡ write_entry format_time marshal append r' status bytes started ended l
  unfolding write_entry entry_of add_headers logged_headers
  write_entry-redacted r r' status bytes started ended l em ep (h1, (h2, (h3, (h4, _)))) =
      rw (em, ep, h1, h2, h3, h4) refl
