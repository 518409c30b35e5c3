-- ===== src/Bridge/AccessLog.antt =====
-- accesslog.go: one line in the log for each HTTP request. The file system, the encodings of a line and
-- of an instant, and the response writer of net/http are parameters.
pub mod Laws
use lib_agent_mcp.Prelude.{
  ℕ, ◌+◌, ◌-◌, ◌/◌, ◌^◌, Bool, Option, none, some, List, [], ◌∷◌, ◌++◌, if◌then◌else◌,
}
use lib_agent_mcp.Prelude.Text.{Text, text, text_eq, is_empty}
use lib_agent_mcp.Prelude.Dict.{Dict, insert}
use lib_agent_mcp.Bridge.Io.{Problem, wrapped, Attempt, done, failed}

-- http.ResponseWriter, as far as the code calls it; Write gives the count of bytes written and
-- whether it failed.
pub record ResponseWriter (W : Type 0) : Type 0 where
  pub write_header : ℕ → W → W
  pub write : Text → W → (ℕ × Bool) × W

-- What a handler does to the response, going on from what its writes give.
pub data Reply : Type 0 where
  finished : Reply
  header_then : ℕ → Reply → Reply
  write_then : Text → (ℕ × Bool → Reply) → Reply

unfoldable pub answer_with : {W : Type 0} → ResponseWriter W → Reply → W → W
answer_with out finished w = w
answer_with out (header_then code p) w = answer_with out p (out.write_header code w)
answer_with out (write_then b next) w = answer_with out (next (out.write b w).0) (out.write b w).1

pub record StatusRecorder (W : Type 0) : Type 0 where
  pub response_writer : W
  pub status : ℕ
  pub bytes : ℕ

-- The methods WriteHeader and Write of statusRecorder.
unfoldable pub status_recorder : {W : Type 0} → ResponseWriter W → ResponseWriter (StatusRecorder W)
status_recorder out = record {
  write_header = λ code s. record s {
    status = code;
    response_writer = out.write_header code s.response_writer;
  };
  write = λ b s.
      let (result, w) = out.write b s.response_writer in
      (result, record s { response_writer = w; bytes = s.bytes + result.0 });
}

-- A request, as far as the log reads it; `header` is Header.Get.
pub record LoggedRequest : Type 0 where
  pub method : Text
  pub path : Text
  pub header : Text → Text

-- A value of an entry.
pub data LogValue : Type 0 where
  string : Text → LogValue
  number : ℕ → LogValue

-- The fields of an entry that come from headers.
unfoldable pub logged_headers : Dict Text
logged_headers =
    (text "origin", text "Origin")
    ∷ (text "mcp_protocol", text "MCP-Protocol-Version")
    ∷ (text "user_agent", text "User-Agent")
    ∷ (text "forwarded_for", text "X-Forwarded-For")
    ∷ []

unfoldable pub add_headers : (Text → Text) → Dict Text → Dict LogValue → Dict LogValue
add_headers header [] entry = entry
add_headers header ((field, name) ∷ rest) entry =
    let v = header name in
    add_headers header rest (if is_empty v then entry else insert field (string v) entry)

module _ {L : Type 0} (format_time : ℕ → Text) (marshal : Dict LogValue → Option Text)
    (append : Text → L → L) where
  -- The entry of a request; instants are nanoseconds.
  unfoldable pub entry_of : LoggedRequest → ℕ → ℕ → ℕ → ℕ → Dict LogValue
  entry_of r status bytes started ended = add_headers r.header logged_headers (
      (text "time", string (format_time started))
      ∷ (text "method", string r.method)
      ∷ (text "path", string r.path)
      ∷ (text "status", number status)
      ∷ (text "bytes", number bytes)
      ∷ (text "dur_ms", number ((ended - started) / 10 ^ 6))
      ∷ [])

  abbrev pub append_line : Option Text → L → L
  append_line none l = l
  append_line (some line) l = append (line ++ (b'\n' ∷ [])) l

  -- The method write of accessLogger.
  unfoldable pub write_entry : LoggedRequest → ℕ → ℕ → ℕ → ℕ → L → L
  write_entry r status bytes started ended =
      append_line (marshal (entry_of r status bytes started ended))

  -- middleware, for a handler's reply and the instants before and after it
  unfoldable pub middleware :
      {W : Type 0}
      → ResponseWriter W
      → (LoggedRequest → Reply)
      → LoggedRequest
      → ℕ
      → ℕ
      → W × L
      → W × L
  middleware out next r started ended (w, l) =
      let sw =
        answer_with (status_recorder out) (next r)
          (record { response_writer = w; status = 200; bytes = 0 }) in
      (sw.response_writer, write_entry r sw.status sw.bytes started ended l)

-- The logger: the standard error stream, or a file of this path that it closes.
pub data AccessLogger : Type 0 where
  to_stderr : AccessLogger
  to_file : Text → AccessLogger

abbrev pub opened : Text → Attempt (Unit {0}) → Attempt AccessLogger
opened dest (done _) = done (to_file dest)
opened dest (failed e) = failed (wrapped (text "--access-log") e)

module _ {E : Type 0} (open_file : Text → E → Attempt (Unit {0}) × E)
    (close_file : Text → E → E) where
  -- newAccessLogger
  unfoldable pub new_access_logger : Text → E → Attempt AccessLogger × E
  new_access_logger dest s =
      if text_eq dest (text "-")
      then (done to_stderr, s)
      else (opened dest (open_file dest s).0, (open_file dest s).1)

  -- The method Close of accessLogger.
  unfoldable pub close : AccessLogger → E → E
  close to_stderr s = s
  close (to_file path) s = close_file path s
