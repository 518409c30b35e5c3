-- ===== src/Tests/Logged.antt =====
-- The access log, the help of a group and --bind at concrete inputs.
use lib_agent_mcp.Prelude.{
  ℕ, ◌≡◌, ◌↔◌, refl, false, Option, some, [], ◌∷◌, ◌++◌, length, if◌then◌else◌,
}
use lib_agent_mcp.Prelude.Text.{Text, text, text_eq}
use lib_agent_mcp.Prelude.Dict.{Dict}
use lib_agent_mcp.Bridge.Command.Laws.{Reaches}
use lib_agent_mcp.Bridge.AccessLog.{
  ResponseWriter, Reply, finished, header_then, write_then, answer_with, LoggedRequest, LogValue,
  write_entry, middleware,
}
use lib_agent_mcp.Bridge.AccessLog.Laws.{
  trace, last_status, total_bytes, middleware-recorded, write_entry-redacted,
}
use lib_agent_mcp.Bridge.GroupHelp.{shown}
use lib_agent_mcp.Bridge.GroupHelp.Laws.{Lists, shown_iff}
use lib_agent_mcp.Bridge.Pair.{parse_bind_pairs}
use lib_agent_mcp.Bridge.Pair.Laws.{IsParsed, parse_bind_pairs-IsParsed}
use lib_agent_mcp.Tests.Bridge.{tree, leaf}

-- A response as its last status and its body.
abbrev writer : ResponseWriter (ℕ × Text)
writer = record {
  write_header = λ code (_, body). (code, body);
  write = λ b (code, body). ((length b, false), (code, body ++ b));
}

abbrev created : LoggedRequest → Reply
created r = header_then 201 (write_then r.path (λ _. write_then (text "!") (λ _. finished)))

-- A request with the given credentials, and one other header.
abbrev with_credentials : Text → LoggedRequest
with_credentials token = record {
  method = text "POST";
  path = text "/mcp";
  header = λ name.
      if text_eq name (text "Authorization")
      then token
      else if text_eq name (text "Origin")
      then text "https://c"
      else [];
}

abbrev marshal : Dict LogValue → Option Text
marshal entry = some (length entry ∷ [])

abbrev append : Text → Text → Text
append line log = log ++ line

middleware-recorded_example :
    middleware
      (λ t. t ∷ [])
      marshal
      append
      writer
      created
      (with_credentials (text "a"))
      5
      9
      ((0, []), [])
    ≡ (
      answer_with writer (created (with_credentials (text "a"))) (0, []),
      write_entry
          (λ t. t ∷ [])
          marshal
          append
          (with_credentials (text "a"))
          (last_status 200 (trace writer (created (with_credentials (text "a"))) (0, [])))
          (total_bytes (trace writer (created (with_credentials (text "a"))) (0, [])))
          5
          9
          [],
    )
middleware-recorded_example =
    middleware-recorded (λ t. t ∷ []) marshal append writer created (with_credentials (text "a")) 5
      9 (0, []) []

credential :
    (name : Text)
    → text_eq name (text "Authorization") ≡ false
    → (with_credentials (text "a")).header name ≡ (with_credentials (text "b")).header name
credential name e = rw (e) refl

not_logged :
    (text_eq (text "Origin") (text "Authorization") ≡ false)
    × (text_eq (text "MCP-Protocol-Version") (text "Authorization") ≡ false)
    × (text_eq (text "User-Agent") (text "Authorization") ≡ false)
    × (text_eq (text "X-Forwarded-For") (text "Authorization") ≡ false)
unfolding text text_eq
not_logged = (refl, refl, refl, refl)

write_entry-redacted_example :
    write_entry (λ t. t ∷ []) marshal append (with_credentials (text "a")) 200 4 5 9 []
    ≡ write_entry (λ t. t ∷ []) marshal append (with_credentials (text "b")) 200 4 5 9 []
write_entry-redacted_example =
    write_entry-redacted (λ t. t ∷ []) marshal append (with_credentials (text "a"))
      (with_credentials (text "b")) 200 4 5 9 [] refl refl
      (
        credential _ not_logged.0,
        (credential _ not_logged.1, (credential _ not_logged.2, (credential _ not_logged.3, tt))),
      )

shown_iff_example : Lists leaf (shown 0 tree) ↔ Reaches tree leaf
shown_iff_example = shown_iff 0 tree leaf refl

parse_bind_pairs-IsParsed_example :
    IsParsed
      (λ t. t)
      (text "team=a" ∷ text "team=b" ∷ text "=c" ∷ [])
      []
      (parse_bind_pairs (λ t. t) (text "team=a" ∷ text "team=b" ∷ text "=c" ∷ []))
parse_bind_pairs-IsParsed_example =
    parse_bind_pairs-IsParsed (λ t. t) (text "team=a" ∷ text "team=b" ∷ text "=c" ∷ [])
