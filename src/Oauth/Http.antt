-- ===== src/Oauth/Http.antt =====
-- What the handlers of the package read of a request and write to a response: the part of net/http
-- that they use, and oauth/httputil.go.
use lib_agent_mcp.Prelude.{
  ℕ, Bool, Option, none, some, List, [], ◌∷◌, ◌&&◌, length, take, drop, ltb, if◌then◌else◌,
}
use lib_agent_mcp.Prelude.Text.{Text, text, equal_fold, trim_space}
use lib_agent_mcp.Prelude.Dict.{Dict, lookup}
use lib_agent_mcp.Exec.{Exec, Result, ok, err, Fault}
use lib_agent_mcp.Oauth.World.{World}

-- The form and the query hold the first value of each key; `form` is `none` where ParseForm fails.
-- `body` is what can be read of the body, and `body_fails` whether the reading fails after it.
pub record Request : Type 0 where
  pub method : Text
  pub query : Dict Text
  pub form : Option (Dict Text)
  pub authorization : Text
  pub origin : Text
  pub body : Text
  pub body_fails : Bool

-- v.Get(key): the value, or "" if the key is absent.
unfoldable pub form_get : Dict Text → Text → Text
form_get form key = elim (lookup key form) [ none ↦ [] | some v ↦ v ]

-- The JSON documents and pages that the handlers write, by their fields.
pub data Body : Type 0 where
  oauth_error : (code desc : Text) → Body
  tokens : (access_token : Text) (expires_in : ℕ) (refresh_token scope : Text) → Body
  registration : (client_id : Text) (redirect_uris : List Text) (client_name : Text) → Body
  resource_metadata : (resource : Text) (authorization_servers scopes_supported : List Text) → Body
  server_metadata : (issuer authorize token register : Text) (scopes_supported : List Text) → Body
  -- the approval form: the client's name, the hidden fields, and an error message or ""
  form_page : (client_name : Text) (hidden : Dict Text) (message : Text) → Body
  error_page : (message : Text) → Body
  -- a redirect to the address with these query parameters set
  redirect : (uri : Text) (params : Dict Text) → Body
  -- what the handler behind Protect wrote
  inner : (content : Text) → Body

pub record Response : Type 0 where
  pub status : ℕ
  pub headers : Dict Text
  pub body : Body

-- The header that writeJSON sets.
abbrev pub json_type : Dict Text
json_type = (text "Content-Type", text "application/json") ∷ []

abbrev pub write_json : ℕ → Body → Response
write_json status body = record { status = status; headers = json_type; body = body }

unfoldable pub write_oauth_error : ℕ → Text → Text → Response
write_oauth_error status code desc = write_json status (oauth_error code desc)

unfoldable pub bearer_prefix : Text
bearer_prefix = text "Bearer "

-- bearerToken
unfoldable pub bearer_token : Request → Text
bearer_token r =
    let h = r.authorization in
    if ltb (length bearer_prefix) (length h)
      && equal_fold (take (length bearer_prefix) h) bearer_prefix
    then trim_space (drop (length bearer_prefix) h)
    else []

-- methodNotAllowed of oauth/register.go
unfoldable pub method_not_allowed : Response
method_not_allowed = record {
  status = 405;
  headers = (text "Allow", text "POST") ∷ json_type;
  body = oauth_error (text "invalid_request") (text "method not allowed");
}

-- A handler answers a request and leaves the server in a new state.
abbrev pub Handler : Type 0 → Type 0
Handler S = World S → Response × World S

module _ {S : Type 0} where
  abbrev pub respond : Response → Handler S
  respond r w = (r, w)

  abbrev pub split_result :
      {A : Type 0} → Result A → (Fault → Handler S) → (A → Handler S) → Handler S
  split_result (ok a) bad good = good a
  split_result (err e) bad good = bad e

  -- `a, err := m(); if err != nil { bad }; good`
  abbrev pub handle :
      {A : Type 0} → Exec (World S) A → (Fault → Handler S) → (A → Handler S) → Handler S
  handle m bad good w = split_result (m w).0 bad good (m w).1
