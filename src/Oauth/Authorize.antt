-- ===== src/Oauth/Authorize.antt =====
-- oauth/authorize.go: the approval form and its submission.
pub mod Laws
use lib_agent_mcp.Prelude.{
  ℕ, Bool, true, false, not, Option, none, some, List, [], ◌∷◌, ◌++◌, ◌&&◌, ◌||◌, if◌then◌else◌,
}
use lib_agent_mcp.Prelude.Text.{Text, text, text_eq, is_empty}
use lib_agent_mcp.Prelude.Dict.{Dict}
use lib_agent_mcp.Exec.{Exec, Result, ok, err, Fault}
use lib_agent_mcp.Oauth.World.{World, Client, PrincipalGrant, AuthGrant}
use lib_agent_mcp.Oauth.Clients
use lib_agent_mcp.Oauth.Clients.{allows_redirect}
use lib_agent_mcp.Oauth.AuthCode
use lib_agent_mcp.Oauth.Pkce.{method_s256}
use lib_agent_mcp.Oauth.Principal.{verify_principal}
use lib_agent_mcp.Oauth.Server.{Platform, Server, Url, default_auth_code_ttl}
use lib_agent_mcp.Oauth.Http.{
  Request, Response, Handler, oauth_error, json_type, form_page, error_page, redirect, form_get,
  respond, handle,
}

pub record AuthParams : Type 0 where
  pub client_id : Text
  pub redirect_uri : Text
  pub state : Text
  pub scope : Text
  pub code_challenge : Text
  pub code_challenge_method : Text
  pub response_type : Text

unfoldable pub parse_auth_params : Dict Text → AuthParams
parse_auth_params v = record {
  client_id = form_get v (text "client_id");
  redirect_uri = form_get v (text "redirect_uri");
  state = form_get v (text "state");
  scope = form_get v (text "scope");
  code_challenge = form_get v (text "code_challenge");
  code_challenge_method = form_get v (text "code_challenge_method");
  response_type = form_get v (text "response_type");
}

-- validateAuthParams: the error code to send back, or "".
unfoldable pub validate_auth_params : AuthParams → Text
validate_auth_params p =
    if not (text_eq p.response_type (text "code"))
    then text "unsupported_response_type"
    else if is_empty p.code_challenge || not (text_eq p.code_challenge_method method_s256)
    then text "invalid_request"
    else []

abbrev pub first_scope : List Text → Text
first_scope [] = []
first_scope (s ∷ _) = s

-- grantedScope; `new` leaves at least one scope.
unfoldable pub granted_scope : Server → Text → Text
granted_scope s requested = if is_empty requested then first_scope s.scopes else requested

-- The header of the pages.
abbrev pub html_type : Dict Text
html_type = (text "Content-Type", text "text/html; charset=utf-8") ∷ []

-- authorizeErrorPage
unfoldable pub authorize_error_page : Text → Response
authorize_error_page msg = record { status = 400; headers = html_type; body = error_page msg }

-- renderForm
unfoldable pub render_form : Client → AuthParams → Text → Response
render_form client a message = record {
  status = 200;
  headers = html_type;
  body =
      form_page client.name
        ((text "client_id", a.client_id)
          ∷ (text "redirect_uri", a.redirect_uri)
          ∷ (text "response_type", a.response_type)
          ∷ (text "code_challenge", a.code_challenge)
          ∷ (text "code_challenge_method", a.code_challenge_method)
          ∷ (text "state", a.state)
          ∷ (text "scope", a.scope)
          ∷ [])
        message;
}

abbrev pub state_param : Text → Dict Text
state_param state = if is_empty state then [] else (text "state", state) ∷ []

-- The outcome of validatedRequest: the client, or the response that was written.
pub data Gate : Type 0 where
  pass : Client → Gate
  stop : Response → Gate

module _ {S : Type 0} (p : Platform S) where
  unfoldable pub redirect_to : AuthParams → Dict Text → Option Url → Response
  redirect_to a extra none = authorize_error_page (text "invalid redirect_uri")
  redirect_to a extra (some _) = record {
    status = 302;
    headers = [];
    body = redirect a.redirect_uri (extra ++ state_param a.state);
  }

  -- redirectWith
  unfoldable pub redirect_with : AuthParams → Dict Text → Response
  redirect_with a extra = redirect_to a extra (p.parse_url a.redirect_uri)

  -- redirectError
  unfoldable pub redirect_error : AuthParams → Text → Response
  redirect_error a err_code = redirect_with a ((text "error", err_code) ∷ [])

  -- The end of validateClientRedirect and validatedRequest, once the client is looked up.
  unfoldable pub gate_client : AuthParams → Option Client → Gate
  gate_client a none = stop (authorize_error_page (text "unknown client_id"))
  gate_client a (some c) =
      if is_empty a.redirect_uri || not (allows_redirect c a.redirect_uri)
      then stop (authorize_error_page (text "redirect_uri is not registered for this client"))
      else if is_empty (validate_auth_params a)
      then pass c
      else stop (redirect_error a (validate_auth_params a))

  module _ (s : Server) (now : ℕ) where
    unfoldable pub through : (Client → Handler S) → Gate → Handler S
    through next (pass c) = next c
    through next (stop r) = respond r

    -- validatedRequest, with validateClientRedirect, in front of the rest of a handler
    unfoldable pub validated_request : AuthParams → (Client → Handler S) → Handler S
    validated_request a next =
        if is_empty a.client_id
        then respond (authorize_error_page (text "missing client_id"))
        else handle (Clients.get p.store p.clients_json a.client_id)
            (λ _. respond (authorize_error_page (text "internal error looking up the client")))
            (λ c. through next (gate_client a c))

    -- authorizeForm
    unfoldable pub authorize_form : AuthParams → Handler S
    authorize_form a = validated_request a (λ c. respond (render_form c a []))

    unfoldable pub auth_grant : AuthParams → Client → PrincipalGrant → AuthGrant
    auth_grant a c g = record {
      client_id = c.id;
      redirect_uri = a.redirect_uri;
      code_challenge = a.code_challenge;
      code_challenge_method = a.code_challenge_method;
      scope = granted_scope s a.scope;
      principal = g;
      expires_at = 0;
    }

    unfoldable pub approve : AuthParams → Client → Option PrincipalGrant → Handler S
    approve a c none = respond (render_form c a (text "Incorrect pairing code — try again."))
    approve a c (some g) =
        handle (AuthCode.issue p.rand default_auth_code_ttl now (auth_grant a c g))
          (λ _.
            respond (authorize_error_page (text "internal error issuing the authorization code")))
          (λ code. respond (redirect_with a ((text "code", code) ∷ [])))

    -- authorizeSubmit, after the gates
    unfoldable pub submit_to : AuthParams → Text → Client → Handler S
    submit_to a entered c =
        handle (verify_principal p.store p.principals_json p.rand entered)
          (λ _. respond (authorize_error_page (text "internal error verifying the pairing code")))
          (approve a c)

    unfoldable pub authorize_submit : AuthParams → Text → Handler S
    authorize_submit a entered = validated_request a (submit_to a entered)

    unfoldable pub submit_form : Option (Dict Text) → Handler S
    submit_form none = respond (authorize_error_page (text "could not parse the form"))
    submit_form (some form) =
        authorize_submit (parse_auth_params form) (form_get form (text "pairing_code"))

    -- handleAuthorize
    unfoldable pub handle_authorize : Request → Handler S
    handle_authorize r =
        if text_eq r.method (text "GET")
        then authorize_form (parse_auth_params r.query)
        else if text_eq r.method (text "POST")
        then submit_form r.form
        else respond (record {
          status = 405;
          headers = (text "Allow", text "GET, POST") ∷ json_type;
          body = oauth_error (text "invalid_request") (text "method not allowed");
        })
