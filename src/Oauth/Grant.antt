-- ===== src/Oauth/Grant.antt =====
-- oauth/grant.go: the token endpoint.
pub mod Laws
use lib_agent_mcp.Prelude.{
  ℕ, ◌/◌, Bool, true, false, not, Option, none, some, List, [], ◌∷◌, ◌&&◌, ◌||◌, if◌then◌else◌,
}
use lib_agent_mcp.Prelude.Text.{Text, text, text_eq, is_empty}
use lib_agent_mcp.Prelude.Dict.{Dict}
use lib_agent_mcp.Exec.{Exec, Result, ok, err, Fault}
use lib_agent_mcp.Oauth.World.{World, PrincipalGrant, AuthGrant, RefreshGrant, second, on_store}
use lib_agent_mcp.Oauth.AuthCode.{consume}
use lib_agent_mcp.Oauth.Refresh
use lib_agent_mcp.Oauth.Pkce.{verify_pkce}
use lib_agent_mcp.Oauth.Token.{mint}
use lib_agent_mcp.Oauth.Server.{Platform, Server}
use lib_agent_mcp.Oauth.Http.{
  Request, Response, Handler, tokens, form_get, write_json, write_oauth_error, method_not_allowed,
  respond, handle, split_result,
}

module _ {S : Type 0} (p : Platform S) (s : Server) (now : ℕ) where
  unfoldable pub respond_tokens : Text → Text → ℕ → Text → Handler S
  respond_tokens scope access ttl refresh =
      respond (write_json 200 (tokens access (ttl / second) refresh scope))

  -- issueTokens
  unfoldable pub issue_tokens : Text → Text → PrincipalGrant → Handler S
  issue_tokens client_id scope g =
      split_result (mint p.jwt s.issuer now client_id scope g)
        (λ _.
          respond
            (write_oauth_error 500 (text "server_error") (text "could not issue access token")))
        (λ minted.
          handle (Refresh.issue p.store p.refresh_json p.rand client_id scope g)
            (λ _.
              respond (
                write_oauth_error 500 (text "server_error") (text "could not issue refresh token")))
            (respond_tokens scope minted.0 minted.1))

  unfoldable pub redeem : Dict Text → Option AuthGrant → Handler S
  redeem form none = respond (
      write_oauth_error 400 (text "invalid_grant")
        (text "authorization code is invalid or expired"))
  redeem form (some grant) =
      if not (text_eq grant.client_id (form_get form (text "client_id")))
        || not (text_eq grant.redirect_uri (form_get form (text "redirect_uri")))
      then respond (
          write_oauth_error 400 (text "invalid_grant")
            (text "client_id or redirect_uri does not match the code"))
      else if not (
          verify_pkce p.sha256 grant.code_challenge grant.code_challenge_method
            (form_get form (text "code_verifier")))
      then respond (write_oauth_error 400 (text "invalid_grant") (text "PKCE verification failed"))
      else issue_tokens grant.client_id grant.scope grant.principal

  -- grantAuthCode
  unfoldable pub grant_auth_code : Dict Text → Handler S
  grant_auth_code form w =
      let (grant, w') = consume now (form_get form (text "code")) w in redeem form grant w'

  unfoldable pub renew : Dict Text → Option RefreshGrant → Handler S
  renew form none =
      respond (write_oauth_error 400 (text "invalid_grant") (text "refresh_token is invalid"))
  renew form (some g) =
      let cid = form_get form (text "client_id") in
      if not (is_empty cid) && not (text_eq cid g.client_id)
      then respond (
          write_oauth_error 400 (text "invalid_grant")
            (text "client_id does not match the refresh token"))
      else issue_tokens g.client_id g.scope g.principal

  -- grantRefresh
  unfoldable pub grant_refresh : Dict Text → Handler S
  grant_refresh form =
      handle
        (on_store (Refresh.exchange p.store p.refresh_json (form_get form (text "refresh_token"))))
        (λ _.
          respond
            (write_oauth_error 500 (text "server_error") (text "could not read refresh token")))
        (renew form)

  unfoldable pub dispatch_grant : Option (Dict Text) → Handler S
  dispatch_grant none =
      respond (write_oauth_error 400 (text "invalid_request") (text "could not parse the form"))
  dispatch_grant (some form) =
      let kind = form_get form (text "grant_type") in
      if text_eq kind (text "authorization_code")
      then grant_auth_code form
      else if text_eq kind (text "refresh_token")
      then grant_refresh form
      else respond (
          write_oauth_error 400 (text "unsupported_grant_type")
            (text "supported: authorization_code, refresh_token"))

  -- handleToken
  unfoldable pub handle_token : Request → Handler S
  handle_token r =
      if not (text_eq r.method (text "POST"))
      then respond method_not_allowed
      else dispatch_grant r.form
