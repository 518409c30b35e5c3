-- ===== src/Oauth/Flow/Live.antt =====
-- That the flow leads to a served call.
use lib_agent_mcp.Prelude.{
  ap, ℕ, ◌+◌, ◌*◌, ◌/◌, ◌≤◌, ◌<◌, ◌≡◌, refl, false, some, [], ◌∷◌, ◌∙◌, if◌then◌else◌,
}
use lib_agent_mcp.Prelude.Text.{Text, text, is_empty}
use lib_agent_mcp.Prelude.Dict.{Dict}
use lib_agent_mcp.Exec.{ok}
use lib_agent_mcp.Oauth.World.{World, Verified, second}
use lib_agent_mcp.Oauth.Encoding.{encode64}
use lib_agent_mcp.Oauth.AuthCode.{consume}
use lib_agent_mcp.Oauth.Token.{validate}
use lib_agent_mcp.Oauth.Token.Laws.{IsJwt, validate-mint}
use lib_agent_mcp.Oauth.Server.{Platform, Server, Url, default_auth_code_ttl, protect, admitted}
use lib_agent_mcp.Oauth.Http.{
  Request, Handler, redirect, tokens, form_get, write_json, bearer_token,
}
use lib_agent_mcp.Oauth.Grant.{grant_auth_code}
use lib_agent_mcp.Oauth.Authorize.{
  AuthParams, auth_grant, authorize_submit, redirect_to, redirect_with, granted_scope,
}
use lib_agent_mcp.Oauth.Flow.{
  Approvable, Answers, Issuable, approved_world, approved_grant, authorize_submit-approved,
  grant_auth_code_complete, Answers-IsRedeemable,
}

module _ {S : Type 0} (p : Platform S) (s : Server) where
  protect-valid :
      (call : ℕ) (next : Verified → Handler S) (r : Request) (w : World S) {token : Text}
      {v : Verified}
      → bearer_token r ≡ token
      → is_empty token ≡ false
      → validate p.jwt s.issuer call token ≡ ok v
      → protect p s call next r w ≡ next v w
  unfolding protect admitted
  protect-valid call next r w e given valid = rw (e, given, valid) refl

  -- With a JWT library that behaves as documented: if a submission names a registered client,
  -- passes the gates, has a pairing code that is matched, and randomness is at hand, and a token
  -- request within the life of the code answers it, with the code's client, redirect address and
  -- verifier, tokens can be issued, and the redirect address parses, then the submission is
  -- answered with a 302 to the redirect address that carries the code, and the state if one was
  -- given, the token request with those tokens, and a later call with the access token, until the
  -- whole second of its expiry, is handed on with the principal that the pairing code stood for.
  pub authorization_flow :
      IsJwt p.jwt s.issuer.key
      → (now later call : ℕ) (a : AuthParams) (entered : Text) (w : World S)
        (h : Approvable p s a entered w) (form : Dict Text)
      → Answers p s form a h.client h.bytes
      → later ≤ now + default_auth_code_ttl
      → (i : Issuable p s later h.client.id
          (granted_scope s a.scope)
          h.principal
          (consume later (form_get form (text "code")) (approved_world p s now a entered w h)).1)
      → (next : Verified → Handler S) (r : Request) (v : World S) → bearer_token r ≡ i.access
      → is_empty i.access ≡ false
      → call < (later + s.issuer.ttl) / second * second
      → {u : Url} → p.parse_url a.redirect_uri ≡ some u
      → ((authorize_submit p s now a entered w).0 ≡ record {
        status = 302;
        headers = [];
        body = redirect a.redirect_uri (
            (text "code", encode64 h.bytes)
            ∷ (if is_empty a.state then [] else (text "state", a.state) ∷ []));
      })
        × ((grant_auth_code p s later form (authorize_submit p s now a entered w).1).0
            ≡ write_json 200 (tokens i.access (i.ttl / second) i.refresh (granted_scope s a.scope)))
        × (protect p s call next r v
            ≡ next
                (record {
                  client_id = h.client.id;
                  scope = granted_scope s a.scope;
                  grant = h.principal;
                  expires_at = (later + s.issuer.ttl) / second * second;
                })
                v)
  unfolding auth_grant redirect_with redirect_to
  authorization_flow law now later call a entered w h form f soon i next r v bearer given unexpired
        parsed =
      let approved = authorize_submit-approved p s now a entered w h in
      (
        ap (λ x. x.0) approved ∙ rw (parsed) refl,
        rw (approved) (
            grant_auth_code_complete p s later form (approved_world p s now a entered w h)
              (approved_grant p s now a entered w h)
              (Answers-IsRedeemable p s now later form a entered w h f soon)
              (record {
                access = i.access;
                ttl = i.ttl;
                refresh = i.refresh;
                minted = i.minted;
                issued = i.issued;
              })),
        protect-valid call next r v bearer given (
            validate-mint p.jwt s.issuer law later call h.client.id (granted_scope s a.scope)
              h.principal i.minted unexpired),
      )
