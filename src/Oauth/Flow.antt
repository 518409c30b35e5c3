-- ===== src/Oauth/Flow.antt =====
-- The authorization flow as a whole: approval, redemption and a protected call, one after the other.
pub mod Live
use lib_agent_mcp.Prelude.{
  ap, sym, ◌∙◌, ℕ, ◌+◌, ◌*◌, ◌/◌, ◌≤◌, ◌<◌, ◌≡◌, ◌≢◌, refl, true, false, some, List, [], ◌∷◌, arith,
  if◌then◌else◌,
}
use lib_agent_mcp.Prelude.Text.{Text, text, text_eq, text_eq_refl, text_eq_iff, is_empty}
use lib_agent_mcp.Prelude.Dict.{Dict, lookup, insert, lookup-insert}
use lib_agent_mcp.Exec.{ok}
use lib_agent_mcp.Oauth.World.{
  World, Client, AuthGrant, PrincipalGrant, Verified, rand_token, second,
}
use lib_agent_mcp.Oauth.Encoding.{encode64}
use lib_agent_mcp.Oauth.Clients
use lib_agent_mcp.Oauth.Clients.{allows_redirect}
use lib_agent_mcp.Oauth.AuthCode
use lib_agent_mcp.Oauth.AuthCode.{consume, live}
use lib_agent_mcp.Oauth.AuthCode.Laws.{consume-eq-some_iff}
use lib_agent_mcp.Oauth.Refresh
use lib_agent_mcp.Oauth.Pkce.{verify_pkce, method_s256}
use lib_agent_mcp.Oauth.Pkce.Laws.{is_empty-eq-false_iff, verify_pkce_iff}
use lib_agent_mcp.Oauth.Principal.{verify_principal}
use lib_agent_mcp.Oauth.Token.{mint, validate}
use lib_agent_mcp.Oauth.Token.Laws.{IsJwt, validate-mint}
use lib_agent_mcp.Oauth.Server.{Platform, Server, Url, default_auth_code_ttl, protect, admitted}
use lib_agent_mcp.Oauth.Http.{
  Request, Response, Handler, tokens, form_get, write_json, bearer_token,
}
use lib_agent_mcp.Oauth.Grant.{respond_tokens, issue_tokens, redeem, grant_auth_code}
use lib_agent_mcp.Oauth.Grant.Laws.{IsRedeemable}
use lib_agent_mcp.Oauth.Authorize.{
  AuthParams, validate_auth_params, Gate, pass, gate_client, through, validated_request, auth_grant,
  approve, submit_to, authorize_submit, redirect_with, granted_scope,
}
use lib_agent_mcp.Oauth.Authorize.Laws.{IsSafe}

module _ {S : Type 0} (p : Platform S) (s : Server) where
  -- What a submission needs to be approved: a registered client, parameters that the gates let pass,
  -- a pairing code that is matched, and randomness for the code.
  pub record Approvable (a : AuthParams) (entered : Text) (w : World S) : Type 0 where
    pub client : Client
    pub named : is_empty a.client_id ≡ false
    pub registered : (Clients.get p.store p.clients_json a.client_id w).0 ≡ ok (some client)
    pub safe : IsSafe a client
    pub principal : PrincipalGrant
    pub paired :
        (verify_principal p.store p.principals_json p.rand entered
          (Clients.get p.store p.clients_json a.client_id w).1).0
        ≡ ok (some principal)
    pub bytes : List ℕ
    pub drawn :
        p.rand
          (verify_principal p.store p.principals_json p.rand entered
            (Clients.get p.store p.clients_json a.client_id w).1).1.drawn
          32
        ≡ some bytes

  validate_auth_params-safe :
      (a : AuthParams) (c : Client) → IsSafe a c → validate_auth_params a ≡ []
  unfolding validate_auth_params
  validate_auth_params-safe a c h = ground (
    arith,
    h.asks_code,
    h.s256,
    text_eq_refl (text "code"),
    text_eq_refl method_s256,
    is_empty-eq-false_iff a.code_challenge,
    h.challenge_given,
  )

  gate_client-safe : (a : AuthParams) (c : Client) → IsSafe a c → gate_client p a (some c) ≡ pass c
  unfolding gate_client is_empty
  gate_client-safe a c h =
      rw (validate_auth_params-safe a c h) (ground (arith, h.registered_uri, h.uri_given))

  approve-some :
      (now : ℕ) (a : AuthParams) (c : Client) (g : PrincipalGrant) (w : World S) {b : List ℕ}
      → p.rand w.drawn 32 ≡ some b
      → approve p s now a c (some g) w ≡ (
        redirect_with p a ((text "code", encode64 b) ∷ []),
        record w {
          drawn = w.drawn + 1;
          codes =
              insert
                (encode64 b)
                (record (auth_grant p s now a c g) { expires_at = now + default_auth_code_ttl })
                w.codes;
        },
      )
  unfolding approve AuthCode.issue rand_token
  approve-some now a c g w e = rw (e) refl

  -- The world after the gates and the match of the pairing code.
  abbrev pub matched_world : AuthParams → Text → World S → World S
  matched_world a entered w =
      (verify_principal p.store p.principals_json p.rand entered
        (Clients.get p.store p.clients_json a.client_id w).1).1

  -- The world after an approval.
  abbrev pub approved_world :
      ℕ → (a : AuthParams) (entered : Text) (w : World S) → Approvable a entered w → World S
  approved_world now a entered w h = record (matched_world a entered w) {
    drawn = (matched_world a entered w).drawn + 1;
    codes =
        insert (encode64 h.bytes)
          (record (auth_grant p s now a h.client h.principal) {
            expires_at = now + default_auth_code_ttl;
          })
          (matched_world a entered w).codes;
  }

  submit_to-approved :
      (now : ℕ) (a : AuthParams) (entered : Text) (w : World S) (h : Approvable a entered w)
      → submit_to p s now a entered h.client (Clients.get p.store p.clients_json a.client_id w).1
        ≡ (
          redirect_with p a ((text "code", encode64 h.bytes) ∷ []),
          approved_world now a entered w h,
        )
  unfolding submit_to
  submit_to-approved now a entered w h =
      rw (h.paired) (approve-some now a h.client h.principal (matched_world a entered w) h.drawn)

  authorize_submit-approved :
      (now : ℕ) (a : AuthParams) (entered : Text) (w : World S) (h : Approvable a entered w)
      → authorize_submit p s now a entered w ≡ (
        redirect_with p a ((text "code", encode64 h.bytes) ∷ []),
        approved_world now a entered w h,
      )
  unfolding authorize_submit validated_request through
  authorize_submit-approved now a entered w h =
      rw (h.named, h.registered, gate_client-safe a h.client h.safe)
        (submit_to-approved now a entered w h)

  -- Tokens that can be issued: the access token is signed, and the refresh token is stored.
  pub record Issuable (now : ℕ) (client_id scope : Text) (g : PrincipalGrant) (w : World S)
      : Type 0 where
    pub access : Text
    pub ttl : ℕ
    pub refresh : Text
    pub minted : mint p.jwt s.issuer now client_id scope g ≡ ok (access, ttl)
    pub issued : (Refresh.issue p.store p.refresh_json p.rand client_id scope g w).0 ≡ ok refresh

  issue_tokens-Issuable :
      (now : ℕ) (client_id scope : Text) (g : PrincipalGrant) (w : World S)
      (h : Issuable now client_id scope g w)
      → issue_tokens p s now client_id scope g w ≡ (
        write_json 200 (tokens h.access (h.ttl / second) h.refresh scope),
        (Refresh.issue p.store p.refresh_json p.rand client_id scope g w).1,
      )
  unfolding issue_tokens respond_tokens
  issue_tokens-Issuable now client_id scope g w h = rw (h.minted, h.issued) refl

  redeem-redeemable :
      (now : ℕ) (form : Dict Text) (v w : World S) (g : AuthGrant)
      → IsRedeemable p s now form v g
      → redeem p s now form (some g) w ≡ issue_tokens p s now g.client_id g.scope g.principal w
  unfolding redeem
  redeem-redeemable now form v w g h =
      rw ((text_eq_iff _ _).1 h.same_client, (text_eq_iff _ _).1 h.same_redirect, h.proved) refl

  grant_auth_code-redeemable :
      (now : ℕ) (form : Dict Text) (w : World S) (g : AuthGrant)
      → IsRedeemable p s now form w g
      → grant_auth_code p s now form w
        ≡ issue_tokens p s now g.client_id g.scope g.principal
            (consume now (form_get form (text "code")) w).1
  unfolding grant_auth_code
  grant_auth_code-redeemable now form w g h =
      rw ((consume-eq-some_iff now (form_get form (text "code")) w g).1 (h.known, h.live))
        (redeem-redeemable now form w (consume now (form_get form (text "code")) w).1 g h)

  -- The token endpoint answers an authorization code that is redeemable with the minted access token
  -- and the stored refresh token, if these can be issued.
  pub grant_auth_code_complete :
      (now : ℕ) (form : Dict Text) (w : World S) (g : AuthGrant)
      → IsRedeemable p s now form w g
      → (h : Issuable now g.client_id g.scope g.principal
          (consume now (form_get form (text "code")) w).1)
      → (grant_auth_code p s now form w).0
        ≡ write_json 200 (tokens h.access (h.ttl / second) h.refresh g.scope)
  grant_auth_code_complete now form w g r h =
      rw
        (
          grant_auth_code-redeemable now form w g r,
          issue_tokens-Issuable now g.client_id g.scope g.principal
              (consume now (form_get form (text "code")) w).1 h,
        )
        refl

  -- A token request that answers an approval: its code, its client, its address, and a verifier
  -- whose hash is the challenge.
  pub record Answers (form : Dict Text) (a : AuthParams) (c : Client) (bytes : List ℕ)
      : Type 0 where
    pub code : form_get form (text "code") ≡ encode64 bytes
    pub client : form_get form (text "client_id") ≡ c.id
    pub redirect : form_get form (text "redirect_uri") ≡ a.redirect_uri
    pub given : form_get form (text "code_verifier") ≢ []
    pub proves : encode64 (p.sha256 (form_get form (text "code_verifier"))) ≡ a.code_challenge

  -- The grant that an approval stores.
  abbrev pub approved_grant :
      ℕ → (a : AuthParams) (entered : Text) (w : World S) → Approvable a entered w → AuthGrant
  approved_grant now a entered w h = record (auth_grant p s now a h.client h.principal) {
    expires_at = now + default_auth_code_ttl;
  }

  Answers-IsRedeemable :
      (now later : ℕ) (form : Dict Text) (a : AuthParams) (entered : Text) (w : World S)
      (h : Approvable a entered w)
      → Answers form a h.client h.bytes
      → later ≤ now + default_auth_code_ttl
      → IsRedeemable p s later form
          (approved_world now a entered w h)
          (approved_grant now a entered w h)
  unfolding auth_grant
  Answers-IsRedeemable now later form a entered w h f soon = record {
    known =
        ap (λ k. lookup k (approved_world now a entered w h).codes) f.code
        ∙ ground (
          arith,
          lookup-insert (encode64 h.bytes) (encode64 h.bytes) (approved_grant now a entered w h)
              (matched_world a entered w).codes,
          text_eq_refl (encode64 h.bytes),
        );
    live = soon;
    same_client = sym f.client;
    same_redirect = sym f.redirect;
    proved =
        (verify_pkce_iff p.sha256 a.code_challenge a.code_challenge_method
            (form_get form (text "code_verifier"))).1
          (h.safe.s256, h.safe.challenge_given, f.given, f.proves);
  }
