-- ===== src/Oauth/Grant/Laws.antt =====
-- What the token endpoint guarantees.
use lib_agent_mcp.Prelude.{
  ap, ◌∙◌, ℕ, ◌/◌, ◌≤◌, ◌≡◌, inl, inr, refl, true, Option, none, some, arith, if◌then◌else◌,
}
use lib_agent_mcp.Prelude.Text.{Text, text, text_eq, text_eq_iff, text_eq_refl}
use lib_agent_mcp.Prelude.Dict.{Dict, lookup}
use lib_agent_mcp.Exec.{ok, Result-cases}
use lib_agent_mcp.Oauth.Store.Laws.{IsLawful}
use lib_agent_mcp.Oauth.MapStore.Laws.{IsLossless}
use lib_agent_mcp.Oauth.World.{World, PrincipalGrant, AuthGrant, RefreshGrant, second, rand_token}
use lib_agent_mcp.Oauth.AuthCode.{consume}
use lib_agent_mcp.Oauth.AuthCode.Laws.{consume-consume, consume-eq-some_iff}
use lib_agent_mcp.Oauth.Refresh
use lib_agent_mcp.Oauth.Refresh.Laws.{held, issue-held, exchange-held}
use lib_agent_mcp.Oauth.Pkce.{verify_pkce}
use lib_agent_mcp.Oauth.Token.{mint}
use lib_agent_mcp.Oauth.Server.{Platform, Server}
use lib_agent_mcp.Oauth.Http.{Response, tokens, form_get, write_json, write_oauth_error}
use lib_agent_mcp.Oauth.Grant.{
  respond_tokens, issue_tokens, redeem, grant_auth_code, renew, grant_refresh,
}

module _ {S : Type 0} (p : Platform S) (s : Server) (now : ℕ) where
  -- Tokens that were issued: a minted access token, and a refresh token that is stored.
  pub record Issued (client_id scope : Text) (g : PrincipalGrant) (w : World S) (r : Response)
      (w' : World S) : Type 0 where
    pub access : Text
    pub ttl : ℕ
    pub refresh : Text
    pub minted : mint p.jwt s.issuer now client_id scope g ≡ ok (access, ttl)
    pub issued : (Refresh.issue p.store p.refresh_json p.rand client_id scope g w).0 ≡ ok refresh
    pub response : r ≡ write_json 200 (tokens access (ttl / second) refresh scope)
    pub state : w' ≡ (Refresh.issue p.store p.refresh_json p.rand client_id scope g w).1

  issue_tokens-Issued :
      (client_id scope : Text) (g : PrincipalGrant) (w : World S)
      → (issue_tokens p s now client_id scope g w).0.status ≡ 200
      → Issued client_id scope g w
          (issue_tokens p s now client_id scope g w).0
          (issue_tokens p s now client_id scope g w).1
  unfolding issue_tokens respond_tokens write_oauth_error
  issue_tokens-Issued client_id scope g w e =
      elim (Result-cases (mint p.jwt s.issuer now client_id scope g)) [
        | inr (f, h) ↦ ground arith
        | inl ((access, ttl), h) ↦
            elim (Result-cases
              (Refresh.issue p.store p.refresh_json p.rand client_id scope g w).0) [
                | inr (f, k) ↦ ground arith
                | inl (refresh, k) ↦ record {
                  access = access;
                  ttl = ttl;
                  refresh = refresh;
                  minted = h;
                  issued = k;
                  response = ground arith;
                  state = ground arith;
                }
              ]
      ]

  -- What a redeemed code must have been.
  pub record IsRedeemable (form : Dict Text) (w : World S) (g : AuthGrant) : Type 0 where
    pub known : lookup (form_get form (text "code")) w.codes ≡ some g
    pub live : now ≤ g.expires_at
    pub same_client : g.client_id ≡ form_get form (text "client_id")
    pub same_redirect : g.redirect_uri ≡ form_get form (text "redirect_uri")
    pub proved :
        verify_pkce p.sha256 g.code_challenge g.code_challenge_method
          (form_get form (text "code_verifier"))
        ≡ true

  redeem-ok :
      (form : Dict Text) (o : Option AuthGrant) (w : World S)
      → (redeem p s now form o w).0.status ≡ 200
      → (g : AuthGrant) × (o ≡ some g)
        × (g.client_id ≡ form_get form (text "client_id"))
        × (g.redirect_uri ≡ form_get form (text "redirect_uri"))
        × (verify_pkce p.sha256 g.code_challenge g.code_challenge_method
              (form_get form (text "code_verifier"))
            ≡ true)
        × (redeem p s now form o w ≡ issue_tokens p s now g.client_id g.scope g.principal w)
  unfolding redeem write_oauth_error
  redeem-ok form none w e = ground arith
  redeem-ok form (some g) w e = (
    g,
    refl,
    ground (arith, text_eq_iff g.client_id (form_get form (text "client_id"))),
    ground (arith, text_eq_iff g.redirect_uri (form_get form (text "redirect_uri"))),
    ground arith,
    ground arith,
  )

  -- The token endpoint answers an authorization code with tokens only if the code is known and not
  -- expired, its client and its redirect address are those of the request, and the verifier meets
  -- its PKCE challenge; the tokens are minted and stored for the code's client, scope and
  -- principal.
  pub grant_auth_code_sound :
      (form : Dict Text) (w : World S)
      → (grant_auth_code p s now form w).0.status ≡ 200
      → (g : AuthGrant) × IsRedeemable form w g
        × Issued g.client_id g.scope g.principal
            (consume now (form_get form (text "code")) w).1
            (grant_auth_code p s now form w).0
            (grant_auth_code p s now form w).1
  unfolding grant_auth_code
  grant_auth_code_sound form w e =
      let (g, found, same_client, same_redirect, proved, run) =
        redeem-ok form (consume now (form_get form (text "code")) w).0
          (consume now (form_get form (text "code")) w).1 e in
      let (known, live) = (consume-eq-some_iff now (form_get form (text "code")) w g).0 found in
      (
        g,
        record {
          known = known;
          live = live;
          same_client = same_client;
          same_redirect = same_redirect;
          proved = proved;
        },
        rw run (
            issue_tokens-Issued g.client_id g.scope g.principal
              (consume now (form_get form (text "code")) w).1 (rw run at e)),
      )

  codes-issue_tokens :
      (client_id scope : Text) (g : PrincipalGrant) (w : World S)
      → (issue_tokens p s now client_id scope g w).1.codes ≡ w.codes
  unfolding issue_tokens respond_tokens Refresh.issue rand_token
  codes-issue_tokens client_id scope g w = ground arith

  codes-redeem :
      (form : Dict Text) (o : Option AuthGrant) (w : World S)
      → (redeem p s now form o w).1.codes ≡ w.codes
  unfolding redeem
  codes-redeem form none w = refl
  codes-redeem form (some g) w =
      ground (arith, codes-issue_tokens g.client_id g.scope g.principal w)

module _ {S : Type 0} (p : Platform S) (s : Server) where
  consume_by_codes :
      (now : ℕ) (code : Text) (w v : World S)
      → w.codes ≡ v.codes
      → (consume now code w).0 ≡ (consume now code v).0
  unfolding consume
  consume_by_codes now code w v e = cc

  pub refused :
      (now : ℕ) (form : Dict Text) (o : Option AuthGrant) (w : World S)
      → o ≡ none
      → (redeem p s now form o w).0
        ≡ write_oauth_error 400
            (text "invalid_grant")
            (text "authorization code is invalid or expired")
  unfolding redeem
  refused now form o w e = rw e refl

  -- A code that was presented once, whether it was redeemed or refused, is answered invalid_grant
  -- at every later instant.
  pub grant_auth_code_replay :
      (now later : ℕ) (form again : Dict Text) (w : World S)
      → form_get again (text "code") ≡ form_get form (text "code")
      → (grant_auth_code p s later again (grant_auth_code p s now form w).1).0
        ≡ write_oauth_error 400
            (text "invalid_grant")
            (text "authorization code is invalid or expired")
  unfolding grant_auth_code
  grant_auth_code_replay now later form again w e =
      let code = form_get form (text "code") in
      let taken = consume now code w in
      refused later again _ _ (
        ap (λ c. (consume later c (redeem p s now form taken.0 taken.1).1).0) e
        ∙ (consume_by_codes later code (redeem p s now form taken.0 taken.1).1 taken.1
              (codes-redeem p s now form taken.0 taken.1)
            ∙ consume-consume now later code w))

  module _ (lawful : IsLawful p.store) (lossless : IsLossless p.refresh_json) where
    exchanged :
        (now : ℕ) (form : Dict Text) (w : World S)
        → (grant_refresh p s now form w).0.status ≡ 200
        → (g : RefreshGrant) × ((Refresh.exchange p.store p.refresh_json
              (form_get form (text "refresh_token"))
              w.secrets).0
            ≡ ok (some g))
          × (grant_refresh p s now form w
              ≡ issue_tokens p s now g.client_id g.scope g.principal (record w {
                secrets =
                    (Refresh.exchange p.store p.refresh_json
                      (form_get form (text "refresh_token"))
                      w.secrets).1;
              }))
    unfolding grant_refresh renew write_oauth_error
    exchanged now form w e =
        elim (Result-cases
          (Refresh.exchange p.store p.refresh_json (form_get form (text "refresh_token"))
            w.secrets).0) [
              | inr (f, h) ↦ ground arith
              | inl (none, h) ↦ ground arith
              | inl (some g, h) ↦ (g, h, ground arith)
            ]

    -- Over a lawful store and a lossless encoding of documents, a refresh that is answered 200
    -- found the presented token in the store; the fresh token stands for the same grant, and the
    -- presented one is gone, unless the fresh one is equal to it.
    pub grant_refresh_rotates :
        (now : ℕ) (form : Dict Text) (w : World S)
        → (grant_refresh p s now form w).0.status ≡ 200
        → (g : RefreshGrant) × (fresh : Text) × (held p.store p.refresh_json
              (form_get form (text "refresh_token"))
              w.secrets
            ≡ ok (some g))
          × (held p.store p.refresh_json fresh (grant_refresh p s now form w).1.secrets
              ≡ ok (some g))
          × (held p.store p.refresh_json
                (form_get form (text "refresh_token"))
                (grant_refresh p s now form w).1.secrets
              ≡ (if text_eq fresh (form_get form (text "refresh_token"))
                  then ok (some g)
                  else ok none))
    grant_refresh_rotates now form w e =
        let (g, found, run) = exchanged now form w e in
        let token = form_get form (text "refresh_token") in
        let w' : World S = record w {
          secrets = (Refresh.exchange p.store p.refresh_json token w.secrets).1;
        } in
        let i = issue_tokens-Issued p s now g.client_id g.scope g.principal w' (rw run at e) in
        let after = λ (other : Text).
          issue-held p.store p.refresh_json p.rand lawful lossless g.client_id g.scope g.principal
            other w' i.issued in
        let before =
          exchange-held p.store p.refresh_json lawful lossless token token w.secrets found in
        (
          g,
          i.refresh,
          before.0,
          rw (run, i.state) (ground (arith, after i.refresh, text_eq_refl i.refresh)),
          rw (run, i.state)
              (ground
                (arith, after token, before.1, text_eq_refl token, text_eq_iff i.refresh token)),
        )
