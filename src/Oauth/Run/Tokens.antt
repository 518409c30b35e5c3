-- ===== src/Oauth/Run/Tokens.antt =====
-- The token endpoint keeps what is known, on every branch.
use lib_agent_mcp.Prelude.{ℕ, inl, inr, Option, none, some, arith}
use lib_agent_mcp.Prelude.Text.{Text, text}
use lib_agent_mcp.Prelude.Dict.{Dict}
use lib_agent_mcp.Exec.{Exec, Result-cases}
use lib_agent_mcp.Oauth.Store.Laws.{IsLawful, IsFaithful}
use lib_agent_mcp.Oauth.World.{AuthGrant, PrincipalGrant, RefreshGrant, on_store}
use lib_agent_mcp.Oauth.AuthCode.{consume}
use lib_agent_mcp.Oauth.Refresh
use lib_agent_mcp.Oauth.Token.{mint}
use lib_agent_mcp.Oauth.Server.{Platform, Server}
use lib_agent_mcp.Oauth.Http.{Request, form_get}
use lib_agent_mcp.Oauth.Grant.{
  respond_tokens, issue_tokens, redeem, grant_auth_code, renew, grant_refresh, dispatch_grant,
  handle_token,
}
use lib_agent_mcp.Oauth.Run.Kept.{Keeps, Keeps-handle}
use lib_agent_mcp.Oauth.Run.Operations.{Keeps-consume, Keeps-exchange, Keeps-issue}

module _ {S : Type 0} (p : Platform S) (P : Text → AuthGrant → Type 0) (least : ℕ)
    (lawful : IsLawful p.store) {wipe : Exec S (Unit {0})}
    (faithful : IsFaithful p.store wipe) where
  Keeps-issue_tokens :
      (s : Server) (now : ℕ) (client_id scope : Text) (g : PrincipalGrant)
      → Keeps p P least (issue_tokens p s now client_id scope g)
  unfolding issue_tokens respond_tokens
  Keeps-issue_tokens s now client_id scope g w h =
      elim (Result-cases (mint p.jwt s.issuer now client_id scope g)) [
        | inr (x, e) ↦ rw e h
        | inl (minted, e) ↦ rw e (
            Keeps-handle p P least (Refresh.issue p.store p.refresh_json p.rand client_id scope g) _
              _ (Keeps-issue p P least lawful faithful client_id scope g) (λ _ w h. h) (λ _ w h. h)
              w h)
      ]

  pub Keeps-redeem :
      (s : Server) (now : ℕ) (form : Dict Text) (o : Option AuthGrant)
      → Keeps p P least (redeem p s now form o)
  unfolding redeem
  Keeps-redeem s now form none w h = h
  Keeps-redeem s now form (some g) w h =
      ground (arith, h, Keeps-issue_tokens s now g.client_id g.scope g.principal w h)

  Keeps-renew :
      (s : Server) (now : ℕ) (form : Dict Text) (o : Option RefreshGrant)
      → Keeps p P least (renew p s now form o)
  unfolding renew
  Keeps-renew s now form none w h = h
  Keeps-renew s now form (some g) w h =
      ground (arith, h, Keeps-issue_tokens s now g.client_id g.scope g.principal w h)

  Keeps-grant_auth_code :
      (s : Server) (now : ℕ) (form : Dict Text) → Keeps p P least (grant_auth_code p s now form)
  unfolding grant_auth_code
  Keeps-grant_auth_code s now form w h =
      let code = form_get form (text "code") in
      Keeps-redeem s now form (consume now code w).0 (consume now code w).1
        (Keeps-consume p P least now code w h)

  Keeps-grant_refresh :
      (s : Server) (now : ℕ) (form : Dict Text) → Keeps p P least (grant_refresh p s now form)
  unfolding grant_refresh
  Keeps-grant_refresh s now form =
      Keeps-handle p P least
        (on_store (Refresh.exchange p.store p.refresh_json (form_get form (text "refresh_token"))))
        _ _ (Keeps-exchange p P least lawful faithful (form_get form (text "refresh_token")))
        (λ _ w h. h) (Keeps-renew s now form)

  Keeps-dispatch_grant :
      (s : Server) (now : ℕ) (form : Option (Dict Text))
      → Keeps p P least (dispatch_grant p s now form)
  unfolding dispatch_grant
  Keeps-dispatch_grant s now none w h = h
  Keeps-dispatch_grant s now (some form) w h =
      ground (arith, h, Keeps-grant_auth_code s now form w h, Keeps-grant_refresh s now form w h)

  pub Keeps-handle_token :
      (s : Server) (now : ℕ) (r : Request) → Keeps p P least (handle_token p s now r)
  unfolding handle_token
  Keeps-handle_token s now r w h = ground (arith, h, Keeps-dispatch_grant s now r.form w h)
