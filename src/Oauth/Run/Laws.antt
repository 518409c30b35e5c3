-- ===== src/Oauth/Run/Laws.antt =====
-- What holds after any run of a deployment.
use lib_agent_mcp.Prelude.{
  ℕ, ◌≤◌, ◌≡◌, ◌≢◌, ◌∙◌, sym, ap, refl, inl, inr, Option-cases, none, some, List, [], arith,
}
use lib_agent_mcp.Prelude.Text.{Text, text, text_eq_iff}
use lib_agent_mcp.Prelude.Dict.{Dict, lookup, lookup-erase, Each, Each-nil}
use lib_agent_mcp.Exec.{Exec, ok}
use lib_agent_mcp.Oauth.Store.Laws.{IsLawful, IsFaithful}
use lib_agent_mcp.Oauth.MapStore
use lib_agent_mcp.Oauth.MapStore.Laws.{IsLossless}
use lib_agent_mcp.Oauth.MapStore.Kept.{Holds, Holds-Unseen}
use lib_agent_mcp.Oauth.World.{World, AuthGrant}
use lib_agent_mcp.Oauth.Encoding.{encode64}
use lib_agent_mcp.Oauth.Clients.{registry, clients_store_key}
use lib_agent_mcp.Oauth.AuthCode.{consume, live}
use lib_agent_mcp.Oauth.Pkce.{method_s256}
use lib_agent_mcp.Oauth.Pkce.Laws.{verify_pkce_iff}
use lib_agent_mcp.Oauth.Register.Laws.{IsValidUri}
use lib_agent_mcp.Oauth.Server.{Platform, Server, pairing_code}
use lib_agent_mcp.Oauth.Http.{form_get, write_oauth_error}
use lib_agent_mcp.Oauth.Grant.{grant_auth_code}
use lib_agent_mcp.Oauth.Grant.Laws.{grant_auth_code_sound, refused}
use lib_agent_mcp.Oauth.Run.{
  Step, serve, start, print_code, pair_add, pair_remove, pair_rotate, pair_reset, Run, nothing,
  after,
}
use lib_agent_mcp.Oauth.Run.Kept.{IsRegistered, IsSecureGrant, IsKept}
use lib_agent_mcp.Oauth.Run.Operations.{Keeps-new, Keeps-code, Keeps-rotate}
use lib_agent_mcp.Oauth.Run.Principals.{Keeps-add_principal, Keeps-remove_principal}
use lib_agent_mcp.Oauth.Run.Handlers.{Keeps-handle_endpoint}
use lib_agent_mcp.Oauth.Run.Tokens.{Keeps-redeem}

module _ {S : Type 0} (p : Platform S) where
  -- A deployment that nobody has registered with: no codes, and no client in the store.
  pub record IsNew (w : World S) : Type 0 where
    pub no_codes : w.codes ≡ []
    pub no_clients : (MapStore.load (registry p.store p.clients_json) w.secrets).0 ≡ ok []

module _ {S : Type 0} (p : Platform S) (wipe : Exec S (Unit {0})) (lawful : IsLawful p.store)
    (faithful : IsFaithful p.store wipe) (lossless : IsLossless p.clients_json) where
  module _ (P : Text → AuthGrant → Type 0) (least : ℕ)
      (fresh : (n : ℕ) (b : List ℕ) (g : AuthGrant)
        → least ≤ n
        → p.rand n 32 ≡ some b
        → IsSecureGrant p g
        → P (encode64 b) g) where
    Step-IsKept : {w v : World S} → Step p wipe w v → IsKept p P least w → IsKept p P least v
    unfolding pairing_code
    Step-IsKept {w} (serve s now e r) h =
        Keeps-handle_endpoint p P least lawful faithful lossless fresh s now e r w h
    Step-IsKept {w} (start cfg) h =
        let kept = Keeps-new p P least lawful faithful cfg w h in
        record { clients = kept.clients; codes = Each-nil P; drawn = kept.drawn }
    Step-IsKept {w} print_code h = Keeps-code p P least lawful faithful w h
    Step-IsKept {w} (pair_add name binding) h =
        Keeps-add_principal p P least lawful faithful name binding w h
    Step-IsKept {w} (pair_remove name) h = Keeps-remove_principal p P least lawful faithful name w h
    Step-IsKept {w} pair_rotate h = Keeps-rotate p P least lawful faithful w h
    Step-IsKept {w} pair_reset h = record {
      clients =
          Holds-Unseen (registry p.store p.clients_json) (IsRegistered p) w.secrets
            (wipe w.secrets).1 (faithful.wiped clients_store_key w.secrets) h.clients;
      codes = h.codes;
      drawn = h.drawn;
    }

    Run-IsKept : {w v : World S} → Run p wipe w v → IsKept p P least w → IsKept p P least v
    Run-IsKept nothing h = h
    Run-IsKept (after r s) h = Step-IsKept s (Run-IsKept r h)

  IsNew-IsKept : (w : World S) → IsNew p w → IsKept p (λ _. IsSecureGrant p) 0 w
  IsNew-IsKept w h = record {
    clients = λ m e.
        let same : [] ≡ m = ground (arith, h.no_clients) in rw (← same) (Each-nil (IsRegistered p));
    codes = rw (h.no_codes) (Each-nil (λ _. IsSecureGrant p));
    drawn = omega arith;
  }

  reached : {w v : World S} → IsNew p w → Run p wipe w v → IsKept p (λ _. IsSecureGrant p) 0 v
  reached {w} new run =
      Run-IsKept (λ _. IsSecureGrant p) 0 (λ _ _ _ _ _ secure. secure) run (IsNew-IsKept w new)

  -- Over a lawful and faithful store and a lossless encoding of the clients: after any run of a
  -- deployment that started with no client and no authorization code, through requests at every
  -- route, restarts and pairing commands in any order, failures included, each client that can be
  -- read was registered under its own id with at least one redirect address, all of them secure,
  -- and each outstanding authorization code stands for a secure redirect address and an S256
  -- challenge that is not empty.
  pub run-IsSecure :
      {w v : World S}
      → IsNew p w
      → Run p wipe w v
      → Holds (registry p.store p.clients_json) (IsRegistered p) v.secrets
        × Each (λ _. IsSecureGrant p) v.codes
  run-IsSecure new run = let h = reached new run in (h.clients, h.codes)

  -- Over a lawful and faithful store and a lossless encoding of the clients: after any run of a
  -- deployment that started with no client and no authorization code, a token request is answered
  -- 200 for an authorization code only if the redirect address that it names is secure, the code is
  -- known, and its challenge is the S256 one of the verifier that the request has.
  pub run-redeemed :
      {w v : World S} (s : Server) (now : ℕ) (form : Dict Text)
      → IsNew p w
      → Run p wipe w v
      → (grant_auth_code p s now form v).0.status ≡ 200
      → IsValidUri p (form_get form (text "redirect_uri"))
        × ((g : AuthGrant) × (lookup (form_get form (text "code")) v.codes ≡ some g)
            × (g.code_challenge_method ≡ method_s256)
            × (g.code_challenge ≡ encode64 (p.sha256 (form_get form (text "code_verifier")))))
  run-redeemed {w} {v} s now form new run e =
      let (g, h, _) = grant_auth_code_sound p s now form v e in
      let secure = (reached new run).codes (form_get form (text "code")) g h.known in
      let (s256, _, _, hash) =
        (verify_pkce_iff p.sha256 g.code_challenge g.code_challenge_method
            (form_get form (text "code_verifier"))).0
          h.proved in
      (rw (← h.same_redirect) secure.redirect, (g, h.known, s256, sym hash))

  unknown_code :
      (s : Server) (now : ℕ) (form : Dict Text) (v : World S)
      → lookup (form_get form (text "code")) v.codes ≡ none
      → (grant_auth_code p s now form v).0
        ≡ write_oauth_error 400
            (text "invalid_grant")
            (text "authorization code is invalid or expired")
  unfolding grant_auth_code consume live
  unknown_code s now form v e = refused p s now form _ _ (ground arith)

  -- What is left of the codes when one was presented.
  consume-IsKept :
      (now : ℕ) (code : Text) (w : World S)
      → IsKept p (λ _. IsSecureGrant p) 0 w
      → IsKept p (λ c _. c ≢ code) w.drawn (consume now code w).1
  unfolding consume
  consume-IsKept now code w h = record {
    clients = h.clients;
    codes = λ c g e same.
        ground (arith, lookup-erase code c w.codes, (text_eq_iff code c).1 (sym same));
    drawn = omega arith;
  }

  presented-IsKept :
      (s : Server) (now : ℕ) (form : Dict Text) (w : World S)
      → IsKept p (λ _. IsSecureGrant p) 0 w
      → IsKept p (λ c _. c ≢ form_get form (text "code")) w.drawn (grant_auth_code p s now form w).1
  unfolding grant_auth_code
  presented-IsKept s now form w h =
      let code = form_get form (text "code") in
      Keeps-redeem p (λ c _. c ≢ code) w.drawn lawful faithful s now form (consume now code w).0
        (consume now code w).1 (consume-IsKept now code w h)

  Each-unknown :
      (code : Text) (w : World S) → Each (λ c _. c ≢ code) w.codes → lookup code w.codes ≡ none
  Each-unknown code w h = elim (Option-cases (lookup code w.codes)) [
    | inl e ↦ e
    | inr (g, e) ↦ absurd (h code g e refl)
  ]

  -- Over a lawful and faithful store and a lossless encoding of the clients: once a code was
  -- presented in a deployment that started with no client and no authorization code, and if
  -- randomness does not give it again, it is answered invalid_grant after every further run,
  -- through requests, restarts and pairing commands in any order, whichever server is asked.
  pub run-spent :
      {u w v : World S} (s t : Server) (now later : ℕ) (form again : Dict Text)
      → IsNew p u
      → Run p wipe u w
      → ((n : ℕ) (b : List ℕ)
          → w.drawn ≤ n
          → p.rand n 32 ≡ some b
          → encode64 b ≢ form_get form (text "code"))
      → Run p wipe (grant_auth_code p s now form w).1 v
      → form_get again (text "code") ≡ form_get form (text "code")
      → (grant_auth_code p t later again v).0
        ≡ write_oauth_error 400
            (text "invalid_grant")
            (text "authorization code is invalid or expired")
  run-spent {u} {w} {v} s t now later form again new run never next same =
      let code = form_get form (text "code") in
      let kept =
        Run-IsKept (λ c _. c ≢ code) w.drawn (λ n b _ i e _. never n b i e) next
          (presented-IsKept s now form w (reached new run)) in
      unknown_code t later again v
        (ap (λ c. lookup c v.codes) same ∙ Each-unknown code v kept.codes)
