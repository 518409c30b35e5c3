-- ===== src/Oauth/Run/Handlers.antt =====
-- The other handlers of the package keep what is known, on every branch.
use lib_agent_mcp.Prelude.{
  ℕ, ◌≤◌, ◌≡◌, ◌+◌, refl, inl, inr, Option, none, some, List, ◌∷◌, arith, All, Bool-cases,
  Option-cases, List-cases,
}
use lib_agent_mcp.Prelude.Text.{Text, text, text_eq, is_empty}
use lib_agent_mcp.Prelude.Dict.{Dict, Each-insert}
use lib_agent_mcp.Exec.{Exec, ok, >>=-eq-ok}
use lib_agent_mcp.Oauth.Store.Laws.{IsLawful, IsFaithful}
use lib_agent_mcp.Oauth.MapStore
use lib_agent_mcp.Oauth.MapStore.{Json, Change}
use lib_agent_mcp.Oauth.MapStore.Laws.{IsLossless}
use lib_agent_mcp.Oauth.MapStore.Kept.{Holds-mutate}
use lib_agent_mcp.Oauth.World.{World, Client, AuthGrant, PrincipalGrant, on_store, rand_token}
use lib_agent_mcp.Oauth.Encoding.{encode64}
use lib_agent_mcp.Oauth.Clients
use lib_agent_mcp.Oauth.Clients.{registry, clients_store_key}
use lib_agent_mcp.Oauth.AuthCode
use lib_agent_mcp.Oauth.AuthCode.{put, consume}
use lib_agent_mcp.Oauth.Principal.{verify_principal}
use lib_agent_mcp.Oauth.Server.{Platform, Server, Registration, default_auth_code_ttl}
use lib_agent_mcp.Oauth.Http.{Request, Handler, form_get}
use lib_agent_mcp.Oauth.Register.{all_valid, register_client, handle_register}
use lib_agent_mcp.Oauth.Register.Laws.{IsValidUri, all_valid_sound}
use lib_agent_mcp.Oauth.Authorize.{
  AuthParams, Gate, pass, stop, gate_client, through, validated_request, auth_grant, approve,
  submit_to, authorize_submit, authorize_form, submit_form, handle_authorize, parse_auth_params,
}
use lib_agent_mcp.Oauth.Authorize.Laws.{IsSafe, gate_client-pass}
use lib_agent_mcp.Oauth.Routes.{
  Endpoint, resource_document, server_document, registration, authorization, token, handle_endpoint,
}
use lib_agent_mcp.Oauth.Run.Kept.{
  IsRegistered, IsSecureGrant, allows_redirect-IsValidUri, IsKept, Keeps, Keeps-bind, Keeps-handle,
  Keeps-handle_if,
}
use lib_agent_mcp.Oauth.Run.Operations.{Keeps-find, Keeps-rand_token}
use lib_agent_mcp.Oauth.Run.Principals.{Keeps-verify_principal}
use lib_agent_mcp.Oauth.Run.Tokens.{Keeps-handle_token}

module _ {S : Type 0} (p : Platform S) (P : Text → AuthGrant → Type 0) (least : ℕ)
    (lawful : IsLawful p.store) {wipe : Exec S (Unit {0})} (faithful : IsFaithful p.store wipe)
    (lossless : IsLossless p.clients_json)
    (fresh : (n : ℕ) (b : List ℕ) (g : AuthGrant)
      → least ≤ n
      → p.rand n 32 ≡ some b
      → IsSecureGrant p g
      → P (encode64 b) g) where
  -- Registration
  Keeps-register :
      (u : Text) (us : List Text) (name : Text)
      → All (IsValidUri p) (u ∷ us)
      → Keeps p P least (Clients.register p.store p.clients_json p.rand (u ∷ us) name)
  unfolding Clients.register
  Keeps-register u us name secure =
      Keeps-bind p P least (rand_token p.rand 16) _ (Keeps-rand_token p P least lawful faithful 16)
        (λ id.
          Keeps-bind p P least
            (on_store (MapStore.mutate (registry p.store p.clients_json) (added_client id))) _
            (λ w h. record {
              clients =
                  Holds-mutate (registry p.store p.clients_json) lawful faithful lossless
                    (IsRegistered p) (added_client id) w.secrets
                    (λ m hm.
                      Each-insert (IsRegistered p) id (client id) m
                        (record { own_id = refl; given = ground arith; secure = secure }) hm)
                    h.clients;
              codes = h.codes;
              drawn = h.drawn;
            })
            (λ _ w h. h))
    where
      client : Text → Client
      client id = record { id = id; redirect_uris = u ∷ us; name = name }

      added_client : Text → Dict Client → Change Client (Unit {0})
      added_client id = Clients.added p.store p.clients_json id (client id)

  Keeps-register_client : (o : Option Registration) → Keeps p P least (register_client p o)
  unfolding register_client
  Keeps-register_client none w h = h
  Keeps-register_client (some req) w h = elim (List-cases req.redirect_uris) [
    | inl e ↦ rw e h
    | inr (u, us, e) ↦ elim (Bool-cases (all_valid p (u ∷ us))) [
      | inr bad ↦ rw (e, bad) h
      | inl good ↦
          rw (e, good)
            (Keeps-handle p P least
              (Clients.register p.store p.clients_json p.rand (u ∷ us) req.client_name) _ _
              (Keeps-register u us req.client_name (all_valid_sound p (u ∷ us) good)) (λ _ w h. h)
              (λ _ w h. h) w h)
    ]
  ]

  Keeps-handle_register : (r : Request) → Keeps p P least (handle_register p r)
  unfolding handle_register
  Keeps-handle_register r w h = elim (Bool-cases (text_eq r.method (text "POST"))) [
    | inr other ↦ rw other h
    | inl post ↦ rw post (Keeps-register_client _ w h)
  ]

  -- The authorization endpoint
  find-IsRegistered :
      (id : Text) (o : Option Client) (w : World S)
      → IsKept p P least w
      → (Clients.get p.store p.clients_json id w).0 ≡ ok o
      → (c : Client) → o ≡ some c
      → IsRegistered p id c
  unfolding Clients.get MapStore.get
  find-IsRegistered id o w h e c found =
      let (m, loads, is, run) =
        >>=-eq-ok (MapStore.load (registry p.store p.clients_json)) _ w.secrets e in
      h.clients m loads id c (ground arith)

  Keeps-issue_code :
      (now : ℕ) (g : AuthGrant)
      → IsSecureGrant p (record g { expires_at = now + default_auth_code_ttl })
      → Keeps p P least (AuthCode.issue p.rand default_auth_code_ttl now g)
  unfolding AuthCode.issue rand_token put
  Keeps-issue_code now g secure w h = elim (Option-cases (p.rand w.drawn 32)) [
    | inl e ↦ rw e (record { clients = h.clients; codes = h.codes; drawn = omega (arith, h.drawn) })
    | inr (b, e) ↦ rw e (record {
      clients = h.clients;
      codes = Each-insert P (encode64 b) _ w.codes (fresh w.drawn b _ h.drawn e secure) h.codes;
      drawn = omega (arith, h.drawn);
    })
  ]

  Keeps-approve :
      (s : Server) (now : ℕ) (a : AuthParams) (c : Client) (o : Option PrincipalGrant)
      → IsSafe a c
      → IsRegistered p a.client_id c
      → Keeps p P least (approve p s now a c o)
  unfolding approve auth_grant
  Keeps-approve s now a c none safe known = λ w h. h
  Keeps-approve s now a c (some g) safe known =
      Keeps-handle p P least
        (AuthCode.issue p.rand default_auth_code_ttl now (auth_grant p s now a c g)) _ _
        (Keeps-issue_code now (auth_grant p s now a c g) (record {
          redirect =
              allows_redirect-IsValidUri p c a.client_id a.redirect_uri safe.registered_uri known;
          challenge_given = safe.challenge_given;
          s256 = safe.s256;
        }))
        (λ _ w h. h) (λ _ w h. h)

  Keeps-submit_to :
      (s : Server) (now : ℕ) (a : AuthParams) (entered : Text) (c : Client)
      → IsSafe a c
      → IsRegistered p a.client_id c
      → Keeps p P least (submit_to p s now a entered c)
  unfolding submit_to
  Keeps-submit_to s now a entered c safe known =
      Keeps-handle p P least (verify_principal p.store p.principals_json p.rand entered) _ _
        (Keeps-verify_principal p P least lawful faithful entered) (λ _ w h. h)
        (λ o. Keeps-approve s now a c o safe known)

  -- The gates let through a registered client, with parameters that suit it.
  Keeps-through :
      (s : Server) (now : ℕ) (a : AuthParams) (next : Client → Handler S) (o : Option Client)
      → ((c : Client) → o ≡ some c → IsRegistered p a.client_id c)
      → ((c : Client) → IsSafe a c → IsRegistered p a.client_id c → Keeps p P least (next c))
      → (gate : Gate) → gate_client p a o ≡ gate
      → Keeps p P least (through p s now next gate)
  unfolding through
  Keeps-through s now a next o known hn (stop r) e = λ w h. h
  Keeps-through s now a next o known hn (pass c) e =
      let (found, safe) = gate_client-pass p a o e in hn c safe (known c found)

  Keeps-validated_request :
      (s : Server) (now : ℕ) (a : AuthParams) (next : Client → Handler S)
      → ((c : Client) → IsSafe a c → IsRegistered p a.client_id c → Keeps p P least (next c))
      → Keeps p P least (validated_request p s now a next)
  unfolding validated_request
  Keeps-validated_request s now a next hn w h = elim (Bool-cases (is_empty a.client_id)) [
    | inl missing ↦ rw missing h
    | inr given ↦ rw given (
        Keeps-handle_if p P least (λ o. (c : Client) → o ≡ some c → IsRegistered p a.client_id c)
          (Clients.get p.store p.clients_json a.client_id) _ _
          (Keeps-find p P least lawful faithful a.client_id)
          (λ o w h e. find-IsRegistered a.client_id o w h e) (λ _ w h. h)
          (λ o known. Keeps-through s now a next o known hn (gate_client p a o) refl) w h)
  ]

  Keeps-submit_form :
      (s : Server) (now : ℕ) (form : Option (Dict Text))
      → Keeps p P least (submit_form p s now form)
  unfolding submit_form authorize_submit
  Keeps-submit_form s now none = λ w h. h
  Keeps-submit_form s now (some form) =
      Keeps-validated_request s now (parse_auth_params form) _
        (Keeps-submit_to s now (parse_auth_params form) (form_get form (text "pairing_code")))

  Keeps-handle_authorize :
      (s : Server) (now : ℕ) (r : Request) → Keeps p P least (handle_authorize p s now r)
  unfolding handle_authorize authorize_form
  Keeps-handle_authorize s now r w h = elim (Bool-cases (text_eq r.method (text "GET"))) [
    | inl get ↦
        rw get (Keeps-validated_request s now (parse_auth_params r.query) _ (λ _ _ _ w h. h) w h)
    | inr e ↦ elim (Bool-cases (text_eq r.method (text "POST"))) [
      | inl post ↦ rw (e, post) (Keeps-submit_form s now r.form w h)
      | inr other ↦ rw (e, other) h
    ]
  ]

  -- Every route
  pub Keeps-handle_endpoint :
      (s : Server) (now : ℕ) (e : Endpoint) (r : Request)
      → Keeps p P least (handle_endpoint p s now e r)
  unfolding handle_endpoint
  Keeps-handle_endpoint s now resource_document r = λ w h. h
  Keeps-handle_endpoint s now server_document r = λ w h. h
  Keeps-handle_endpoint s now registration r = Keeps-handle_register r
  Keeps-handle_endpoint s now authorization r = Keeps-handle_authorize s now r
  Keeps-handle_endpoint s now token r = Keeps-handle_token p P least lawful faithful s now r
