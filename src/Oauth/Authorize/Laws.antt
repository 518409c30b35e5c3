-- ===== src/Oauth/Authorize/Laws.antt =====
-- What stands behind an authorization code that was issued.
use lib_agent_mcp.Prelude.{
  ap, sym, ◌∙◌, ℕ, ◌+◌, ◌≡◌, ◌≢◌, ◌⊎◌, inl, inr, refl, true, Option, none, some, [], arith,
  Bool-cases, Option-cases,
}
use lib_agent_mcp.Prelude.Text.{Text, text, text_eq_iff, is_empty}
use lib_agent_mcp.Prelude.Dict.{insert}
use lib_agent_mcp.Exec.{ok, Result-cases}
use lib_agent_mcp.Oauth.World.{World, Client, PrincipalGrant, rand_token}
use lib_agent_mcp.Oauth.Clients
use lib_agent_mcp.Oauth.Clients.{allows_redirect}
use lib_agent_mcp.Oauth.AuthCode
use lib_agent_mcp.Oauth.Pkce.{method_s256}
use lib_agent_mcp.Oauth.Pkce.Laws.{is_empty-eq-false_iff}
use lib_agent_mcp.Oauth.Encoding.{encode64}
use lib_agent_mcp.Oauth.Pairing
use lib_agent_mcp.Oauth.Principal.{verify_principal, candidates}
use lib_agent_mcp.Oauth.Server.{Platform, Server, default_auth_code_ttl}
use lib_agent_mcp.Oauth.Http.{Handler}
use lib_agent_mcp.Oauth.Authorize.{
  AuthParams, validate_auth_params, Gate, pass, stop, gate_client, through, validated_request,
  auth_grant, approve, submit_to, authorize_submit,
}

-- The parameters of a request that the gates let through, for the client that they resolved.
pub record IsSafe (a : AuthParams) (c : Client) : Type 0 where
  pub registered_uri : allows_redirect c a.redirect_uri ≡ true
  pub uri_given : a.redirect_uri ≢ []
  pub asks_code : a.response_type ≡ text "code"
  pub challenge_given : a.code_challenge ≢ []
  pub s256 : a.code_challenge_method ≡ method_s256

validate_auth_params_sound :
    (a : AuthParams)
    → is_empty (validate_auth_params a) ≡ true
    → (a.response_type ≡ text "code")
      × (a.code_challenge ≢ [])
      × (a.code_challenge_method ≡ method_s256)
unfolding validate_auth_params is_empty text
validate_auth_params_sound a e = ground (
  arith,
  text_eq_iff a.response_type (text "code"),
  text_eq_iff a.code_challenge_method method_s256,
)

module _ {S : Type 0} (p : Platform S) where
  pub gate_client-pass :
      (a : AuthParams) (o : Option Client) {c : Client}
      → gate_client p a o ≡ pass c
      → (o ≡ some c) × IsSafe a c
  unfolding gate_client
  gate_client-pass a none e = ground arith
  gate_client-pass a (some c) e =
      let (code, challenge, s256) = validate_auth_params_sound a (ground arith) in
      (
        ground arith,
        record {
          registered_uri = ground arith;
          uri_given = ground (arith, is_empty-eq-false_iff a.redirect_uri);
          asks_code = code;
          challenge_given = challenge;
          s256 = s256;
        },
      )

  module _ (s : Server) (now : ℕ) where
    -- What an approval has established, and what it did to the codes.
    pub record IsApproved (a : AuthParams) (entered : Text) (w w' : World S) : Type 0 where
      pub client : Client
      pub registered : (Clients.get p.store p.clients_json a.client_id w).0 ≡ ok (some client)
      pub safe : IsSafe a client
      pub principal : PrincipalGrant
      pub paired :
          (verify_principal p.store p.principals_json p.rand entered
            (Clients.get p.store p.clients_json a.client_id w).1).0
          ≡ ok (some principal)
      pub code : Text
      pub stored :
          w'.codes
          ≡ insert code
              (record (auth_grant p s now a client principal) {
                expires_at = now + default_auth_code_ttl;
              })
              w.codes

    codes-verify_principal :
        (entered : Text) (w : World S)
        → (verify_principal p.store p.principals_json p.rand entered w).1.codes ≡ w.codes
    unfolding verify_principal candidates Pairing.code Pairing.found_or_rotate Pairing.rotate
        Pairing.generate_pairing_code
    codes-verify_principal entered w = ground arith

    codes-approve :
        (a : AuthParams) (c : Client) (o : Option PrincipalGrant) (w : World S)
        → ((approve p s now a c o w).1.codes ≡ w.codes)
          ⊎ ((g : PrincipalGrant) × (code : Text) × (o ≡ some g)
              × ((approve p s now a c o w).1.codes
                  ≡ insert code
                      (record (auth_grant p s now a c g) {
                        expires_at = now + default_auth_code_ttl;
                      })
                      w.codes))
    unfolding approve AuthCode.issue rand_token
    codes-approve a c none w = inl refl
    codes-approve a c (some g) w = elim (Option-cases (p.rand w.drawn 32)) [
      | inl h ↦ inl (ground arith)
      | inr (b, h) ↦ inr (g, encode64 b, refl, ground arith)
    ]

    codes-submit_to :
        (a : AuthParams) (entered : Text) (c : Client) (w : World S)
        → ((submit_to p s now a entered c w).1.codes ≡ w.codes)
          ⊎ ((g : PrincipalGrant) × (code : Text) × ((verify_principal p.store p.principals_json
                  p.rand entered w).0
                ≡ ok (some g))
              × ((submit_to p s now a entered c w).1.codes
                  ≡ insert code
                      (record (auth_grant p s now a c g) {
                        expires_at = now + default_auth_code_ttl;
                      })
                      w.codes))
    unfolding submit_to
    codes-submit_to a entered c w =
        let same = codes-verify_principal entered w in
        elim (Result-cases (verify_principal p.store p.principals_json p.rand entered w).0) [
          | inr (f, h) ↦ inl (ground arith)
          | inl (o, h) ↦
              elim (codes-approve a c o
                (verify_principal p.store p.principals_json p.rand entered w).1) [
                  | inl k ↦ inl (ground arith)
                  | inr (g, code, k, l) ↦ inr (g, code, ground arith, ground arith)
                ]
        ]

    through-cases :
        (next : Client → Handler S) (gate : Gate) (w : World S)
        → ((through p s now next gate w).1 ≡ w)
          ⊎ ((c : Client) × (gate ≡ pass c) × (through p s now next gate w ≡ next c w))
    unfolding through
    through-cases next (pass c) w = inr (c, refl, refl)
    through-cases next (stop r) w = inl refl

    codes-gated :
        (a : AuthParams) (entered : Text) (o : Option Client) (w v : World S)
        → Clients.get p.store p.clients_json a.client_id w ≡ (ok o, v)
        → w.codes ≡ v.codes
        → ((through p s now (submit_to p s now a entered) (gate_client p a o) v).1.codes ≡ w.codes)
          ⊎ IsApproved a entered w
              (through p s now (submit_to p s now a entered) (gate_client p a o) v).1
    codes-gated a entered o w v got kept =
        elim (through-cases (submit_to p s now a entered) (gate_client p a o) v) [
          | inl h ↦ inl (ap (λ (u : World S). u.codes) h ∙ sym kept)
          | inr (c, passed, run) ↦ elim (codes-submit_to a entered c v) [
            | inl h ↦ inl (ap (λ u. u.1.codes) run ∙ h ∙ sym kept)
            | inr (g, code, matched, put) ↦
                let (found, safe) = gate_client-pass a o passed in
                inr (record {
                  client = c;
                  registered = ap (λ u. u.0) got ∙ ap ok found;
                  safe = safe;
                  principal = g;
                  paired = rw (ap (λ u. u.1) got) matched;
                  code = code;
                  stored = ap (λ u. u.1.codes) run ∙ put ∙ ap (insert code _) (sym kept);
                })
          ]
        ]

    -- A submission of the approval form leaves the authorization codes as they were, or adds one:
    -- then the client is registered, the redirect address is one of its own, the challenge is S256,
    -- the entered pairing code was matched to a principal, and the code stands for just these, for
    -- one minute.
    pub authorize_submit_sound :
        (a : AuthParams) (entered : Text) (w : World S)
        → ((authorize_submit p s now a entered w).1.codes ≡ w.codes)
          ⊎ IsApproved a entered w (authorize_submit p s now a entered w).1
    unfolding authorize_submit validated_request Clients.get
    authorize_submit_sound a entered w = elim (Bool-cases (is_empty a.client_id)) [
      | inl missing ↦ inl (ground arith)
      | inr given ↦ elim (Result-cases (Clients.get p.store p.clients_json a.client_id w).0) [
        | inr (f, h) ↦ inl (ground arith)
        | inl (o, h) ↦
            rw (given, h)
              (codes-gated a entered o w (Clients.get p.store p.clients_json a.client_id w).1
                (λ i. (h i, (Clients.get p.store p.clients_json a.client_id w).1)) refl)
      ]
    ]
