-- ===== src/Oauth/Token/Laws.antt =====
-- Access tokens and the signing key.
use lib_agent_mcp.Prelude.{
  ap, ◌∙◌, ℕ, ◌+◌, ◌*◌, ◌/◌, ◌≤◌, ◌<◌, ◌≡◌, ◌⊎◌, inl, inr, refl, true, Option, none, some, List,
  arith, Option-cases, All, length, any,
}
use lib_agent_mcp.Prelude.Text.{Text, text_eq, text_eq_refl}
use lib_agent_mcp.Exec.{Result, ok, err, continue}
use lib_agent_mcp.Oauth.Encoding.{encode64}
use lib_agent_mcp.Oauth.Encoding.RoundTrip.{IsByte, decode64-encode64}
use lib_agent_mcp.Oauth.Store.{SecretStore}
use lib_agent_mcp.Oauth.Store.Laws.{IsLawful}
use lib_agent_mcp.Oauth.World.{World, Rand, PrincipalGrant, Verified, second}
use lib_agent_mcp.Oauth.Token.{
  TokenClaims, Expected, Parsed, Jwt, Issuer, signing_method, signing_key_bytes, mint_claims,
  expected, mint, validate, load_or_create_key, create_key, checked_key, decoded_or_created,
  signing_key_store_key,
}

-- What the options of Validate demand of a token's claims, at the given instant.
pub record Meets (e : Expected) (c : TokenClaims) : Type 0 where
  pub issuer : c.issuer ≡ e.issuer
  pub audience : any (text_eq e.audience) c.audience ≡ true
  pub expiry : ℕ
  pub expires : c.expires_at ≡ some expiry
  pub unexpired : e.now < expiry * second

-- The documented behaviour of the JWT library, for one key: it accepts what was signed with the key
-- by an allowed method if the claims meet the options, and refuses it if they do not.
pub record IsJwt (jwt : Jwt) (key : List ℕ) : Type 0 where
  pub accepts :
      (method token : Text) (c : TokenClaims) (e : Expected)
      → jwt.signed_string method key c ≡ some token
      → any (text_eq method) e.methods ≡ true
      → Meets e c
      → jwt.parse_with_claims key e token ≡ some (record { valid = true; claims = c })
  pub refuses :
      (e : Expected) (token : Text) {p : Parsed}
      → jwt.parse_with_claims key e token ≡ some p
      → p.valid ≡ true
      → Meets e p.claims

module _ (jwt : Jwt) (i : Issuer) (law : IsJwt jwt i.key) where
  minted_token :
      (now : ℕ) (client_id scope : Text) (p : PrincipalGrant) {token : Text} {ttl : ℕ}
      → mint jwt i now client_id scope p ≡ ok (token, ttl)
      → jwt.signed_string signing_method i.key (mint_claims i now client_id scope p) ≡ some token
  unfolding mint
  minted_token now client_id scope p e = ground arith

  -- With a JWT library that behaves as documented, a token minted at one instant validates at a
  -- later one if that is before the whole second of its expiry, with the client, scope, principal
  -- and binding that it was minted for and that expiry.
  pub validate-mint :
      (now later : ℕ) (client_id scope : Text) (p : PrincipalGrant) {token : Text} {ttl : ℕ}
      → mint jwt i now client_id scope p ≡ ok (token, ttl)
      → later < (now + i.ttl) / second * second
      → validate jwt i later token
        ≡ ok (record {
          client_id = client_id;
          scope = scope;
          grant = p;
          expires_at = (now + i.ttl) / second * second;
        })
  unfolding validate mint_claims expected
  validate-mint now later client_id scope p {token} e h =
      let meets : Meets (expected i later) (mint_claims i now client_id scope p) = record {
        issuer = refl;
        audience = ground (arith, text_eq_refl i.audience);
        expiry = (now + i.ttl) / second;
        expires = refl;
        unexpired = h;
      } in
      rw
        (law.accepts signing_method token (mint_claims i now client_id scope p) (expected i later)
          (minted_token now client_id scope p e) (ground (arith, text_eq_refl signing_method))
          meets)
        refl

  -- Whatever is accepted was issued by this issuer for this audience, and has not expired.
  pub validate_sound :
      (now : ℕ) (token : Text) {v : Verified}
      → validate jwt i now token ≡ ok v
      → (p : Parsed) × (jwt.parse_with_claims i.key (expected i now) token ≡ some p)
        × (p.claims.issuer ≡ i.issuer)
        × (any (text_eq i.audience) p.claims.audience ≡ true)
        × (now < v.expires_at)
        × (v.grant.name ≡ p.claims.principal)
        × (v.grant.binding ≡ p.claims.binding)
  unfolding validate expected
  validate_sound now token e =
      elim (Option-cases (jwt.parse_with_claims i.key (expected i now) token)) [
        | inl h ↦ ground arith
        | inr (p, h) ↦
            let m = law.refuses (expected i now) token h (ground arith) in
            (
              p,
              h,
              m.issuer,
              m.audience,
              ground (arith, m.expires, m.unexpired),
              ground arith,
              ground arith,
            )
      ]

-- The documented behaviour of crypto/rand: a read fills the buffer with bytes.
abbrev pub Fills : Rand → Type 0
Fills rand = (n m : ℕ) (b : List ℕ) → rand n m ≡ some b → (length b ≡ m) × All IsByte b

module _ {S : Type 0} (store : SecretStore S) (rand : Rand) (filled : Fills rand) where
  create_key_drawn :
      (w : World S) {key : List ℕ}
      → (create_key store rand w).0 ≡ ok key
      → rand w.drawn signing_key_bytes ≡ some key
  unfolding create_key
  create_key_drawn w e = ground arith

  create_key_stored :
      (w : World S) {key : List ℕ}
      → (create_key store rand w).0 ≡ ok key
      → ((store.set signing_key_store_key (encode64 key) w.secrets).0 ≡ ok tt)
        × ((create_key store rand w).1.secrets
            ≡ (store.set signing_key_store_key (encode64 key) w.secrets).1)
  unfolding create_key
  create_key_stored w e = ground arith

  module _ (lawful : IsLawful store) where
    load_or_create_key_lem :
        (w : World S)
        → load_or_create_key store rand w
          ≡ continue (store.get signing_key_store_key w.secrets).0 (decoded_or_created store rand) w
    unfolding load_or_create_key
    load_or_create_key_lem w =
        ap
          (λ s.
            continue (store.get signing_key_store_key w.secrets).0 (decoded_or_created store rand)
              (record w { secrets = s }))
          (lawful.reads signing_key_store_key w.secrets)

    key_source :
        (found : Result (Option Text)) (w : World S) {key : List ℕ}
        → (continue found (decoded_or_created store rand) w).0 ≡ ok key
        → ((signing_key_bytes ≤ length key)
            × ((continue found (decoded_or_created store rand) w) ≡ (ok key, w)))
          ⊎ ((rand w.drawn signing_key_bytes ≡ some key)
              × (continue found (decoded_or_created store rand) w ≡ create_key store rand w))
    unfolding decoded_or_created checked_key
    key_source (err f) w e = cc
    key_source (ok none) w e = inr (create_key_drawn w e, refl)
    key_source (ok (some v)) w e = ground arith

    -- Over a lawful store and a random source that fills its buffers, a signing key that is loaded
    -- or created has at least 32 bytes.
    pub length-load_or_create_key :
        (w : World S) {key : List ℕ}
        → (load_or_create_key store rand w).0 ≡ ok key
        → signing_key_bytes ≤ length key
    length-load_or_create_key w {key} e =
        elim (key_source (store.get signing_key_store_key w.secrets).0 w {key = key}
          (rw load_or_create_key_lem at e)) [
            | inl h ↦ h.0
            | inr h ↦ omega (arith, (filled w.drawn signing_key_bytes key h.0).0)
          ]

    key_stored :
        (w : World S) (key : List ℕ)
        → signing_key_bytes ≤ length key
        → All IsByte key
        → (store.get signing_key_store_key w.secrets).0 ≡ ok (some (encode64 key))
        → (load_or_create_key store rand w).0 ≡ ok key
    unfolding load_or_create_key decoded_or_created checked_key
    key_stored w key long bytes e = ground (arith, decode64-encode64 key bytes)

    -- Over a lawful store and a random source that fills its buffers, a signing key that was loaded
    -- or created is what the next start loads.
    pub load_or_create_key_again :
        (w : World S) {key : List ℕ}
        → (load_or_create_key store rand w).0 ≡ ok key
        → (load_or_create_key store rand (load_or_create_key store rand w).1).0 ≡ ok key
    load_or_create_key_again w {key} e =
        let start = load_or_create_key_lem w in
        elim (key_source (store.get signing_key_store_key w.secrets).0 w {key = key}
          (rw start at e)) [
            | inl (_, h) ↦ rw (start ∙ h) e
            | inr (drawn, h) ↦
                let created : (create_key store rand w).0 ≡ ok key = rw (start ∙ h) at e in
                let (done, left) = create_key_stored w created in
                rw (start ∙ h) (
                  key_stored (create_key store rand w).1 key (length-load_or_create_key w e)
                    (filled w.drawn signing_key_bytes key drawn).1
                    (rw left (
                      ground (
                        arith,
                        lawful.get-set signing_key_store_key (encode64 key) signing_key_store_key
                            w.secrets,
                        text_eq_refl signing_key_store_key,
                      ))))
          ]
