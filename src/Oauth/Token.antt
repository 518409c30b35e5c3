-- ===== src/Oauth/Token.antt =====
-- oauth/token.go. The JWT library (golang-jwt) and the reading of the clock are parameters.
pub mod Laws
use lib_agent_mcp.Prelude.{
  ℕ, ◌+◌, ◌*◌, ◌/◌, Bool, true, false, not, Option, none, some, List, [], ◌∷◌, length, ltb,
  if◌then◌else◌,
}
use lib_agent_mcp.Prelude.Text.{Text, text}
use lib_agent_mcp.Prelude.Dict.{Dict}
use lib_agent_mcp.Exec.{
  Exec, Result, ok, err, bad_key, weak_key, signing_failed, bad_token, pure, raise, ◌>>=◌, ◌>>◌,
}
use lib_agent_mcp.Oauth.Encoding.{encode64, decode64}
use lib_agent_mcp.Oauth.Store.{SecretStore}
use lib_agent_mcp.Oauth.World.{World, Rand, PrincipalGrant, Verified, second, on_store, read_random}

-- tokenClaims; an instant (jwt.NumericDate) is in whole seconds.
pub record TokenClaims : Type 0 where
  pub scope : Text
  pub principal : Text
  pub binding : Dict Text
  pub issuer : Text
  pub subject : Text
  pub audience : List Text
  pub issued_at : Option ℕ
  pub expires_at : Option ℕ

-- The options that Validate gives to the parser, and the instant at which it is called.
pub record Expected : Type 0 where
  pub methods : List Text
  pub issuer : Text
  pub audience : Text
  pub expiration_required : Bool
  pub now : ℕ

pub record Parsed : Type 0 where
  pub valid : Bool
  pub claims : TokenClaims

pub record Jwt : Type 0 where
  -- NewWithClaims(method, claims).SignedString(key)
  pub signed_string : Text → List ℕ → TokenClaims → Option Text
  -- ParseWithClaims with a key function that gives this key
  pub parse_with_claims : List ℕ → Expected → Text → Option Parsed

pub record Issuer : Type 0 where
  pub key : List ℕ
  pub issuer : Text
  pub audience : Text
  pub ttl : ℕ

unfoldable pub signing_key_store_key : Text
signing_key_store_key = text "signing-key"

abbrev pub signing_key_bytes : ℕ
signing_key_bytes = 32

-- signingMethod.Alg()
unfoldable pub signing_method : Text
signing_method = text "HS256"

-- jwt.NewNumericDate: whole seconds
abbrev pub numeric_date : ℕ → ℕ
numeric_date t = t / second

unfoldable pub mint_claims : Issuer → ℕ → Text → Text → PrincipalGrant → TokenClaims
mint_claims i now client_id scope p = record {
  scope = scope;
  principal = p.name;
  binding = p.binding;
  issuer = i.issuer;
  subject = client_id;
  audience = i.audience ∷ [];
  issued_at = some (numeric_date now);
  expires_at = some (numeric_date (now + i.ttl));
}

-- What Validate asks of the parser.
unfoldable pub expected : Issuer → ℕ → Expected
expected i now = record {
  methods = signing_method ∷ [];
  issuer = i.issuer;
  audience = i.audience;
  expiration_required = true;
  now = now;
}

module _ (jwt : Jwt) where
  unfoldable pub minted : Issuer → Option Text → Result (Text × ℕ)
  minted i none = err signing_failed
  minted i (some signed) = ok (signed, i.ttl)

  -- The method Mint: the signed token and its lifetime.
  unfoldable pub mint : Issuer → ℕ → Text → Text → PrincipalGrant → Result (Text × ℕ)
  unfolding minted
  mint i now client_id scope p =
      minted i (jwt.signed_string signing_method i.key (mint_claims i now client_id scope p))

  unfoldable pub verified : TokenClaims → Option ℕ → Result Verified
  verified c none = err bad_token
  verified c (some t) = ok (record {
    client_id = c.subject;
    scope = c.scope;
    grant = record { name = c.principal; binding = c.binding };
    expires_at = t * second;
  })

  unfoldable pub accepted : Option Parsed → Result Verified
  unfolding verified
  accepted none = err bad_token
  accepted (some p) = if p.valid then verified p.claims p.claims.expires_at else err bad_token

  -- The method Validate.
  unfoldable pub validate : Issuer → ℕ → Text → Result Verified
  unfolding accepted
  validate i now token = accepted (jwt.parse_with_claims i.key (expected i now) token)

module _ {S : Type 0} (store : SecretStore S) (rand : Rand) where
  unfoldable pub checked_key : Option (List ℕ) → Exec (World S) (List ℕ)
  checked_key none = raise bad_key
  checked_key (some key) =
      if ltb (length key) signing_key_bytes then raise (weak_key (length key)) else pure key

  unfoldable pub create_key : Exec (World S) (List ℕ)
  create_key = do
    key ← read_random rand signing_key_bytes
    on_store (store.set signing_key_store_key (encode64 key))
    pure key

  unfoldable pub decoded_or_created : Option Text → Exec (World S) (List ℕ)
  decoded_or_created (some v) = checked_key (decode64 v)
  decoded_or_created none = create_key

  unfoldable pub load_or_create_key : Exec (World S) (List ℕ)
  load_or_create_key = do v ← on_store (store.get signing_key_store_key); decoded_or_created v

  unfoldable pub new_issuer : Text → Text → ℕ → Exec (World S) Issuer
  new_issuer issuer audience ttl = do
    key ← load_or_create_key
    pure (record { key = key; issuer = issuer; audience = audience; ttl = ttl })
