-- ===== src/Tests/Fixture.antt =====
-- A concrete platform: the in-memory store, a counting random source, the identity as the hash
-- function, every address parsed as an encrypted one, and a JWT library that signs by writing the key
-- into the token.
use lib_agent_mcp.Prelude.{
  ℕ, zero, suc, ◌*◌, ◌%◌, ◌<◌, ◌≡◌, ◌∙◌, refl, ap, Bool, true, false, ◌&&◌, Option, none, some,
  List, [], ◌∷◌, arith, length, any, ltb, All, if◌then◌else◌,
}
use lib_agent_mcp.Prelude.Text.{Text, text, text_eq, text_eq_iff, text_eq_refl}
use lib_agent_mcp.Prelude.Dict.{Dict}
use lib_agent_mcp.Oauth.Store.{mem_store}
use lib_agent_mcp.Oauth.Encoding.RoundTrip.{IsByte}
use lib_agent_mcp.Oauth.World.{World, Rand, second}
use lib_agent_mcp.Oauth.Token.{TokenClaims, Expected, Parsed, Jwt, Issuer}
use lib_agent_mcp.Oauth.Token.Laws.{IsJwt, Meets, Fills}
use lib_agent_mcp.Oauth.Server.{Platform, Server}
use lib_agent_mcp.Tests.Codec.{
  Codec, pair, list, bytes, binding, client, refresh_grant, principal_record, json, get_as, as_back,
}

abbrev pub get_option : Text → Option (Option ℕ × Text)
get_option [] = none
get_option (zero ∷ rest) = some (none, rest)
get_option (suc _ ∷ []) = none
get_option (suc _ ∷ n ∷ rest) = some (some n, rest)

abbrev pub put_option : Option ℕ → Text → Text
put_option none rest = 0 ∷ rest
put_option (some n) rest = 1 ∷ n ∷ rest

pub option_back : (o : Option ℕ) (rest : Text) → get_option (put_option o rest) ≡ some (o, rest)
option_back none rest = refl
option_back (some n) rest = refl

abbrev pub option : Codec (Option ℕ)
option = record { put = put_option; get = get_option; back = option_back }

abbrev pub Shape : Type 0
Shape = (Text × (Text × Dict Text)) × ((Text × (Text × List Text)) × (Option ℕ × Option ℕ))

abbrev pub shape : Codec Shape
shape =
    pair (pair bytes (pair bytes binding))
      (pair (pair bytes (pair bytes (list bytes))) (pair option option))

abbrev pub to_claims : Shape → TokenClaims
to_claims ((s, (p, b)), ((i, (u, a)), (t, e))) = record {
  scope = s;
  principal = p;
  binding = b;
  issuer = i;
  subject = u;
  audience = a;
  issued_at = t;
  expires_at = e;
}

abbrev pub from_claims : TokenClaims → Shape
from_claims c = (
  (c.scope, (c.principal, c.binding)),
  ((c.issuer, (c.subject, c.audience)), (c.issued_at, c.expires_at)),
)

abbrev pub claims : Codec TokenClaims
claims = record {
  put = λ c. shape.put (from_claims c);
  get = λ t. get_as to_claims (shape.get t);
  back = λ c. as_back shape to_claims (from_claims c);
}

abbrev pub unexpired : ℕ → Option ℕ → Bool
unexpired now none = false
unexpired now (some t) = ltb now (t * second)

abbrev pub meets : Expected → TokenClaims → Bool
meets e c =
    text_eq c.issuer e.issuer
    && (any (text_eq e.audience) c.audience && unexpired e.now c.expires_at)

abbrev pub checked : List ℕ → Expected → Option ((List ℕ × TokenClaims) × Text) → Option Parsed
checked key e none = none
checked key e (some ((k, c), _)) =
    if text_eq k key && meets e c then some (record { valid = true; claims = c }) else none

abbrev pub jwt : Jwt
jwt = record {
  signed_string = λ method key c. some ((pair bytes claims).put (key, c) []);
  parse_with_claims = λ key e token. checked key e ((pair bytes claims).get token);
}

Meets-meets : (e : Expected) (c : TokenClaims) → Meets e c → meets e c ≡ true
Meets-meets e c m =
    ground (arith, m.issuer, m.audience, m.expires, m.unexpired, text_eq_iff c.issuer e.issuer)

meets-Meets :
    (e : Expected) (c : TokenClaims) (o : Option ℕ)
    → c.expires_at ≡ o
    → meets e c ≡ true
    → Meets e c
meets-Meets e c none h m = ground arith
meets-Meets e c (some t) h m = record {
  issuer = ground (arith, text_eq_iff c.issuer e.issuer);
  audience = ground arith;
  expiry = t;
  expires = h;
  unexpired = ground arith;
}

checked-Meets :
    (key : List ℕ) (e : Expected) (o : Option ((List ℕ × TokenClaims) × Text)) {p : Parsed}
    → checked key e o ≡ some p
    → Meets e p.claims
checked-Meets key e none h = cc
checked-Meets key e (some ((k, c), rest)) {p} h =
    meets-Meets e p.claims p.claims.expires_at refl (ground arith)

signed :
    (token : Text) (key : List ℕ) (c : TokenClaims) (e : Expected)
    → token ≡ (pair bytes claims).put (key, c) []
    → Meets e c
    → jwt.parse_with_claims key e token ≡ some (record { valid = true; claims = c })
signed token key c e t m = rw (t) (
    ap (checked key e) ((pair bytes claims).back (key, c) [])
    ∙ ground (arith, Meets-meets e c m, text_eq_refl key))

pub jwt-IsJwt : (key : List ℕ) → IsJwt jwt key
jwt-IsJwt key = record {
  accepts = λ method token c e s _ m. signed token key c e (ground arith) m;
  refuses = λ e token h _. checked-Meets key e ((pair bytes claims).get token) h;
}

abbrev pub repeat : ℕ → ℕ → List ℕ
repeat zero b = []
repeat (suc n) b = b ∷ repeat n b

-- The n-th read gives bytes that are all n.
abbrev pub rand : Rand
rand n m = some (repeat m (n % 256))

length-repeat : (m b : ℕ) → length (repeat m b) ≡ m
length-repeat zero b = refl
length-repeat (suc m) b = ap suc (length-repeat m b)

pub repeat-IsByte : (m b : ℕ) → b < 256 → All IsByte (repeat m b)
repeat-IsByte zero b h = tt
repeat-IsByte (suc m) b h = (h, repeat-IsByte m b h)

pub rand-Fills : Fills rand
rand-Fills n m b e =
    rw (some-path e) (length-repeat m (n % 256), repeat-IsByte m (n % 256) (omega arith))
  where
    some-path : some (repeat m (n % 256)) ≡ some b → b ≡ repeat m (n % 256)
    some-path e = cc

abbrev pub platform : Platform (Dict Text)
platform = record {
  store = mem_store;
  rand = rand;
  sha256 = λ s. s;
  jwt = jwt;
  parse_url = λ s. some (record { scheme = text "https"; host = text "c"; hostname = text "c" });
  clients_json = json client;
  refresh_json = json refresh_grant;
  principals_json = json principal_record;
  decode_registration = λ s. some (record { redirect_uris = s ∷ []; client_name = [] });
}

abbrev pub key : List ℕ
key = repeat 32 5

abbrev pub issuer : Issuer
issuer = record {
  key = key;
  issuer = text "https://h";
  audience = text "https://h/mcp";
  ttl = 3600 * second;
}

abbrev pub server : Server
server = record {
  public_url = text "https://h";
  resource = text "https://h/mcp";
  scopes = text "mcp" ∷ [];
  issuer = issuer;
}

abbrev pub empty_world : World (Dict Text)
empty_world = record { secrets = []; drawn = 0; codes = [] }
