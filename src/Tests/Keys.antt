-- ===== src/Tests/Keys.antt =====
-- Codes, tokens, keys and the PKCE check at concrete inputs.
use lib_agent_mcp.Prelude.{◌+◌, ◌*◌, ◌/◌, ◌≡◌, refl, [], arith}
use lib_agent_mcp.Prelude.Text.{Text, text, text_eq}
use lib_agent_mcp.Prelude.Dict.{lookup, insert}
use lib_agent_mcp.Exec.{ok}
use lib_agent_mcp.Oauth.Store.{mem_store}
use lib_agent_mcp.Oauth.Store.Laws.{mem_store-IsLawful}
use lib_agent_mcp.Oauth.World.{Verified, second}
use lib_agent_mcp.Oauth.Token.{
  mint, minted, mint_claims, validate, load_or_create_key, create_key, decoded_or_created,
  signing_key_store_key,
}
use lib_agent_mcp.Oauth.Token.Laws.{validate-mint, load_or_create_key_again}
use lib_agent_mcp.Tests.Codec.{pair, bytes}
use lib_agent_mcp.Tests.Fixture.{claims, repeat, issuer, key, jwt, jwt-IsJwt, rand, rand-Fills}
use lib_agent_mcp.Tests.Scene.{scene, ann}

abbrev bearer : Text
bearer = (pair bytes claims).put (key, mint_claims issuer 0 (text "c") (text "mcp") ann) []

mints : mint jwt issuer 0 (text "c") (text "mcp") ann ≡ ok (bearer, 3600 * second)
unfolding mint minted
mints = refl

abbrev seen : Verified
seen = record {
  client_id = text "c";
  scope = text "mcp";
  grant = ann;
  expires_at = (0 + issuer.ttl) / second * second;
}

validate-mint_example : validate jwt issuer (5 * second) bearer ≡ ok seen
validate-mint_example =
    validate-mint jwt issuer (jwt-IsJwt key) 0 (5 * second) (text "c") (text "mcp") ann mints
      (omega arith)

creates : (load_or_create_key mem_store rand scene).0 ≡ ok (repeat 32 3)
unfolding load_or_create_key decoded_or_created create_key mem_store lookup insert text text_eq
    signing_key_store_key
creates = refl

load_or_create_key_again_example :
    (load_or_create_key mem_store rand (load_or_create_key mem_store rand scene).1).0
    ≡ ok (repeat 32 3)
load_or_create_key_again_example =
    load_or_create_key_again mem_store rand rand-Fills mem_store-IsLawful scene creates
