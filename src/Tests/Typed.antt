-- ===== src/Tests/Typed.antt =====
-- A pairing code as a person types it, and the discovery of a server.
use lib_agent_mcp.Prelude.Dict.{lookup}
use lib_agent_mcp.Prelude.{ℕ, ◌≡◌, refl, true, false, none, inr, [], List, ◌++◌, take}
use lib_agent_mcp.Prelude.Text.{
  text, text_eq, is_empty, trim_prefix, strip, to_lower, lower, trim_space, trim_right, drop_while,
  is_space, remove_byte, join,
}
use lib_agent_mcp.Oauth.Encoding.{encode32, digit32, crockford, nth}
use lib_agent_mcp.Oauth.Pairing.{
  normalize_pairing, remove_separators, pairing_code_of, pairing_prefix, groups_of_five,
}
use lib_agent_mcp.Oauth.Pairing.RoundTrip.{normalize_pairing-typed}
use lib_agent_mcp.Oauth.Server.{resource_path, protect}
use lib_agent_mcp.Oauth.Http.{Request, bearer_token, bearer_prefix, respond, method_not_allowed}
use lib_agent_mcp.Oauth.Routes.Paths.{is_segment, is_unreserved, one}
use lib_agent_mcp.Oauth.Routes.Laws.{Discoverable, routes-Discoverable}
use lib_agent_mcp.Oauth.Routes.Mounted.{HasPlainPath}
use lib_agent_mcp.Tests.Fixture.{server, platform, empty_world, repeat, rand-Fills}

abbrev drawn : List ℕ
drawn = repeat 16 5

same_typed :
    remove_separators (to_lower (trim_space (text " " ++ to_lower (pairing_code_of drawn))))
    ≡ remove_separators (to_lower (trim_space (pairing_code_of drawn)))
unfolding remove_separators to_lower lower trim_space trim_right drop_while is_space pairing_code_of
    pairing_prefix groups_of_five join remove_byte encode32 digit32 crockford nth text
same_typed = refl

normalize_pairing-typed_example :
    normalize_pairing (text " " ++ to_lower (pairing_code_of drawn)) ≡ take 25 (encode32 drawn)
normalize_pairing-typed_example =
    normalize_pairing-typed drawn (text " " ++ to_lower (pairing_code_of drawn)) refl
      (rand-Fills 5 16 drawn refl).1 same_typed

-- A request for /mcp without a token.
abbrev bare : Request
bare = record {
  method = text "POST";
  authorization = [];
  query = [];
  form = none;
  body = [];
  origin = [];
  body_fails = false;
}

no_token : is_empty (bearer_token bare) ≡ true
unfolding bearer_token bearer_prefix is_empty text
no_token = refl

below_host : HasPlainPath server
unfolding resource_path trim_prefix strip is_segment is_unreserved is_empty text text_eq
below_host = inr (one (text "mcp") refl)

routes-Discoverable_example :
    Discoverable
      (λ patterns path. lookup path patterns)
      server
      (protect platform server 0 (λ v. respond method_not_allowed) bare empty_world).0
routes-Discoverable_example =
    routes-Discoverable platform server (λ patterns path. lookup path patterns)
      (λ patterns path h d k. refl) below_host 0 (λ v. respond method_not_allowed) bare empty_world
      no_token
