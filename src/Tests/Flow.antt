-- ===== src/Tests/Flow.antt =====
-- The authorization flow on the scene: ann approves, and her client redeems the code and calls.
use lib_agent_mcp.Prelude.{
  ◌+◌, ◌*◌, ◌/◌, ◌≡◌, refl, false, none, [], ◌∷◌, ◌++◌, arith, if◌then◌else◌,
}
use lib_agent_mcp.Prelude.Text.{
  Text, text, text_eq, is_empty, to_lower, to_upper, lower, upper, equal_fold, trim_space,
  trim_right, drop_while, is_space, trim_prefix, has_prefix, remove_byte, text_le,
}
use lib_agent_mcp.Prelude.Dict.{Dict, sorted, insert_sorted, lookup, erase, insert}
use lib_agent_mcp.Oauth.Store.{mem_store}
use lib_agent_mcp.Oauth.MapStore
use lib_agent_mcp.Oauth.World.{Verified, rand_token, second}
use lib_agent_mcp.Oauth.Encoding.{encode64, digit64}
use lib_agent_mcp.Oauth.Clients
use lib_agent_mcp.Oauth.Clients.{clients_store_key, allows_redirect}
use lib_agent_mcp.Oauth.AuthCode.{consume, live}
use lib_agent_mcp.Oauth.Refresh
use lib_agent_mcp.Oauth.Refresh.{refresh_store_key}
use lib_agent_mcp.Oauth.Pkce.{method_s256}
use lib_agent_mcp.Oauth.Pairing
use lib_agent_mcp.Oauth.Pairing.{
  normalize_pairing, remove_separators, fold_confusable, pairing_prefix, found_or_rotate,
  constant_time_equal_pairing, pairing_code_store_key,
}
use lib_agent_mcp.Oauth.Principal.{
  principals_store_key, named_candidates, candidates, match_loop, verify_principal,
}
use lib_agent_mcp.Oauth.Token.{mint, mint_claims, minted, signing_method}
use lib_agent_mcp.Oauth.Server.{Server, protect}
use lib_agent_mcp.Oauth.Http.{
  Request, Handler, redirect, inner, form_get, write_json, tokens, bearer_token, bearer_prefix,
}
use lib_agent_mcp.Oauth.Grant.{grant_auth_code}
use lib_agent_mcp.Oauth.Authorize.{authorize_submit, granted_scope}
use lib_agent_mcp.Oauth.Authorize.Laws.{IsSafe}
use lib_agent_mcp.Oauth.Flow.{Approvable, Answers, Issuable, approved_world}
use lib_agent_mcp.Oauth.Flow.Live.{authorization_flow}
use lib_agent_mcp.Tests.Codec.{pair, bytes}
use lib_agent_mcp.Tests.Fixture.{platform, server, issuer, claims, repeat, jwt-IsJwt}
use lib_agent_mcp.Tests.Scene.{scene, params, ann, stored_client}

-- A key of 33 bytes: the token of the test library starts with the key's length, and a first byte
-- of 32 would be a space.
abbrev long_server : Server
long_server = record server { issuer = record issuer { key = repeat 33 5 } }

safe : IsSafe params stored_client
unfolding allows_redirect text text_eq method_s256 encode64 digit64
safe = record {
  registered_uri = refl;
  uri_given = ground arith;
  asks_code = refl;
  challenge_given = ground arith;
  s256 = refl;
}

approvable : Approvable platform long_server params (text "K2") scene
unfolding Clients.get clients_store_key MapStore.get verify_principal candidates named_candidates
    sorted insert_sorted match_loop constant_time_equal_pairing normalize_pairing remove_separators
    fold_confusable pairing_prefix Pairing.code found_or_rotate pairing_code_store_key
    principals_store_key mem_store MapStore.load MapStore.parsed MapStore.decoded lookup text
    text_eq text_le is_empty to_lower to_upper lower upper trim_space trim_right drop_while is_space
    trim_prefix has_prefix remove_byte
approvable = record {
  client = stored_client;
  named = refl;
  registered = refl;
  safe = safe;
  principal = ann;
  paired = refl;
  bytes = repeat 32 3;
  drawn = refl;
}

abbrev form : Dict Text
form =
    (text "code", encode64 (repeat 32 3))
    ∷ (text "client_id", text "c")
    ∷ (text "redirect_uri", text "u")
    ∷ (text "code_verifier", text "v")
    ∷ []

answers : Answers platform long_server form params approvable.client approvable.bytes
unfolding approvable form_get lookup text text_eq
answers = record {
  code = refl;
  client = refl;
  redirect = refl;
  given = ground arith;
  proves = refl;
}

abbrev token : Text
token =
    (pair bytes claims).put
      (
        long_server.issuer.key,
        mint_claims long_server.issuer 5 (text "c") (granted_scope long_server []) ann,
      )
      []

issuable :
    Issuable platform long_server 5 approvable.client.id
      (granted_scope long_server params.scope)
      approvable.principal
      (consume 5
        (form_get form (text "code"))
        (approved_world platform long_server 0 params (text "K2") scene approvable)).1
unfolding approvable mint minted Refresh.issue rand_token mem_store MapStore.mutate MapStore.load
    MapStore.saved MapStore.save MapStore.parsed MapStore.encoded MapStore.decoded refresh_store_key
    consume live lookup insert erase text text_eq is_empty form_get encode64 digit64 signing_method
    Clients.get clients_store_key MapStore.get verify_principal candidates named_candidates sorted
    insert_sorted match_loop constant_time_equal_pairing normalize_pairing remove_separators
    fold_confusable pairing_prefix Pairing.code found_or_rotate pairing_code_store_key
    principals_store_key text_le to_lower to_upper lower upper trim_space trim_right drop_while
    is_space trim_prefix has_prefix remove_byte
issuable = record {
  access = token;
  ttl = 3600 * second;
  refresh = encode64 (repeat 32 4);
  minted = refl;
  issued = refl;
}

abbrev call : Request
call = record {
  method = text "POST";
  query = [];
  form = none;
  authorization = text "Bearer " ++ token;
  origin = [];
  body = [];
  body_fails = false;
}

presented : bearer_token call ≡ issuable.access
unfolding issuable bearer_token bearer_prefix equal_fold to_lower lower text text_eq trim_space
    trim_right drop_while is_space mint_claims granted_scope is_empty
presented = refl

accepted : Verified → Handler (Dict Text)
accepted v w = (record { status = 202; headers = []; body = inner v.grant.name }, w)

token_given : is_empty issuable.access ≡ false
unfolding issuable is_empty
token_given = refl

authorization_flow_example :
    ((authorize_submit platform long_server 0 params (text "K2") scene).0 ≡ record {
      status = 302;
      headers = [];
      body = redirect params.redirect_uri (
          (text "code", encode64 approvable.bytes)
          ∷ (if is_empty params.state then [] else (text "state", params.state) ∷ []));
    })
    × ((grant_auth_code platform long_server 5 form
          (authorize_submit platform long_server 0 params (text "K2") scene).1).0
        ≡ write_json 200 (
            tokens issuable.access
              (issuable.ttl / second)
              issuable.refresh
              (granted_scope long_server params.scope)))
    × (protect platform long_server (7 * second) accepted call scene
        ≡ accepted
            (record {
              client_id = approvable.client.id;
              scope = granted_scope long_server params.scope;
              grant = approvable.principal;
              expires_at = (5 + long_server.issuer.ttl) / second * second;
            })
            scene)
authorization_flow_example =
    authorization_flow platform long_server (jwt-IsJwt (repeat 33 5)) 0 5 (7 * second) params
      (text "K2") scene approvable form answers (omega arith) issuable accepted call scene presented
      token_given (omega arith) refl
