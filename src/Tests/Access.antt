-- ===== src/Tests/Access.antt =====
-- Authorization, principals and the gate on the scene.
use lib_agent_mcp.Prelude.{
  ◌≡◌, ◌≢◌, ◌⊎◌, ◌↔◌, inr, refl, true, false, none, some, [], ◌∷◌, if◌then◌else◌, All,
}
use lib_agent_mcp.Prelude.Text.{
  text, text_eq, is_empty, to_lower, to_upper, lower, upper, trim_space, trim_prefix, remove_byte,
  trim_right, drop_while, is_space, has_prefix, text_le,
}
use lib_agent_mcp.Prelude.Dict.{sorted, insert_sorted, lookup, erase, insert, unless, erase_values}
use lib_agent_mcp.Exec.{ok}
use lib_agent_mcp.Oauth.Store.{mem_store}
use lib_agent_mcp.Oauth.Store.Laws.{mem_store-IsLawful}
use lib_agent_mcp.Oauth.MapStore
use lib_agent_mcp.Oauth.World.{rand_token}
use lib_agent_mcp.Oauth.Pairing.{
  normalize_pairing, remove_separators, fold_confusable, pairing_prefix, found_or_rotate,
  constant_time_equal_pairing, pairing_code_store_key,
}
use lib_agent_mcp.Oauth.Pairing
use lib_agent_mcp.Oauth.Refresh.{refresh_store_key, any_value, remove_for_principal, is_of}
use lib_agent_mcp.Oauth.Refresh.Laws.{held}
use lib_agent_mcp.Oauth.Principal.{
  principals_store_key, named_candidates, candidates, match_loop, verify_principal,
  remove_principal,
}
use lib_agent_mcp.Oauth.Principal.Revocation.{stored, remove_principal_lem}
use lib_agent_mcp.Oauth.Principal.Verify.{Consulted, Matched, verify_principal_sound}
use lib_agent_mcp.Oauth.Server.{Registration}
use lib_agent_mcp.Oauth.Http.{Request}
use lib_agent_mcp.Oauth.Authorize.{authorize_submit}
use lib_agent_mcp.Oauth.Authorize.Laws.{IsApproved, authorize_submit_sound}
use lib_agent_mcp.Oauth.Clients
use lib_agent_mcp.Oauth.Clients.{clients_store_key}
use lib_agent_mcp.Oauth.Encoding.{encode64, digit64}
use lib_agent_mcp.Oauth.Register.{register_client, all_valid, valid_redirect_uri, valid_url}
use lib_agent_mcp.Oauth.Register.Laws.{IsValidUri, register_client_sound}
use lib_agent_mcp.Tests.Codec.{refresh_grant, principal_record, json, json-IsLossless}
use lib_agent_mcp.Tests.Fixture.{platform, server, rand}
use lib_agent_mcp.Tests.Scene.{scene, ann, params, stored_refresh}

authorize_submit_sound_example :
    ((authorize_submit platform server 5 params (text "k2") scene).1.codes ≡ scene.codes)
    ⊎ IsApproved platform server 5 params
        (text "k2")
        scene
        (authorize_submit platform server 5 params (text "k2") scene).1
authorize_submit_sound_example = authorize_submit_sound platform server 5 params (text "k2") scene

abbrev pub request : Request
request = record {
  method = text "POST";
  query = [];
  form = none;
  authorization = text "Bearer abc";
  origin = [];
  body = [];
  body_fails = false;
}

removes :
    (remove_principal mem_store
      (json principal_record)
      rand
      (json refresh_grant)
      (text "ann")
      scene).0
    ≡ ok true
unfolding remove_principal remove_for_principal any_value mem_store MapStore.mutate MapStore.load
    MapStore.saved MapStore.save MapStore.parsed MapStore.encoded MapStore.decoded refresh_store_key
    principals_store_key lookup erase insert erase_values text text_eq is_empty
removes = refl

pub holds : held mem_store (json refresh_grant) (text "r") scene.secrets ≡ ok (some stored_refresh)
unfolding mem_store MapStore.get MapStore.load MapStore.parsed MapStore.decoded refresh_store_key
    lookup text text_eq is_empty
holds = refl

pub named : is_empty (text "ann") ≡ false
unfolding text is_empty
named = refl

remove_principal_lem_example :
    (stored mem_store
        (json principal_record)
        rand
        (json refresh_grant)
        (text "bob")
        (remove_principal mem_store
          (json principal_record)
          rand
          (json refresh_grant)
          (text "ann")
          scene).1.secrets
      ≡ (if text_eq (text "ann") (text "bob")
          then ok none
          else stored mem_store
              (json principal_record)
              rand
              (json refresh_grant)
              (text "bob")
              scene.secrets))
    × ((true ≡ true) ↔ (
        stored mem_store
          (json principal_record)
          rand
          (json refresh_grant)
          (text "ann")
          scene.secrets
        ≢ ok none))
    × (held mem_store
          (json refresh_grant)
          (text "r")
          (remove_principal mem_store
            (json principal_record)
            rand
            (json refresh_grant)
            (text "ann")
            scene).1.secrets
        ≡ ok (unless (is_of (text "ann")) (some stored_refresh)))
remove_principal_lem_example =
    remove_principal_lem mem_store (json principal_record) rand (json refresh_grant)
      mem_store-IsLawful (json-IsLossless principal_record) (json-IsLossless refresh_grant)
      (text "ann") (text "bob") (text "r") scene named removes holds

verifies :
    (verify_principal mem_store (json principal_record) rand (text "K2") scene).0 ≡ ok (some ann)
unfolding verify_principal candidates named_candidates sorted insert_sorted match_loop
    constant_time_equal_pairing normalize_pairing remove_separators fold_confusable pairing_prefix
    Pairing.code found_or_rotate pairing_code_store_key principals_store_key mem_store MapStore.load
    MapStore.parsed MapStore.decoded lookup text text_eq text_le is_empty to_lower to_upper lower
    upper trim_space trim_right drop_while is_space trim_prefix has_prefix remove_byte
verifies = refl

verify_principal_sound_example :
    (c : Consulted mem_store (json principal_record) rand scene) × Matched mem_store
      (json principal_record)
      rand
      (text "K2")
      c.shared
      c.records
      ann
verify_principal_sound_example =
    verify_principal_sound mem_store (json principal_record) rand (text "K2") scene verifies

consulted : Consulted mem_store (json principal_record) rand scene
unfolding Pairing.code found_or_rotate pairing_code_store_key principals_store_key mem_store
    MapStore.load MapStore.parsed MapStore.decoded lookup text text_eq is_empty
consulted = record {
  shared = text "mcp-j7";
  records = (text "ann", record { code = text "k2"; binding = [] }) ∷ [];
  shared_read = refl;
  records_read = refl;
}

entered : normalize_pairing (text "MCP J7") ≡ normalize_pairing consulted.shared
unfolding consulted normalize_pairing remove_separators fold_confusable pairing_prefix text text_eq
    to_lower to_upper lower upper trim_space trim_right drop_while is_space trim_prefix has_prefix
    remove_byte
entered = refl

abbrev request_body : Registration
request_body = record { redirect_uris = text "https://c" ∷ []; client_name = text "n" }

registers : (register_client platform (some request_body) scene).0.status ≡ 201
unfolding register_client Clients.register all_valid valid_redirect_uri valid_url rand_token
    encode64 digit64 mem_store MapStore.mutate MapStore.load MapStore.saved MapStore.save
    MapStore.parsed MapStore.encoded MapStore.decoded clients_store_key lookup erase insert text
    text_eq is_empty
registers = refl

register_client_sound_example :
    (req : Registration) × (some request_body ≡ some req)
    × (req.redirect_uris ≢ [])
    × All (IsValidUri platform) req.redirect_uris
register_client_sound_example =
    register_client_sound platform (some request_body) scene (inr registers)
