-- ===== src/Tests/Runs.antt =====
-- A deployment from its first start: a client registers, is approved with the shared pairing code, and
-- redeems its code.
use Prim.Native.Nat.{min}
use lib_agent_mcp.Prelude.{
  ℕ, false, ◌≡◌, ◌≢◌, ◌≤◌, ◌<◌, ◌∙◌, ap, sym, refl, some, List, [], ◌∷◌, arith,
}
use lib_agent_mcp.Prelude.Text.{
  Text, text, text_eq, is_empty, to_lower, to_upper, lower, upper, trim_space, trim_right,
  drop_while, is_space, trim_prefix, has_prefix, strip, remove_byte, text_le, join,
}
use lib_agent_mcp.Prelude.Dict.{Dict, sorted, insert_sorted, lookup, erase, insert, Each}
use lib_agent_mcp.Oauth.Store.{mem_store, mem_delete_all}
use lib_agent_mcp.Oauth.Store.Laws.{mem_store-IsLawful, mem_store-IsFaithful}
use lib_agent_mcp.Oauth.MapStore
use lib_agent_mcp.Oauth.MapStore.Kept.{Holds}
use lib_agent_mcp.Oauth.World.{World, AuthGrant, Rand, rand_token}
use lib_agent_mcp.Oauth.Encoding.{encode64, digit64, encode32, digit32, decode64}
use lib_agent_mcp.Oauth.Encoding.RoundTrip.{decode64-encode64}
use lib_agent_mcp.Oauth.Clients
use lib_agent_mcp.Oauth.Clients.{registry, clients_store_key, allows_redirect, allows}
use lib_agent_mcp.Oauth.AuthCode
use lib_agent_mcp.Oauth.AuthCode.{consume, live, put}
use lib_agent_mcp.Oauth.Refresh
use lib_agent_mcp.Oauth.Refresh.{refresh_store_key}
use lib_agent_mcp.Oauth.Pkce.{method_s256, verify_pkce}
use lib_agent_mcp.Oauth.Pairing
use lib_agent_mcp.Oauth.Pairing.{
  normalize_pairing, remove_separators, fold_confusable, pairing_prefix, found_or_rotate,
  constant_time_equal_pairing, pairing_code_store_key, pairing_code_of, groups_of_five,
}
use lib_agent_mcp.Oauth.Principal.{
  principals_store_key, named_candidates, candidates, match_loop, verify_principal,
}
use lib_agent_mcp.Oauth.Token.{mint, mint_claims, minted, signing_method}
use lib_agent_mcp.Oauth.Server.{Platform, pairing_code}
use lib_agent_mcp.Oauth.Http.{Request, form_get, write_oauth_error}
use lib_agent_mcp.Oauth.Register.{
  valid_url, valid_redirect_uri, all_valid, register_client, handle_register,
}
use lib_agent_mcp.Oauth.Register.Laws.{IsValidUri}
use lib_agent_mcp.Oauth.Authorize.{
  validate_auth_params, gate_client, through, validated_request, auth_grant, approve, submit_to,
  authorize_submit, submit_form, handle_authorize, parse_auth_params, granted_scope, redirect_to,
  redirect_with,
}
use lib_agent_mcp.Oauth.Grant.{respond_tokens, issue_tokens, redeem, grant_auth_code}
use lib_agent_mcp.Oauth.Routes.{registration, authorization, handle_endpoint}
use lib_agent_mcp.Oauth.Run.{Run, nothing, after, serve, print_code}
use lib_agent_mcp.Oauth.Run.Kept.{IsRegistered, IsSecureGrant}
use lib_agent_mcp.Oauth.Run.Laws.{IsNew, run-IsSecure, run-redeemed, run-spent}
use lib_agent_mcp.Tests.Codec.{client, json-IsLossless}
use lib_agent_mcp.Tests.Fixture.{platform, server, empty_world, repeat, repeat-IsByte}

-- As the platform of the other tests, but each of the first reads gives other bytes than all later
-- ones.
abbrev counting : Rand
counting n m = some (repeat m (min n 200))

abbrev deployed : Platform (Dict Text)
deployed = record platform { rand = counting }

abbrev post : Text → Dict Text → Request
post body form = record {
  method = text "POST";
  query = [];
  form = some form;
  authorization = [];
  origin = [];
  body = body;
  body_fails = false;
}

abbrev approval : Dict Text
approval =
    (text "client_id", encode64 (repeat 16 1))
    ∷ (text "redirect_uri", text "u")
    ∷ (text "response_type", text "code")
    ∷ (text "code_challenge", encode64 (text "v"))
    ∷ (text "code_challenge_method", text "S256")
    ∷ (text "pairing_code", pairing_code_of (repeat 16 0))
    ∷ []

abbrev redemption : Dict Text
redemption =
    (text "code", encode64 (repeat 32 2))
    ∷ (text "client_id", encode64 (repeat 16 1))
    ∷ (text "redirect_uri", text "u")
    ∷ (text "code_verifier", text "v")
    ∷ []

abbrev started : World (Dict Text)
started = (pairing_code deployed empty_world).1

abbrev registered : World (Dict Text)
registered = (handle_endpoint deployed server 0 registration (post (text "u") []) started).1

abbrev approved : World (Dict Text)
approved = (handle_endpoint deployed server 0 authorization (post [] approval) registered).1

new : IsNew deployed empty_world
unfolding MapStore.load MapStore.parsed mem_store lookup
new = record { no_codes = refl; no_clients = refl }

run : Run deployed mem_delete_all empty_world approved
run =
    after (after (after nothing print_code) (serve server 0 registration (post (text "u") [])))
      (serve server 0 authorization (post [] approval))

redeems :
    ((grant_auth_code deployed server 5 redemption approved).0.status ≡ 200) × (approved.drawn ≡ 3)
unfolding grant_auth_code consume live redeem issue_tokens respond_tokens write_oauth_error mint
    mint_claims minted Refresh.issue rand_token verify_pkce encode64 digit64 encode32 digit32
    mem_store MapStore.get MapStore.mutate MapStore.load MapStore.saved MapStore.save
    MapStore.parsed MapStore.encoded MapStore.decoded refresh_store_key form_get lookup erase insert
    text text_eq is_empty method_s256 signing_method Clients.get Clients.register clients_store_key
    allows allows_redirect AuthCode.issue put Pairing.code Pairing.rotate
    Pairing.generate_pairing_code pairing_code normalize_pairing remove_separators fold_confusable
    pairing_prefix found_or_rotate join constant_time_equal_pairing pairing_code_store_key
    pairing_code_of groups_of_five principals_store_key named_candidates candidates match_loop
    verify_principal valid_url valid_redirect_uri all_valid register_client handle_register
    validate_auth_params gate_client through validated_request auth_grant approve submit_to
    authorize_submit submit_form handle_authorize parse_auth_params granted_scope redirect_to
    redirect_with handle_endpoint sorted insert_sorted to_lower to_upper lower upper trim_space
    trim_right drop_while is_space trim_prefix strip has_prefix remove_byte text_le
redeems = (refl, refl)

repeat_same : (x y : ℕ) → some (repeat 32 x) ≡ some (repeat 32 y) → x ≡ y
repeat_same x y e = cc

bytes_same : (x y : ℕ) → x < 256 → y < 256 → encode64 (repeat 32 x) ≡ encode64 (repeat 32 y) → x ≡ y
bytes_same x y hx hy e = repeat_same x y (
    sym (decode64-encode64 (repeat 32 x) (repeat-IsByte 32 x hx))
    ∙ ap decode64 e
    ∙ decode64-encode64 (repeat 32 y) (repeat-IsByte 32 y hy))

seed_differs : (n : ℕ) → 3 ≤ n → min n 200 ≢ 2
seed_differs n h = ground arith

-- The code is not given again.
never_again :
    (n : ℕ) (b : List ℕ)
    → approved.drawn ≤ n
    → counting n 32 ≡ some b
    → encode64 b ≢ form_get redemption (text "code")
unfolding form_get lookup text text_eq
never_again n b later drawn same =
    let bytes : repeat 32 (min n 200) ≡ b = cc in
    let again : encode64 (repeat 32 (min n 200)) ≡ encode64 (repeat 32 2) = rw bytes same in
    seed_differs n (rw redeems.1 at later)
      (bytes_same (min n 200) 2 (omega arith) (omega arith) again)

run-IsSecure_example :
    Holds (registry deployed.store deployed.clients_json) (IsRegistered deployed) approved.secrets
    × Each (λ _. IsSecureGrant deployed) approved.codes
run-IsSecure_example =
    run-IsSecure deployed mem_delete_all mem_store-IsLawful mem_store-IsFaithful
      (json-IsLossless client) new run

run-redeemed_example :
    IsValidUri deployed (form_get redemption (text "redirect_uri"))
    × ((g : AuthGrant) × (lookup (form_get redemption (text "code")) approved.codes ≡ some g)
        × (g.code_challenge_method ≡ method_s256)
        × (g.code_challenge
            ≡ encode64 (deployed.sha256 (form_get redemption (text "code_verifier")))))
run-redeemed_example =
    run-redeemed deployed mem_delete_all mem_store-IsLawful mem_store-IsFaithful
      (json-IsLossless client) server 5 redemption new run redeems.0

run-spent_example :
    (grant_auth_code deployed server 7 redemption
      (pairing_code deployed (grant_auth_code deployed server 5 redemption approved).1).1).0
    ≡ write_oauth_error 400 (text "invalid_grant") (text "authorization code is invalid or expired")
run-spent_example =
    run-spent deployed mem_delete_all mem_store-IsLawful mem_store-IsFaithful
      (json-IsLossless client) server server 5 7 redemption redemption new run never_again
      (after nothing print_code) refl
