-- ===== src/Tests/Tokens.antt =====
-- The token endpoint on the scene.
use lib_agent_mcp.Prelude.{◌≡◌, refl, none, some, if◌then◌else◌}
use lib_agent_mcp.Prelude.Text.{Text, text, text_eq, is_empty}
use lib_agent_mcp.Prelude.Dict.{lookup, erase, insert}
use lib_agent_mcp.Exec.{ok}
use lib_agent_mcp.Oauth.Store.{mem_store}
use lib_agent_mcp.Oauth.Store.Laws.{mem_store-IsLawful}
use lib_agent_mcp.Oauth.MapStore
use lib_agent_mcp.Oauth.Encoding.{encode64, digit64}
use lib_agent_mcp.Oauth.World.{AuthGrant, RefreshGrant, rand_token}
use lib_agent_mcp.Oauth.AuthCode.{consume, live}
use lib_agent_mcp.Oauth.Pkce.{verify_pkce, method_s256}
use lib_agent_mcp.Oauth.Refresh
use lib_agent_mcp.Oauth.Refresh.{refresh_store_key, exchange}
use lib_agent_mcp.Oauth.Refresh.Laws.{held}
use lib_agent_mcp.Oauth.Token.{mint, mint_claims, minted, signing_method}
use lib_agent_mcp.Oauth.Http.{form_get, write_oauth_error}
use lib_agent_mcp.Oauth.Grant.{
  respond_tokens, issue_tokens, redeem, grant_auth_code, renew, grant_refresh,
}
use lib_agent_mcp.Oauth.Grant.Laws.{
  IsRedeemable, Issued, grant_auth_code_sound, grant_refresh_rotates,
}
use lib_agent_mcp.Tests.Codec.{refresh_grant, json, json-IsLossless}
use lib_agent_mcp.Tests.Fixture.{platform, server}
use lib_agent_mcp.Tests.Scene.{scene, stored_refresh, code_form, refresh_form}

redeems : (grant_auth_code platform server 5 code_form scene).0.status ≡ 200
unfolding grant_auth_code consume live redeem issue_tokens respond_tokens write_oauth_error mint
    mint_claims minted Refresh.issue rand_token verify_pkce encode64 digit64 mem_store
    MapStore.mutate MapStore.load MapStore.saved MapStore.save MapStore.parsed MapStore.encoded
    MapStore.decoded refresh_store_key form_get lookup erase insert text text_eq is_empty
    method_s256 signing_method
redeems = refl

renews : (grant_refresh platform server 5 refresh_form scene).0.status ≡ 200
unfolding grant_refresh exchange renew issue_tokens respond_tokens write_oauth_error mint
    mint_claims minted Refresh.issue rand_token encode64 digit64 mem_store MapStore.mutate
    MapStore.load MapStore.saved MapStore.save MapStore.parsed MapStore.encoded MapStore.decoded
    refresh_store_key form_get lookup erase insert text text_eq is_empty signing_method
renews = refl

pub exchanges :
    (exchange mem_store (json refresh_grant) (text "r") scene.secrets).0 ≡ ok (some stored_refresh)
unfolding exchange mem_store MapStore.mutate MapStore.load MapStore.saved MapStore.save
    MapStore.parsed MapStore.encoded MapStore.decoded refresh_store_key lookup erase insert text
    text_eq is_empty
exchanges = refl

grant_auth_code_sound_example :
    (g : AuthGrant) × IsRedeemable platform server 5 code_form scene g
    × Issued platform server 5 g.client_id g.scope g.principal
        (consume 5 (form_get code_form (text "code")) scene).1
        (grant_auth_code platform server 5 code_form scene).0
        (grant_auth_code platform server 5 code_form scene).1
grant_auth_code_sound_example = grant_auth_code_sound platform server 5 code_form scene redeems

grant_refresh_rotates_example :
    (g : RefreshGrant) × (fresh : Text) × (held platform.store platform.refresh_json
        (form_get refresh_form (text "refresh_token"))
        scene.secrets
      ≡ ok (some g))
    × (held platform.store platform.refresh_json fresh
          (grant_refresh platform server 5 refresh_form scene).1.secrets
        ≡ ok (some g))
    × (held platform.store platform.refresh_json
          (form_get refresh_form (text "refresh_token"))
          (grant_refresh platform server 5 refresh_form scene).1.secrets
        ≡ (if text_eq fresh (form_get refresh_form (text "refresh_token"))
            then ok (some g)
            else ok none))
grant_refresh_rotates_example =
    grant_refresh_rotates platform server mem_store-IsLawful (json-IsLossless refresh_grant) 5
      refresh_form scene renews
