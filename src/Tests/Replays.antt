-- ===== src/Tests/Replays.antt =====
-- The refresh tokens of the scene: one is exchanged, and again, and its principal removed.
use lib_agent_mcp.Prelude.{◌≡◌, refl, none, some, List, [], ◌∷◌, if◌then◌else◌}
use lib_agent_mcp.Prelude.Text.{text, text_eq, is_empty}
use lib_agent_mcp.Prelude.Dict.{lookup, erase, insert, erase_values}
use lib_agent_mcp.Exec.{ok}
use lib_agent_mcp.Oauth.Store.{mem_store}
use lib_agent_mcp.Oauth.Store.Laws.{mem_store-IsLawful}
use lib_agent_mcp.Oauth.MapStore
use lib_agent_mcp.Oauth.Refresh.{refresh_store_key, exchange, remove_for_principal, any_value}
use lib_agent_mcp.Oauth.Refresh.Replay.{
  Operation, exchanging, removing, Report, exchanged, removed, Grants, perform, perform_all, Reads,
  replay, AreTrue, perform_all-replay,
}
use lib_agent_mcp.Tests.Codec.{refresh_grant, json, json-IsLossless}
use lib_agent_mcp.Tests.Fixture.{rand}
use lib_agent_mcp.Tests.Scene.{scene, stored_refresh}

abbrev operations : List Operation
operations = exchanging (text "r") ∷ exchanging (text "r") ∷ removing (text "ann") ∷ []

abbrev reports : List Report
reports =
    exchanged (text "r") (some stored_refresh)
    ∷ exchanged (text "r") none
    ∷ removed (text "ann")
    ∷ []

abbrev before : Grants
before token = if text_eq (text "r") token then some stored_refresh else none

reads : Reads mem_store (json refresh_grant) rand scene before
unfolding MapStore.get MapStore.load MapStore.parsed MapStore.decoded mem_store refresh_store_key
    lookup text text_eq is_empty
reads token = refl

done : (perform_all mem_store (json refresh_grant) rand operations scene).0 ≡ ok reports
unfolding perform_all perform exchange remove_for_principal any_value mem_store MapStore.mutate
    MapStore.load MapStore.saved MapStore.save MapStore.parsed MapStore.encoded MapStore.decoded
    refresh_store_key lookup erase insert erase_values text text_eq is_empty
done = refl

perform_all-replay_example :
    Reads mem_store
      (json refresh_grant)
      rand
      (perform_all mem_store (json refresh_grant) rand operations scene).1
      (replay reports before)
    × AreTrue reports before
perform_all-replay_example =
    perform_all-replay mem_store (json refresh_grant) rand mem_store-IsLawful
      (json-IsLossless refresh_grant) operations scene before reads done
