-- ===== src/Tests/Start.antt =====
-- A start and a pairing command at concrete inputs: everything outside succeeds, and is a count of
-- what was asked of it.
use lib_agent_mcp.Prelude.{ℕ, ◌+◌, ◌≡◌, refl, true, false, none, some, [], ◌∷◌, All}
use lib_agent_mcp.Prelude.Text.{Text, text, text_eq, is_empty}
use lib_agent_mcp.Prelude.Dict.{Dict, lookup}
use lib_agent_mcp.Exec.{ok}
use lib_agent_mcp.Oauth.Store.{mem_store, mem_delete_all}
use lib_agent_mcp.Oauth.MapStore
use lib_agent_mcp.Oauth.World.{PrincipalRecord}
use lib_agent_mcp.Oauth.Principal.{principals_store_key}
use lib_agent_mcp.Bridge.Io.{Attempt, done}
use lib_agent_mcp.Bridge.AccessLog.{to_stderr, new_access_logger}
use lib_agent_mcp.Bridge.Tailscale.{
  CmdRunner, Tools, is_tailscale_port, validate_tailscale, local_port, down_args, start_tailscale,
  wire_valid, wire_tailscale,
}
use lib_agent_mcp.Bridge.Tailscale.Laws.{IsUp}
use lib_agent_mcp.Bridge.OauthSetup.{Opener, oauth_store, oauth_service}
use lib_agent_mcp.Bridge.Startup.{
  HttpServeConfig, About, Host, Machine, open_log, run_http, run_mcp,
}
use lib_agent_mcp.Bridge.Startup.TearDown.{TornDown, run_http-TornDown}
use lib_agent_mcp.Bridge.Startup.Configured.{IsConfigured, start, run_mcp-IsConfigured}
use lib_agent_mcp.Bridge.Pair.{pair_list}
use lib_agent_mcp.Bridge.Pair.Redacted.{SameOutput, Listed, pair_list-redacted}
use lib_agent_mcp.Tests.Codec.{principal_record}
use lib_agent_mcp.Tests.Fixture.{platform}
use lib_agent_mcp.Tests.Scene.{scene, document}

abbrev asked : {A : Type 0} → A → ℕ → Attempt A × ℕ
asked a n = (done a, n + 1)

abbrev cmd_runner : CmdRunner ℕ
cmd_runner = record {
  run = λ args. asked tt;
  output = λ args. asked [];
  look_path = λ name. asked name;
}

abbrev tools : Tools
tools = record {
  itoa = λ n. n ∷ [];
  quote = λ t. t;
  split_port = λ t. some t;
  dns_name = λ t. done (text "h");
}

abbrev host : Host ℕ
host = record {
  open_file = λ path. asked tt;
  close_file = λ path n. n;
  cmd_runner = cmd_runner;
  tools = tools;
  fault_text = λ f. [];
  print = λ line. asked tt;
  stdin_is_interactive = λ n. true;
  serve_stdio = asked tt;
  listen = λ addr. asked tt;
  serve = λ oauth al n. (none, n + 1);
}

abbrev opener : Opener (Dict Text)
opener = record {
  open_oauth_store =
      some (λ k. (done (record { secrets = mem_store; delete_all = mem_delete_all }), k));
  keyring = λ service. record {
    available = λ k. false;
    get = λ k key. none;
    set = λ key v k. (ok tt, k);
    delete = λ key k. (ok tt, k);
    delete_all = λ k. (ok tt, k);
  };
}

abbrev about : About
about = record {
  name = text "widget";
  version = text "1";
  tools = 2;
  executable = text "/w";
  keyring_service = [];
}

abbrev config : HttpServeConfig
config = record {
  addr = text ":8330";
  oauth_mode = text "local";
  public_url = text "https://h";
  tailscale_mode = text "serve";
  tailscale_port = 443;
  access_log_path = text "-";
}

abbrev begun : Machine (Dict Text) ℕ
begun = start scene 0

logging :
    open_log host opener platform about config.access_log_path begun
    ≡ (done (some to_stderr), record begun { access_log = some to_stderr })
unfolding open_log new_access_logger is_empty text text_eq
logging = refl

wired :
    wire_tailscale tools cmd_runner config.tailscale_mode config.tailscale_port config.addr
      config.public_url 0
    ≡ (
      done (config.public_url, some (down_args tools (text "tailscale") config.tailscale_mode 443)),
      2,
    )
unfolding wire_tailscale validate_tailscale is_tailscale_port wire_valid local_port start_tailscale
    is_empty text text_eq
wired = refl

run_http-TornDown_example :
    IsUp tools cmd_runner config.tailscale_mode 443 config.addr
      (down_args tools (text "tailscale") config.tailscale_mode 443)
      2
    × TornDown []
        (down_args tools (text "tailscale") config.tailscale_mode 443)
        (some to_stderr)
        (run_http host opener platform about config begun).1.events
run_http-TornDown_example = run_http-TornDown host opener platform about config begun logging wired

run_mcp-IsConfigured_example :
    All (IsConfigured config) (run_mcp host opener platform about config (start scene 0)).1.events
run_mcp-IsConfigured_example = run_mcp-IsConfigured host opener platform about config scene 0

abbrev with_code : Text → Dict PrincipalRecord
with_code code = (text "ann", record { code = code; binding = [] }) ∷ []

abbrev holding : Text → Machine (Dict Text) ℕ
holding code = record begun {
  world = record scene {
    secrets = (text "principals", document principal_record (with_code code)) ∷ [];
  };
}

old-Listed : Listed host opener platform about (holding (text "k2")) (with_code (text "k2"))
unfolding oauth_store oauth_service principals_store_key mem_store MapStore.load MapStore.parsed
    MapStore.decoded lookup text text_eq is_empty
old-Listed = record {
  store = record { secrets = mem_store; delete_all = mem_delete_all };
  secrets = (holding (text "k2")).world.secrets;
  loaded = (holding (text "k2")).world.secrets;
  opened = refl;
  read = refl;
}

new-Listed : Listed host opener platform about (holding (text "k9")) (with_code (text "k9"))
unfolding oauth_store oauth_service principals_store_key mem_store MapStore.load MapStore.parsed
    MapStore.decoded lookup text text_eq is_empty
new-Listed = record {
  store = record { secrets = mem_store; delete_all = mem_delete_all };
  secrets = (holding (text "k9")).world.secrets;
  loaded = (holding (text "k9")).world.secrets;
  opened = refl;
  read = refl;
}

pair_list-redacted_example :
    SameOutput host opener platform about
      (pair_list host opener platform about (holding (text "k2")))
      (pair_list host opener platform about (holding (text "k9")))
pair_list-redacted_example =
    pair_list-redacted host opener platform about (holding (text "k2")) (holding (text "k9"))
      old-Listed new-Listed refl refl refl
