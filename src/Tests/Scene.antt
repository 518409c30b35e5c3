-- ===== src/Tests/Scene.antt =====
-- A server with one registered client, one named principal, one refresh token and one outstanding
-- authorization code.
use lib_agent_mcp.Prelude.{[], ◌∷◌}
use lib_agent_mcp.Prelude.Text.{Text, text}
use lib_agent_mcp.Prelude.Dict.{Dict}
use lib_agent_mcp.Oauth.World.{World, Client, AuthGrant, RefreshGrant, PrincipalGrant}
use lib_agent_mcp.Oauth.Encoding.{encode64}
use lib_agent_mcp.Oauth.Authorize.{AuthParams}
use lib_agent_mcp.Tests.Codec.{Codec, pair, list, bytes, client, refresh_grant, principal_record}

abbrev pub document : {V : Type 0} → Codec V → Dict V → Text
document c m = 7 ∷ (list (pair bytes c)).put m []

abbrev pub ann : PrincipalGrant
ann = record { name = text "ann"; binding = [] }

abbrev pub stored_client : Client
stored_client = record { id = text "c"; redirect_uris = text "u" ∷ []; name = text "n" }

abbrev pub stored_refresh : RefreshGrant
stored_refresh = record { client_id = text "c"; scope = text "mcp"; principal = ann }

abbrev pub secrets : Dict Text
secrets =
    (text "refresh-tokens", document refresh_grant ((text "r", stored_refresh) ∷ []))
    ∷ (
      text "principals",
      document principal_record ((text "ann", record { code = text "k2"; binding = [] }) ∷ []),
    )
    ∷ (text "clients", document client ((text "c", stored_client) ∷ []))
    ∷ (text "pairing-code", text "mcp-j7")
    ∷ []

abbrev pub code_grant : AuthGrant
code_grant = record {
  client_id = text "c";
  redirect_uri = text "u";
  code_challenge = encode64 (text "v");
  code_challenge_method = text "S256";
  scope = text "mcp";
  principal = ann;
  expires_at = 9;
}

abbrev pub scene : World (Dict Text)
scene = record { secrets = secrets; drawn = 3; codes = (text "x", code_grant) ∷ [] }

abbrev pub code_form : Dict Text
code_form =
    (text "code", text "x")
    ∷ (text "client_id", text "c")
    ∷ (text "redirect_uri", text "u")
    ∷ (text "code_verifier", text "v")
    ∷ []

abbrev pub refresh_form : Dict Text
refresh_form = (text "refresh_token", text "r") ∷ []

abbrev pub params : AuthParams
params = record {
  client_id = text "c";
  redirect_uri = text "u";
  state = text "s";
  scope = [];
  code_challenge = encode64 (text "v");
  code_challenge_method = text "S256";
  response_type = text "code";
}
