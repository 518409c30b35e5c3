-- ===== src/Oauth/Clients.antt =====
-- oauth/clients.go
use lib_agent_mcp.Prelude.{Bool, true, false, Option, List, [], ◌∷◌, ◌||◌}
use lib_agent_mcp.Prelude.Text.{Text, text, text_eq}
use lib_agent_mcp.Prelude.Dict.{Dict, insert}
use lib_agent_mcp.Exec.{Exec, pure, ◌>>=◌, ◌>>◌}
use lib_agent_mcp.Oauth.Store.{SecretStore}
use lib_agent_mcp.Oauth.MapStore
use lib_agent_mcp.Oauth.MapStore.{MapStore, Json, Change}
use lib_agent_mcp.Oauth.World.{World, Rand, Client, on_store, rand_token}

-- allowsRedirect, its loop as a recursion on the registered addresses.
unfoldable pub allows : List Text → Text → Bool
allows [] uri = false
allows (r ∷ rs) uri = text_eq r uri || allows rs uri

unfoldable pub allows_redirect : Client → Text → Bool
unfolding allows
allows_redirect c uri = allows c.redirect_uris uri

unfoldable pub clients_store_key : Text
clients_store_key = text "clients"

module _ {S : Type 0} (store : SecretStore S) (json : Json Client) where
  -- newClientRegistry
  abbrev pub registry : MapStore S Client
  registry = record { store = store; key = clients_store_key; json = json }

  -- The methods Register and Get of clientRegistry.
  abbrev pub added : Text → Client → Dict Client → Change Client (Unit {0})
  added id c m = record { entries = insert id c m; changed = true; captured = tt }

  unfoldable pub register : Rand → List Text → Text → Exec (World S) Client
  register rand redirect_uris name = do
    id ← rand_token rand 16
    let c : Client = record { id = id; redirect_uris = redirect_uris; name = name }
    on_store (MapStore.mutate registry (added id c))
    pure c

  unfoldable pub get : Text → Exec (World S) (Option Client)
  get id = on_store (MapStore.get registry id)
