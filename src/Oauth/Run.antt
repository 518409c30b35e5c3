-- ===== src/Oauth/Run.antt =====
-- What happens to a deployment of the package `oauth` over time: requests at the routes of
-- oauth/server.go, starts of the server, and the pairing commands of other processes, in any order.
pub mod Kept
pub mod Operations
pub mod Principals
pub mod Tokens
pub mod Handlers
pub mod Laws
use lib_agent_mcp.Prelude.{ℕ, []}
use lib_agent_mcp.Prelude.Text.{Text}
use lib_agent_mcp.Prelude.Dict.{Dict}
use lib_agent_mcp.Exec.{Exec}
use lib_agent_mcp.Oauth.World.{World}
use lib_agent_mcp.Oauth.Pairing
use lib_agent_mcp.Oauth.Principal.{add_principal, remove_principal}
use lib_agent_mcp.Oauth.Server.{Platform, Server, Config, new, pairing_code}
use lib_agent_mcp.Oauth.Http.{Request}
use lib_agent_mcp.Oauth.Routes.{Endpoint, handle_endpoint}

-- `wipe` is DeleteAll of the store. A step may fail: what is left then is what it wrote so far.
module _ {S : Type 0} (p : Platform S) (wipe : Exec S (Unit {0})) where
  pub data Step : World S → World S → Type 0 where
    serve :
        {w : World S} (s : Server) (now : ℕ) (e : Endpoint) (r : Request)
        → Step w (handle_endpoint p s now e r w).1
    -- a new process has no codes in memory
    start : {w : World S} (cfg : Config) → Step w (record (new p cfg w).1 { codes = [] })
    print_code : {w : World S} → Step w (pairing_code p w).1
    pair_add :
        {w : World S} (name : Text) (binding : Dict Text)
        → Step w (add_principal p.store p.principals_json p.rand name binding w).1
    pair_remove :
        {w : World S} (name : Text)
        → Step w (remove_principal p.store p.principals_json p.rand p.refresh_json name w).1
    pair_rotate : {w : World S} → Step w (Pairing.rotate p.store p.rand w).1
    pair_reset : {w : World S} → Step w (record w { secrets = (wipe w.secrets).1 })

  -- The steps that lead from one state to another.
  pub data Run (w : World S) : World S → Type 0 where
    nothing : Run w w
    after : {u v : World S} → Run w u → Step u v → Run w v
