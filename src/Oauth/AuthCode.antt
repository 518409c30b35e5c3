-- ===== src/Oauth/AuthCode.antt =====
-- oauth/authcode.go. The mutex is not modelled: each access to the map is one step.
pub mod Laws
use lib_agent_mcp.Prelude.{ℕ, ◌+◌, Option, none, some, ltb, if◌then◌else◌}
use lib_agent_mcp.Prelude.Text.{Text}
use lib_agent_mcp.Prelude.Dict.{Dict, lookup, insert, erase}
use lib_agent_mcp.Exec.{Exec, ok, pure, ◌>>=◌, ◌>>◌}
use lib_agent_mcp.Oauth.World.{World, Rand, AuthGrant, rand_token}

-- `!ok || time.Now().After(grant.expiresAt)`
unfoldable pub live : ℕ → Option AuthGrant → Option AuthGrant
live now none = none
live now (some grant) = if ltb grant.expires_at now then none else some grant

module _ {S : Type 0} where
  unfoldable pub put : Text → AuthGrant → Exec (World S) (Unit {0})
  put code grant w = (ok tt, record w { codes = insert code grant w.codes })

  -- `now` is the instant that time.Now() gives.
  unfoldable pub issue : Rand → ℕ → ℕ → AuthGrant → Exec (World S) Text
  unfolding put
  issue rand ttl now grant = do
    code ← rand_token rand 32
    put code (record grant { expires_at = now + ttl })
    pure code

  -- The grant, if the code is known and not expired, and the state without the code.
  unfoldable pub consume : ℕ → Text → World S → Option AuthGrant × World S
  unfolding live
  consume now code w = (live now (lookup code w.codes), record w { codes = erase code w.codes })
