-- ===== src/Oauth/MapStore.antt =====
-- oauth/mapstore.go: a map kept as one JSON document under one key of a SecretStore. The mutex is
-- not modelled here: each method below is one critical section, run as a whole. The encoding of
-- documents (encoding/json) is a parameter.
pub mod Laws
pub mod Kept
use lib_agent_mcp.Prelude.{Bool, Option, none, some, [], if◌then◌else◌}
use lib_agent_mcp.Prelude.Text.{Text, is_empty}
use lib_agent_mcp.Prelude.Dict.{Dict, lookup}
use lib_agent_mcp.Exec.{Exec, Result, ok, err, bad_document, unencodable, pure, raise, ◌>>=◌, ◌>>◌}
use lib_agent_mcp.Oauth.Store.{SecretStore}

-- json.Marshal and json.Unmarshal at the type map[string]V.
pub record Json (V : Type 0) : Type 0 where
  pub marshal : Dict V → Option Text
  pub unmarshal : Text → Option (Dict V)

pub record MapStore (S V : Type 0) : Type 0 where
  pub store : SecretStore S
  pub key : Text
  pub json : Json V

module _ {S V : Type 0} where
  unfoldable pub decoded : Option (Dict V) → Exec S (Dict V)
  decoded none = raise bad_document
  decoded (some m) = pure m

  -- What `load` makes of the stored value: an absent or empty one is the empty map.
  unfoldable pub parsed : Json V → Option Text → Exec S (Dict V)
  parsed json none = pure []
  parsed json (some v) = if is_empty v then pure [] else decoded (json.unmarshal v)

  unfoldable pub load : MapStore S V → Exec S (Dict V)
  load ms = do v ← ms.store.get ms.key; parsed ms.json v

  unfoldable pub encoded : MapStore S V → Option Text → Exec S (Unit {0})
  encoded ms none = raise unencodable
  encoded ms (some b) = ms.store.set ms.key b

  unfoldable pub save : MapStore S V → Dict V → Exec S (Unit {0})
  save ms m = encoded ms (ms.json.marshal m)

  -- The method `get`: the value and whether it is present.
  unfoldable pub get : MapStore S V → Text → Exec S (Option V)
  get ms k = do m ← load ms; pure (lookup k m)

-- What the function given to `mutate` does: the map it leaves, whether it reports a change, and
-- what it leaves in the variables that it captures.
pub record Change (V B : Type 0) : Type 0 where
  pub entries : Dict V
  pub changed : Bool
  pub captured : B

module _ {S V B : Type 0} where
  unfoldable pub saved : MapStore S V → Change V B → Exec S B
  saved ms c = if c.changed then (do save ms c.entries; pure c.captured) else pure c.captured

  unfoldable pub mutate : MapStore S V → (Dict V → Change V B) → Exec S B
  mutate ms fn = do m ← load ms; saved ms (fn m)
