-- ===== src/Oauth/Principal.antt =====
-- oauth/principal.go: the named principals and the match of an entered code against every
-- acceptable one.
pub mod Laws
pub mod Revocation
pub mod Verify
pub mod Named
pub mod Added
use lib_agent_mcp.Prelude.{
  ℕ, Bool, true, false, not, Option, none, some, List, [], ◌∷◌, ◌&&◌, if◌then◌else◌,
}
use lib_agent_mcp.Prelude.Text.{Text, text, text_le, text_eq}
use lib_agent_mcp.Prelude.Dict.{sorted, Dict, lookup, insert, erase, keys}
use lib_agent_mcp.Exec.{Exec, pure, ◌>>=◌, ◌>>◌}
use lib_agent_mcp.Oauth.Store.{SecretStore}
use lib_agent_mcp.Oauth.MapStore
use lib_agent_mcp.Oauth.MapStore.{MapStore, Json, Change}
use lib_agent_mcp.Oauth.World.{
  World, Rand, PrincipalGrant, PrincipalRecord, RefreshGrant, anonymous, on_store,
}
use lib_agent_mcp.Oauth.Refresh.{remove_for_principal}
use lib_agent_mcp.Oauth.Pairing.{
  code, generate_pairing_code, normalize_pairing, constant_time_equal_pairing,
}

unfoldable pub principals_store_key : Text
principals_store_key = text "principals"

-- pairingCandidate
pub record Candidate : Type 0 where
  pub code : Text
  pub grant : PrincipalGrant

abbrev pub named_candidate : Text → Option PrincipalRecord → List Candidate → List Candidate
named_candidate name none rest = rest
named_candidate name (some rec) rest =
    record { code = rec.code; grant = record { name = name; binding = rec.binding } } ∷ rest

-- The loop of `candidates` over the sorted names.
unfoldable pub named_candidates : Dict PrincipalRecord → List Text → List Candidate
named_candidates records [] = []
named_candidates records (name ∷ names) =
    named_candidate name (lookup name records) (named_candidates records names)

-- The loop of VerifyPrincipal: every candidate is compared, and the first match is kept.
unfoldable pub match_loop : Text → List Candidate → PrincipalGrant → Bool → PrincipalGrant × Bool
match_loop got [] matched found = (matched, found)
match_loop got (c ∷ cs) matched found =
    let hit = constant_time_equal_pairing got c.code && not found in
    match_loop got cs (if hit then c.grant else matched) (if hit then true else found)

abbrev pub if_found : PrincipalGrant × Bool → Option PrincipalGrant
if_found (g, found) = if found then some g else none

-- The loop of Principals: the binding of each record, without its code.
abbrev pub bindings : Dict PrincipalRecord → Dict (Dict Text)
bindings [] = []
bindings ((name, rec) ∷ m) = (name, rec.binding) ∷ bindings m

module _ {S : Type 0} (store : SecretStore S) (json : Json PrincipalRecord) (rand : Rand) where
  abbrev pub principals : MapStore S PrincipalRecord
  principals = record { store = store; key = principals_store_key; json = json }

  abbrev pub added :
      Text → PrincipalRecord → Dict PrincipalRecord → Change PrincipalRecord (Unit {0})
  added name rec m = record { entries = insert name rec m; changed = true; captured = tt }

  unfoldable pub add_principal : Text → Dict Text → Exec (World S) Text
  add_principal name binding = do
    c ← generate_pairing_code rand
    on_store (MapStore.mutate principals (added name (record { code = c; binding = binding })))
    pure c

  abbrev pub removed :
      Text → Option PrincipalRecord → Dict PrincipalRecord → Change PrincipalRecord Bool
  removed name none m = record { entries = m; changed = false; captured = false }
  removed name (some _) m = record { entries = erase name m; changed = true; captured = true }

  unfoldable pub remove_principal : Json RefreshGrant → Text → Exec (World S) Bool
  remove_principal refresh_json name = do
    was_there ← on_store (MapStore.mutate principals (λ m. removed name (lookup name m) m))
    on_store (remove_for_principal store refresh_json name)
    pure was_there

  unfoldable pub candidates : Exec (World S) (List Candidate)
  candidates = do
    shared ← code store rand
    records ← on_store (MapStore.load principals)
    pure (
        record { code = shared; grant = anonymous }
        ∷ named_candidates records (sorted (keys records)))

  -- The grant of the first candidate that matches, if one does.
  unfoldable pub verify_principal : Text → Exec (World S) (Option PrincipalGrant)
  verify_principal input = do
    cs ← candidates
    pure (if_found (match_loop (normalize_pairing input) cs anonymous false))

  -- Principals
  unfoldable pub list_principals : Exec S (Dict (Dict Text))
  list_principals = do records ← MapStore.load principals; pure (bindings records)
