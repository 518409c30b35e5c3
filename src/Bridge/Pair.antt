-- ===== src/Bridge/Pair.antt =====
-- pair.go: the maintenance of pairing codes and stored secrets.
pub mod Laws
pub mod Redacted
use lib_agent_mcp.Prelude.{
  ℕ, Bool, true, false, not, Option, none, some, List, [], ◌∷◌, ◌++◌, if◌then◌else◌,
}
use lib_agent_mcp.Prelude.Text.{Text, text, is_empty, cut}
use lib_agent_mcp.Prelude.Dict.{Dict, lookup, insert, keys, sorted}
use lib_agent_mcp.Oauth.Store.{SecretStore}
use lib_agent_mcp.Oauth.World.{World, on_store}
use lib_agent_mcp.Oauth.Server.{Platform}
use lib_agent_mcp.Oauth.Pairing.{rotate}
use lib_agent_mcp.Oauth.Principal.{add_principal, remove_principal, list_principals}
use lib_agent_mcp.Bridge.Io.{
  Problem, message, Attempt, done, failed, Io, pure, fail, attempted, ◌>>=◌, ◌>>◌,
}
use lib_agent_mcp.Bridge.Tailscale.{Tools}
use lib_agent_mcp.Bridge.OauthSetup.{
  Opener, OauthSecretStore, lift, on_secrets, oauth_service, oauth_store,
}
use lib_agent_mcp.Bridge.Startup.{About, Host, Machine, on_world, print_line}

module _ (quote : Text → Text) where
  unfoldable pub not_a_pair : Text → Problem
  not_a_pair kv = message (text "--bind " ++ (quote kv ++ text " is not key=value"))

  abbrev pub add_pair : Text → Option (Text × Text) → Dict Text → Attempt (Dict Text)
  add_pair kv none m = failed (not_a_pair kv)
  add_pair kv (some (k, v)) m = if is_empty k then failed (not_a_pair kv) else done (insert k v m)

  -- The rest of the loop, unless it has returned.
  abbrev pub unless_failed :
      Attempt (Dict Text) → (Dict Text → Attempt (Dict Text)) → Attempt (Dict Text)
  unless_failed (failed e) rest = failed e
  unless_failed (done m) rest = rest m

  unfoldable pub bind_pairs : List Text → Dict Text → Attempt (Dict Text)
  bind_pairs [] m = done m
  bind_pairs (kv ∷ kvs) m = unless_failed (add_pair kv (cut kv b'=') m) (bind_pairs kvs)

  -- parseBindPairs; a nil map is the empty one.
  unfoldable pub parse_bind_pairs : List Text → Attempt (Dict Text)
  parse_bind_pairs pairs = bind_pairs pairs []

abbrev pub bound_value : Option Text → Text
bound_value none = []
bound_value (some v) = v

-- The loop of formatPrincipalLine over the sorted keys.
unfoldable pub pairs_text : Dict Text → List Text → Text
pairs_text binding [] = []
pairs_text binding (k ∷ ks) =
    text " " ++ (k ++ (text "=" ++ (bound_value (lookup k binding) ++ pairs_text binding ks)))

unfoldable pub format_principal_line : Text → Dict Text → Text
format_principal_line name binding = name ++ pairs_text binding (sorted (keys binding))

abbrev pub binding_of : Option (Dict Text) → Dict Text
binding_of none = []
binding_of (some b) = b

module _ {K E : Type 0} (h : Host E) (o : Opener K) (p : Platform K) (about : About) where
  -- The store that the commands open, and the pairing layer over it.
  unfoldable pub opened_store : Io (Machine K E) (OauthSecretStore K)
  opened_store =
      on_world (on_secrets (oauth_store o (oauth_service about.keyring_service about.name)))

  unfoldable pub pairing : Io (Machine K E) (SecretStore K)
  pairing = do store ← opened_store; pure store.secrets

  unfoldable pub rotated_text : Text → Text
  rotated_text code =
      text "new pairing code: "
      ++ (code
          ++ text
              "\n⚠ Treat it like a password. Existing connections keep their tokens; only new pairings use this code.\n")

  -- The RunE of `pair rotate`.
  unfoldable pub pair_rotate : Io (Machine K E) (Unit {0})
  pair_rotate = do
    store ← pairing
    code ← on_world (lift (rotate store p.rand))
    print_line h o p about (rotated_text code)

  -- The RunE of `pair reset`, with the flag --yes.
  unfoldable pub pair_reset : Bool → Io (Machine K E) (Unit {0})
  pair_reset confirmed =
      if not confirmed
      then fail (
          message (
            text
              "pair reset wipes the signing key, all registered clients, refresh tokens, and the pairing code — every connector must re-pair. Re-run with --yes to confirm"))
      else (do
        store ← opened_store
        on_world (lift (on_store store.delete_all))
        print_line h o p about (
            text
              "local-OAuth state cleared. Restart the server to generate a fresh signing key and pairing code; every client must re-register and re-pair.\n"))

  unfoldable pub added_text : Text → Text → Text
  added_text name code =
      text "pairing code for "
      ++ (name
          ++ (text ": "
              ++ (code
                  ++ (text "\n⚠ Share it only with "
                      ++ (name
                          ++ text
                              " — whoever completes the OAuth approval with this code acts under this principal's binding.\n")))))

  abbrev pub bindings_given : {A : Type 0} → Attempt A → Io (Machine K E) A
  bindings_given a s = (a, s)

  -- The RunE of pairAddCommand, with the values of --bind and the name.
  unfoldable pub pair_add : List Text → Text → Io (Machine K E) (Unit {0})
  pair_add binds name = do
    binding ← bindings_given (parse_bind_pairs h.tools.quote binds)
    store ← pairing
    code ← on_world (lift (add_principal store p.principals_json p.rand name binding))
    print_line h o p about (added_text name code)

  -- The loop of pairListCommand over the sorted names.
  unfoldable pub print_principals : Dict (Dict Text) → List Text → Io (Machine K E) (Unit {0})
  print_principals principals [] = pure tt
  print_principals principals (name ∷ names) = do
    print_line h o p about
        (format_principal_line name (binding_of (lookup name principals)) ++ text "\n")
    print_principals principals names

  abbrev pub list_of : Dict (Dict Text) → Io (Machine K E) (Unit {0})
  list_of [] =
      print_line h o p about (text "no named principals (only the shared operator pairing code)\n")
  list_of (q ∷ qs) = print_principals (q ∷ qs) (sorted (keys (q ∷ qs)))

  -- The RunE of pairListCommand.
  unfoldable pub pair_list : Io (Machine K E) (Unit {0})
  pair_list = do
    store ← pairing
    principals ← on_world (lift (on_store (list_principals store p.principals_json p.rand)))
    list_of principals

  abbrev pub removed_or_fail : Text → Bool → Io (Machine K E) (Unit {0})
  removed_or_fail name false = fail (message (text "no principal named " ++ h.tools.quote name))
  removed_or_fail name true = print_line h o p about (
      name
      ++ text
          " removed: pairing revoked, refresh tokens deleted. Outstanding access tokens expire on their own TTL.\n")

  -- The RunE of pairRemoveCommand.
  unfoldable pub pair_remove : Text → Io (Machine K E) (Unit {0})
  pair_remove name = do
    store ← pairing
    was_there ←
        on_world (lift (remove_principal store p.principals_json p.rand p.refresh_json name))
    removed_or_fail name was_there
