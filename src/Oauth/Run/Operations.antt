-- ===== src/Oauth/Run/Operations.antt =====
-- The operations on clients, codes, tokens and keys keep what is known, whether or not they succeed.
use lib_agent_mcp.Prelude.{ℕ, ◌≡◌, refl, inl, false, Option, none, some, List, arith}
use lib_agent_mcp.Prelude.Text.{Text, text, text_eq}
use lib_agent_mcp.Prelude.Dict.{Dict, Each-erase, lookup}
use lib_agent_mcp.Exec.{Exec}
use lib_agent_mcp.Oauth.Store.Laws.{IsLawful, IsFaithful, Unseen, Unseen-set}
use lib_agent_mcp.Oauth.MapStore
use lib_agent_mcp.Oauth.MapStore.{Json, Change}
use lib_agent_mcp.Oauth.MapStore.Laws.{get-reads}
use lib_agent_mcp.Oauth.MapStore.Kept.{Unseen-mutate}
use lib_agent_mcp.Oauth.World.{
  World, AuthGrant, PrincipalGrant, RefreshGrant, on_store, read_random, rand_token,
}
use lib_agent_mcp.Oauth.Encoding.{encode64}
use lib_agent_mcp.Oauth.Clients
use lib_agent_mcp.Oauth.Clients.{registry, clients_store_key}
use lib_agent_mcp.Oauth.AuthCode.{consume}
use lib_agent_mcp.Oauth.Refresh
use lib_agent_mcp.Oauth.Refresh.{
  grants, refresh_store_key, without_principal, taken, remove_for_principal,
}
use lib_agent_mcp.Oauth.Pairing
use lib_agent_mcp.Oauth.Pairing.{pairing_code_store_key, found_or_rotate}
use lib_agent_mcp.Oauth.Principal.{principals_store_key}
use lib_agent_mcp.Oauth.Token.{
  signing_key_bytes, signing_key_store_key, checked_key, create_key, decoded_or_created,
  load_or_create_key, new_issuer,
}
use lib_agent_mcp.Oauth.Server.{Platform, Config, new}
use lib_agent_mcp.Oauth.Run.Kept.{IsKept, Keeps, Keeps-bind, Keeps-read_random, Keeps-on_store}

pub keys_differ :
    (text_eq principals_store_key clients_store_key ≡ false)
    × (text_eq refresh_store_key clients_store_key ≡ false)
    × (text_eq pairing_code_store_key clients_store_key ≡ false)
    × (text_eq signing_key_store_key clients_store_key ≡ false)
unfolding principals_store_key refresh_store_key pairing_code_store_key signing_key_store_key
    clients_store_key text text_eq
keys_differ = (refl, refl, refl, refl)

module _ {S : Type 0} (p : Platform S) (P : Text → AuthGrant → Type 0) (least : ℕ)
    (lawful : IsLawful p.store) {wipe : Exec S (Unit {0})}
    (faithful : IsFaithful p.store wipe) where
  Unseen-get : (j k : Text) (s : S) → Unseen p.store j s (p.store.get k s).1
  Unseen-get j k s x e = inl (ground (arith, lawful.reads k s))

  pub Keeps-get : (k : Text) → Keeps p P least (on_store (p.store.get k))
  Keeps-get k = Keeps-on_store p P least (p.store.get k) (λ s. Unseen-get clients_store_key k s)

  pub Keeps-set :
      (k v : Text)
      → text_eq k clients_store_key ≡ false
      → Keeps p P least (on_store (p.store.set k v))
  Keeps-set k v other =
      Keeps-on_store p P least (p.store.set k v)
        (λ s. Unseen-set p.store faithful k v clients_store_key s other)

  -- A change of a map that is kept under another key than the clients.
  pub Keeps-mutate :
      {V B : Type 0} (key : Text) (json : Json V) (fn : Dict V → Change V B)
      → text_eq key clients_store_key ≡ false
      → Keeps p P least
          (on_store (MapStore.mutate (record { store = p.store; key = key; json = json }) fn))
  Keeps-mutate key json fn other =
      Keeps-on_store p P least
        (MapStore.mutate (record { store = p.store; key = key; json = json }) fn)
        (λ s.
          Unseen-mutate (record { store = p.store; key = key; json = json }) lawful faithful
            clients_store_key fn s other)

  pub Keeps-rand_token : (n : ℕ) → Keeps p P least (rand_token p.rand n)
  unfolding rand_token
  Keeps-rand_token n =
      Keeps-bind p P least (read_random p.rand n) _ (Keeps-read_random p P least n) (λ b w h. h)

  pub Keeps-generate_pairing_code : Keeps p P least (Pairing.generate_pairing_code p.rand)
  unfolding Pairing.generate_pairing_code
  Keeps-generate_pairing_code =
      Keeps-bind p P least (read_random p.rand 16) _ (Keeps-read_random p P least 16) (λ b w h. h)

  pub Keeps-rotate : Keeps p P least (Pairing.rotate p.store p.rand)
  unfolding Pairing.rotate
  Keeps-rotate =
      Keeps-bind p P least (Pairing.generate_pairing_code p.rand) _ Keeps-generate_pairing_code
        (λ code.
          Keeps-bind p P least (on_store (p.store.set pairing_code_store_key code)) _
            (Keeps-set pairing_code_store_key code keys_differ.2) (λ _ w h. h))

  Keeps-found_or_rotate : (v : Option Text) → Keeps p P least (found_or_rotate p.store p.rand v)
  unfolding found_or_rotate
  Keeps-found_or_rotate none = Keeps-rotate
  Keeps-found_or_rotate (some v) = λ w h. h

  pub Keeps-code : Keeps p P least (Pairing.code p.store p.rand)
  unfolding Pairing.code
  Keeps-code =
      Keeps-bind p P least (on_store (p.store.get pairing_code_store_key)) _
        (Keeps-get pairing_code_store_key) Keeps-found_or_rotate

  Keeps-checked_key : (k : Option (List ℕ)) → Keeps p P least (checked_key p.store p.rand k)
  unfolding checked_key
  Keeps-checked_key none = λ w h. h
  Keeps-checked_key (some k) = λ w h. ground (arith, h)

  Keeps-create_key : Keeps p P least (create_key p.store p.rand)
  unfolding create_key
  Keeps-create_key =
      Keeps-bind p P least (read_random p.rand signing_key_bytes) _
        (Keeps-read_random p P least signing_key_bytes)
        (λ k.
          Keeps-bind p P least (on_store (p.store.set signing_key_store_key (encode64 k))) _
            (Keeps-set signing_key_store_key (encode64 k) keys_differ.3) (λ _ w h. h))

  Keeps-decoded_or_created :
      (v : Option Text) → Keeps p P least (decoded_or_created p.store p.rand v)
  unfolding decoded_or_created
  Keeps-decoded_or_created none = Keeps-create_key
  Keeps-decoded_or_created (some v) = Keeps-checked_key _

  Keeps-load_or_create_key : Keeps p P least (load_or_create_key p.store p.rand)
  unfolding load_or_create_key
  Keeps-load_or_create_key =
      Keeps-bind p P least (on_store (p.store.get signing_key_store_key)) _
        (Keeps-get signing_key_store_key) Keeps-decoded_or_created

  pub Keeps-new : (cfg : Config) → Keeps p P least (new p cfg)
  unfolding new new_issuer
  Keeps-new cfg w h = ground (arith, Keeps-load_or_create_key w h)

  abbrev added_token :
      Text → Text → PrincipalGrant → Text → Dict RefreshGrant → Change RefreshGrant (Unit {0})
  added_token client_id scope g token =
      Refresh.added p.store p.refresh_json token
        (record { client_id = client_id; scope = scope; principal = g })

  abbrev taken_token : Text → Dict RefreshGrant → Change RefreshGrant (Option RefreshGrant)
  taken_token token m = taken p.store p.refresh_json token (lookup token m) m

  pub Keeps-exchange :
      (token : Text) → Keeps p P least (on_store (Refresh.exchange p.store p.refresh_json token))
  unfolding Refresh.exchange
  Keeps-exchange token =
      Keeps-mutate refresh_store_key p.refresh_json (taken_token token) keys_differ.1

  pub Keeps-issue :
      (client_id scope : Text) (g : PrincipalGrant)
      → Keeps p P least (Refresh.issue p.store p.refresh_json p.rand client_id scope g)
  unfolding Refresh.issue
  Keeps-issue client_id scope g =
      Keeps-bind p P least (rand_token p.rand 32) _ (Keeps-rand_token 32) (λ token.
        Keeps-bind p P least
          (on_store
            (MapStore.mutate (grants p.store p.refresh_json) (added_token client_id scope g token)))
          _
          (Keeps-mutate refresh_store_key p.refresh_json (added_token client_id scope g token)
            keys_differ.1)
          (λ _ w h. h))

  pub Keeps-find : (id : Text) → Keeps p P least (Clients.get p.store p.clients_json id)
  unfolding Clients.get
  Keeps-find id =
      Keeps-on_store p P least (MapStore.get (registry p.store p.clients_json) id)
        (λ s x e. inl (ground (arith, get-reads (registry p.store p.clients_json) lawful id s)))

module _ {S : Type 0} (p : Platform S) (P : Text → AuthGrant → Type 0) (least : ℕ) where
  pub Keeps-consume :
      (now : ℕ) (code : Text) (w : World S)
      → IsKept p P least w
      → IsKept p P least (consume now code w).1
  unfolding consume
  Keeps-consume now code w h = record {
    clients = h.clients;
    codes = Each-erase P code w.codes h.codes;
    drawn = h.drawn;
  }
