-- ===== src/Oauth/Run/Kept.antt =====
-- That the operations of the package keep what is known of clients and authorization codes.
use lib_agent_mcp.Prelude.{ℕ, ◌≤◌, ◌≡◌, ◌≢◌, inl, inr, true, List, [], ◌∷◌, arith, All, Bool-cases}
use lib_agent_mcp.Prelude.Text.{Text, text_eq, text_eq_iff}
use lib_agent_mcp.Prelude.Dict.{Each}
use lib_agent_mcp.Exec.{Exec, ok, Fault, Result-cases, ◌>>=◌}
use lib_agent_mcp.Oauth.Store.Laws.{Unseen}
use lib_agent_mcp.Oauth.MapStore.Kept.{Holds, Holds-Unseen}
use lib_agent_mcp.Oauth.World.{World, Client, AuthGrant, on_store, read_random}
use lib_agent_mcp.Oauth.Clients.{registry, allows, allows_redirect, clients_store_key}
use lib_agent_mcp.Oauth.Pkce.{method_s256}
use lib_agent_mcp.Oauth.Register.Laws.{IsValidUri}
use lib_agent_mcp.Oauth.Server.{Platform}
use lib_agent_mcp.Oauth.Http.{Handler, handle}

module _ {S : Type 0} (p : Platform S) where
  -- What is known of a client in the registry: it was registered under its own id, with redirect
  -- addresses, each of them secure.
  pub record IsRegistered (id : Text) (c : Client) : Type 0 where
    pub own_id : c.id ≡ id
    pub given : c.redirect_uris ≢ []
    pub secure : All (IsValidUri p) c.redirect_uris

  -- What is known of an authorization code.
  pub record IsSecureGrant (g : AuthGrant) : Type 0 where
    pub redirect : IsValidUri p g.redirect_uri
    pub challenge_given : g.code_challenge ≢ []
    pub s256 : g.code_challenge_method ≡ method_s256

  allows-All :
      (uris : List Text) (uri : Text)
      → allows uris uri ≡ true
      → All (IsValidUri p) uris
      → IsValidUri p uri
  unfolding allows
  allows-All [] uri e h = cc
  allows-All (u ∷ us) uri e (hu, hs) = elim (Bool-cases (text_eq u uri)) [
    | inl same ↦ let here : u ≡ uri = (text_eq_iff u uri).0 same in rw (← here) hu
    | inr other ↦ allows-All us uri (ground arith) hs
  ]

  pub allows_redirect-IsValidUri :
      (c : Client) (id uri : Text)
      → allows_redirect c uri ≡ true
      → IsRegistered id c
      → IsValidUri p uri
  unfolding allows_redirect
  allows_redirect-IsValidUri c id uri e h = allows-All c.redirect_uris uri e h.secure

module _ {S : Type 0} (p : Platform S) (P : Text → AuthGrant → Type 0) (least : ℕ) where
  -- What the operations keep: clients are registered, each authorization code and its grant have a
  -- property, and random bytes were read at least so often.
  pub record IsKept (w : World S) : Type 0 where
    pub clients : Holds (registry p.store p.clients_json) (IsRegistered p) w.secrets
    pub codes : Each P w.codes
    pub drawn : least ≤ w.drawn

  abbrev pub Keeps : {A : Type 0} → (World S → A × World S) → Type 0
  Keeps m = (w : World S) → IsKept w → IsKept (m w).1

  pub Keeps-bind :
      {A B : Type 0} (m : Exec (World S) A) (f : A → Exec (World S) B)
      → Keeps m
      → ((a : A) → Keeps (f a))
      → Keeps (m >>= f)
  Keeps-bind m f hm hf w h = elim (Result-cases (m w).0) [
    | inl (a, e) ↦ rw e (hf a (m w).1 (hm w h))
    | inr (x, e) ↦ rw e (hm w h)
  ]

  -- The handler that goes on has what is known of the value.
  pub Keeps-handle_if :
      {A : Type 0} (G : A → Type 0) (m : Exec (World S) A) (bad : Fault → Handler S)
      (good : A → Handler S)
      → Keeps m
      → ((a : A) (w : World S) → IsKept w → (m w).0 ≡ ok a → G a)
      → ((x : Fault) → Keeps (bad x))
      → ((a : A) → G a → Keeps (good a))
      → Keeps (handle m bad good)
  Keeps-handle_if G m bad good hm known hb hg w h = elim (Result-cases (m w).0) [
    | inl (a, e) ↦ rw e (hg a (known a w h e) (m w).1 (hm w h))
    | inr (x, e) ↦ rw e (hb x (m w).1 (hm w h))
  ]

  pub Keeps-handle :
      {A : Type 0} (m : Exec (World S) A) (bad : Fault → Handler S) (good : A → Handler S)
      → Keeps m
      → ((x : Fault) → Keeps (bad x))
      → ((a : A) → Keeps (good a))
      → Keeps (handle m bad good)
  Keeps-handle m bad good hm hb hg =
      Keeps-handle_if (λ _. Unit) m bad good hm (λ _ _ _ _. tt) hb (λ a _. hg a)

  pub Keeps-read_random : (n : ℕ) → Keeps (read_random p.rand n)
  Keeps-read_random n w h = record {
    clients = h.clients;
    codes = h.codes;
    drawn = omega (arith, h.drawn);
  }

  -- A call of the store that is not seen under the key of the clients.
  pub Keeps-on_store :
      {A : Type 0} (m : Exec S A)
      → ((s : S) → Unseen p.store clients_store_key s (m s).1)
      → Keeps (on_store m)
  Keeps-on_store m unseen w h = record {
    clients =
        Holds-Unseen (registry p.store p.clients_json) (IsRegistered p) w.secrets (m w.secrets).1
          (unseen w.secrets) h.clients;
    codes = h.codes;
    drawn = h.drawn;
  }
