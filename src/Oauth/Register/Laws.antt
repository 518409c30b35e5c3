-- ===== src/Oauth/Register/Laws.antt =====
-- Which clients are registered.
use lib_agent_mcp.Prelude.{
  ◌≡◌, ◌≢◌, ◌⊎◌, inl, inr, refl, true, Option, none, some, List, [], ◌∷◌, arith, Bool-cases, All,
}
use lib_agent_mcp.Prelude.Text.{Text, text, text_eq_iff}
use lib_agent_mcp.Oauth.Pkce.Laws.{is_empty-eq-false_iff}
use lib_agent_mcp.Oauth.World.{World}
use lib_agent_mcp.Oauth.Http.{write_oauth_error}
use lib_agent_mcp.Oauth.Server.{Platform, Url, Registration}
use lib_agent_mcp.Oauth.Register.{valid_url, valid_redirect_uri, all_valid, register_client}

-- An address that a code may be sent to: encrypted, or on the host itself.
abbrev pub IsSecure : Url → Type 0
IsSecure u =
    (u.host ≢ [])
    × ((u.scheme ≡ text "https")
        ⊎ ((u.scheme ≡ text "http")
            × ((u.hostname ≡ text "localhost")
                ⊎ ((u.hostname ≡ text "127.0.0.1") ⊎ (u.hostname ≡ text "::1")))))

valid_url_sound : (o : Option Url) → valid_url o ≡ true → (u : Url) × (o ≡ some u) × IsSecure u
unfolding valid_url
valid_url_sound none e = cc
valid_url_sound (some u) e = (
  u,
  refl,
  ground (
    arith,
    is_empty-eq-false_iff u.host,
    text_eq_iff u.scheme (text "https"),
    text_eq_iff u.scheme (text "http"),
    text_eq_iff u.hostname (text "localhost"),
    text_eq_iff u.hostname (text "127.0.0.1"),
    text_eq_iff u.hostname (text "::1"),
  ),
)

module _ {S : Type 0} (p : Platform S) where
  -- An address that parses to a secure one.
  pub record IsValidUri (uri : Text) : Type 0 where
    pub url : Url
    pub parses : p.parse_url uri ≡ some url
    pub secure : IsSecure url

  pub all_valid_sound : (uris : List Text) → all_valid p uris ≡ true → All IsValidUri uris
  unfolding all_valid valid_redirect_uri
  all_valid_sound [] e = tt
  all_valid_sound (u ∷ us) e = elim (Bool-cases (valid_url (p.parse_url u))) [
    | inr bad ↦ ground arith
    | inl good ↦
        let (url, parses, secure) = valid_url_sound (p.parse_url u) good in
        (record { url = url; parses = parses; secure = secure }, all_valid_sound us (ground arith))
  ]

  -- A registration that is answered 201, or that changes the state, asked for at least one redirect
  -- address, and each of them parses to an https address or to an http address on a loopback host.
  pub register_client_sound :
      (o : Option Registration) (w : World S)
      → (register_client p o w ≢ ((register_client p o w).0, w))
        ⊎ ((register_client p o w).0.status ≡ 201)
      → (req : Registration) × (o ≡ some req)
        × (req.redirect_uris ≢ [])
        × All IsValidUri req.redirect_uris
  unfolding register_client write_oauth_error
  register_client_sound none w e = ground arith
  register_client_sound (some req) w e = elim (Bool-cases (all_valid p req.redirect_uris)) [
    | inl good ↦ (req, refl, ground arith, all_valid_sound req.redirect_uris good)
    | inr bad ↦ ground arith
  ]
