-- ===== src/Oauth/Routes/Mounted.antt =====
-- The patterns that RegisterRoutes mounts: each is found, is a plain path, and is there once.
use mathlib.Core.List.{append-nil}
use lib_agent_mcp.Prelude.{
  Bool, true, false, ◌≡◌, ◌⊎◌, refl, none, some, arith, [], ◌∷◌, ◌++◌, if◌then◌else◌, Bool-cases,
  inl, inr, All, All-append,
}
use lib_agent_mcp.Prelude.Text.{Text, text_eq, text_eq_refl, is_empty, text}
use lib_agent_mcp.Prelude.Dict.{Dict, lookup}
use lib_agent_mcp.Oauth.Server.{
  Server, resource_path, protected_resource_metadata_path, auth_server_metadata_path, register_path,
  authorize_path, token_path,
}
use lib_agent_mcp.Oauth.Routes.{
  Endpoint, resource_document, server_document, registration, authorization, token, routes,
}
use lib_agent_mcp.Oauth.Routes.Paths.{
  IsPlain, HasPlainPattern, one, below, IsPlain-append, AreDistinct, is_segment, is_unreserved,
}

-- The extra route, if it is there, hides no other one.
passed :
    (b : Bool) (path k : Text) (rest : Dict Endpoint)
    → text_eq path k ≡ false
    → lookup k ((if b then [] else (path, resource_document) ∷ []) ++ rest) ≡ lookup k rest
unfolding lookup
passed true path k rest e = refl
passed false path k rest e = rw (e) refl

extra_found :
    (b : Bool) (path : Text) (rest : Dict Endpoint)
    → b ≡ false
    → lookup path ((if b then [] else (path, resource_document) ∷ []) ++ rest)
      ≡ some resource_document
unfolding lookup
extra_found true path rest e = cc
extra_found false path rest e = rw (text_eq_refl path) refl

without_path :
    (r : Text)
    → is_empty r ≡ true
    → protected_resource_metadata_path ++ r ≡ protected_resource_metadata_path
unfolding is_empty
without_path [] e = append-nil protected_resource_metadata_path
without_path (c ∷ r) e = cc

pub resource_routed :
    (s : Server) (b : Bool)
    → is_empty (resource_path s) ≡ b
    → lookup (protected_resource_metadata_path ++ resource_path s) (routes s)
      ≡ some resource_document
unfolding routes lookup
resource_routed s true e =
    rw (without_path (resource_path s) e, text_eq_refl protected_resource_metadata_path) refl
resource_routed s false e =
    elim (Bool-cases (
      text_eq protected_resource_metadata_path
        (protected_resource_metadata_path ++ resource_path s))) [
          | inl same ↦ rw (same) refl
          | inr other ↦ rw (other) (
              extra_found (is_empty (resource_path s))
                (protected_resource_metadata_path ++ resource_path s) _ e)
        ]

abbrev fixed_routes : Dict Endpoint
fixed_routes =
    (auth_server_metadata_path, server_document)
    ∷ (register_path, registration)
    ∷ (authorize_path, authorization)
    ∷ (token_path, token)
    ∷ []

pub lookup-routes :
    (s : Server) (k : Text)
    → text_eq protected_resource_metadata_path k ≡ false
    → text_eq (protected_resource_metadata_path ++ resource_path s) k ≡ false
    → lookup k (routes s) ≡ lookup k fixed_routes
unfolding routes lookup
lookup-routes s k e f = rw (e) (
    passed (is_empty (resource_path s)) (protected_resource_metadata_path ++ resource_path s) k
      fixed_routes f)

pub paths_differ :
    (r : Text)
    → (text_eq (protected_resource_metadata_path ++ r) authorize_path ≡ false)
      × (text_eq (protected_resource_metadata_path ++ r) register_path ≡ false)
      × (text_eq (protected_resource_metadata_path ++ r) token_path ≡ false)
      × (text_eq (protected_resource_metadata_path ++ r) auth_server_metadata_path ≡ false)
unfolding protected_resource_metadata_path auth_server_metadata_path authorize_path register_path
    token_path text text_eq
paths_differ r = (refl, refl, refl, refl)

pub fixed_routed :
    (lookup authorize_path fixed_routes ≡ some authorization)
    × (lookup register_path fixed_routes ≡ some registration)
    × (lookup token_path fixed_routes ≡ some token)
    × (lookup auth_server_metadata_path fixed_routes ≡ some server_document)
unfolding lookup auth_server_metadata_path authorize_path register_path token_path text text_eq
fixed_routed = (refl, refl, refl, refl)

pub base_differs :
    (text_eq protected_resource_metadata_path authorize_path ≡ false)
    × (text_eq protected_resource_metadata_path register_path ≡ false)
    × (text_eq protected_resource_metadata_path token_path ≡ false)
    × (text_eq protected_resource_metadata_path auth_server_metadata_path ≡ false)
unfolding protected_resource_metadata_path auth_server_metadata_path authorize_path register_path
    token_path text text_eq
base_differs = (refl, refl, refl, refl)

pub fixed_IsPlain :
    IsPlain protected_resource_metadata_path
    × IsPlain auth_server_metadata_path
    × IsPlain register_path
    × IsPlain authorize_path
    × IsPlain token_path
unfolding protected_resource_metadata_path auth_server_metadata_path authorize_path register_path
    token_path text text_eq is_empty is_segment is_unreserved
fixed_IsPlain = (
  below (one (text ".well-known") refl) (text "oauth-protected-resource") refl,
  below (one (text ".well-known") refl) (text "oauth-authorization-server") refl,
  below (one (text "oauth") refl) (text "register") refl,
  below (one (text "oauth") refl) (text "authorize") refl,
  below (one (text "oauth") refl) (text "token") refl,
)

-- A resource that is the public address itself, or lies below it at a plain path.
abbrev pub HasPlainPath : Server → Type 0
HasPlainPath s = (resource_path s ≡ []) ⊎ IsPlain (resource_path s)

pub resource-IsPlain :
    (s : Server) → HasPlainPath s → IsPlain (protected_resource_metadata_path ++ resource_path s)
resource-IsPlain s (inl bare) =
    rw (bare, append-nil protected_resource_metadata_path) fixed_IsPlain.0
resource-IsPlain s (inr plain) = IsPlain-append fixed_IsPlain.0 plain

extra-IsPlain :
    (b : Bool) (path : Text)
    → IsPlain path
    → All HasPlainPattern (if b then [] else (path, resource_document) ∷ [])
extra-IsPlain true path h = tt
extra-IsPlain false path h = (h, tt)

pub routes-IsPlain : (s : Server) → HasPlainPath s → All HasPlainPattern (routes s)
unfolding routes
routes-IsPlain s h =
    let (resource, server, register, authorize, exchange) = fixed_IsPlain in
    (
      resource,
      All-append HasPlainPattern _ _
          (extra-IsPlain (is_empty (resource_path s))
            (protected_resource_metadata_path ++ resource_path s) (resource-IsPlain s h))
          (server, (register, (authorize, (exchange, tt)))),
    )

longer_differs : (p r : Text) → is_empty r ≡ false → text_eq (p ++ r) p ≡ false
unfolding text_eq is_empty
longer_differs [] [] e = cc
longer_differs [] (c ∷ r) e = refl
longer_differs (c ∷ p) r e = ground (arith, longer_differs p r e)

fixed_AreDistinct :
    AreDistinct fixed_routes
    × (lookup protected_resource_metadata_path fixed_routes ≡ none)
    × ((r : Text) → lookup (protected_resource_metadata_path ++ r) fixed_routes ≡ none)
unfolding lookup protected_resource_metadata_path auth_server_metadata_path authorize_path
    register_path token_path text text_eq
fixed_AreDistinct = ((refl, (refl, (refl, (refl, tt)))), refl, λ r. refl)

extra-AreDistinct :
    (b : Bool) (r : Text)
    → is_empty r ≡ b
    → AreDistinct (
        (protected_resource_metadata_path, resource_document)
        ∷ ((if b then [] else (protected_resource_metadata_path ++ r, resource_document) ∷ [])
            ++ fixed_routes))
unfolding lookup
extra-AreDistinct true r e = (fixed_AreDistinct.1, fixed_AreDistinct.0)
extra-AreDistinct false r e = (
  rw (longer_differs protected_resource_metadata_path r e) fixed_AreDistinct.1,
  (fixed_AreDistinct.2 r, fixed_AreDistinct.0),
)

pub routes-AreDistinct : (s : Server) → AreDistinct (routes s)
unfolding routes
routes-AreDistinct s = extra-AreDistinct (is_empty (resource_path s)) (resource_path s) refl
