-- ===== src/Oauth/World.antt =====
-- The data of the package `oauth`, the state that its server works on, and oauth/random.go.
use lib_agent_mcp.Prelude.{ℕ, ◌+◌, ◌*◌, ◌^◌, Bool, Option, none, some, List, [], ◌∷◌, ◌&&◌}
use lib_agent_mcp.Prelude.Text.{Text, is_empty}
use lib_agent_mcp.Prelude.Dict.{Dict}
use lib_agent_mcp.Exec.{Exec, Result, ok, err, no_randomness, pure, ◌>>=◌}
use lib_agent_mcp.Oauth.Encoding.{encode64}

-- PrincipalGrant of oauth/principal.go; a nil map is the empty one.
pub record PrincipalGrant : Type 0 where
  pub name : Text
  pub binding : Dict Text

abbrev pub anonymous : PrincipalGrant
anonymous = record { name = []; binding = [] }

abbrev pub no_entries : Dict Text → Bool
no_entries [] = Bool.true
no_entries (_ ∷ _) = Bool.false

-- The method IsAnonymous of PrincipalGrant.
unfoldable pub is_anonymous : PrincipalGrant → Bool
is_anonymous g = is_empty g.name && no_entries g.binding

pub record Client : Type 0 where
  pub id : Text
  pub redirect_uris : List Text
  pub name : Text

-- authGrant of oauth/authcode.go. Instants and durations are nanoseconds.
pub record AuthGrant : Type 0 where
  pub client_id : Text
  pub redirect_uri : Text
  pub code_challenge : Text
  pub code_challenge_method : Text
  pub scope : Text
  pub principal : PrincipalGrant
  pub expires_at : ℕ

pub record RefreshGrant : Type 0 where
  pub client_id : Text
  pub scope : Text
  pub principal : PrincipalGrant

pub record PrincipalRecord : Type 0 where
  pub code : Text
  pub binding : Dict Text

-- Verified of oauth/token.go.
pub record Verified : Type 0 where
  pub client_id : Text
  pub scope : Text
  pub grant : PrincipalGrant
  pub expires_at : ℕ

abbrev pub second : ℕ
second = 10 ^ 9

abbrev pub minute : ℕ
minute = 60 * second

abbrev pub hour : ℕ
hour = 3600 * second

-- The state of a server: the secrets in the store, how often crypto/rand was read, and the map of
-- authorization codes in memory.
pub record World (S : Type 0) : Type 0 where
  pub secrets : S
  pub drawn : ℕ
  pub codes : Dict AuthGrant

-- crypto/rand: what the n-th read of so many bytes gives, or an error.
abbrev pub Rand : Type 0
Rand = ℕ → ℕ → Option (List ℕ)

abbrev pub drawn_bytes : Option (List ℕ) → Result (List ℕ)
drawn_bytes none = err no_randomness
drawn_bytes (some b) = ok b

module _ {S : Type 0} where
  -- A method of the store, in the server's state.
  abbrev pub on_store : {A : Type 0} → Exec S A → Exec (World S) A
  on_store m w = ((m w.secrets).0, record w { secrets = (m w.secrets).1 })

  -- rand.Read on a buffer of so many bytes
  abbrev pub read_random : Rand → ℕ → Exec (World S) (List ℕ)
  read_random rand n w = (drawn_bytes (rand w.drawn n), record w { drawn = w.drawn + 1 })

  -- oauth/random.go
  unfoldable pub rand_token : Rand → ℕ → Exec (World S) Text
  rand_token rand nbytes = do b ← read_random rand nbytes; pure (encode64 b)
