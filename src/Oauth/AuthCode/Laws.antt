-- ===== src/Oauth/AuthCode/Laws.antt =====
-- Authorization codes: single use, expiry, and that the other codes are left alone.
use lib_agent_mcp.Prelude.{ℕ, ◌+◌, ◌≤◌, ◌≡◌, ◌↔◌, none, some, arith, leb, if◌then◌else◌}
use lib_agent_mcp.Prelude.Text.{Text, text_eq, text_eq_refl}
use lib_agent_mcp.Prelude.Dict.{lookup, lookup-erase, lookup-insert}
use lib_agent_mcp.Exec.{ok}
use lib_agent_mcp.Oauth.World.{World, Rand, AuthGrant, rand_token}
use lib_agent_mcp.Oauth.AuthCode.{put, issue, live, consume}

module _ {S : Type 0} where
  -- Whatever the first attempt gave, a code that was presented once is unknown from then on.
  pub consume-consume :
      (now later : ℕ) (code : Text) (w : World S)
      → (consume later code (consume now code w).1).0 ≡ none
  unfolding consume live
  consume-consume now later code w =
      ground (arith, lookup-erase code code w.codes, text_eq_refl code)

  -- A grant is returned exactly when the code is known and its expiry has not passed.
  pub consume-eq-some_iff :
      (now : ℕ) (code : Text) (w : World S) (g : AuthGrant)
      → ((consume now code w).0 ≡ some g) ↔ ((lookup code w.codes ≡ some g) × (now ≤ g.expires_at))
  unfolding consume live
  consume-eq-some_iff now code w g = ground arith

  -- The other codes stay as they were.
  pub lookup-consume :
      (now : ℕ) (code other : Text) (w : World S)
      → lookup other (consume now code w).1.codes
        ≡ (if text_eq code other then none else lookup other w.codes)
  unfolding consume
  lookup-consume now code other w = lookup-erase code other w.codes

  -- An issued authorization code is redeemed for its grant until its lifetime is over, and is
  -- unknown after that.
  pub consume-issue :
      (rand : Rand) (ttl now later : ℕ) (g : AuthGrant) (w : World S) {code : Text}
      → (issue rand ttl now g w).0 ≡ ok code
      → (consume later code (issue rand ttl now g w).1).0
        ≡ (if leb later (now + ttl) then some (record g { expires_at = now + ttl }) else none)
  unfolding issue put rand_token consume live
  consume-issue rand ttl now later g w {code} e = ground (
    arith,
    lookup-insert code code (record g { expires_at = now + ttl }) w.codes,
    text_eq_refl code,
  )
