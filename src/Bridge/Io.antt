-- ===== src/Bridge/Io.antt =====
-- Go functions of the package agentmcp that act on the outside and return `(value, error)`.
use lib_agent_mcp.Prelude.{◌≡◌, ◌⊎◌, inl, inr, refl, arith}
use lib_agent_mcp.Prelude.Text.{Text}
use lib_agent_mcp.Exec.{Fault, Result, ok, err}

-- An error: one with a message of its own, one of the package oauth, or one that wraps another, with
-- a text in front of it or behind it.
pub data Problem : Type 0 where
  message : Text → Problem
  fault : Fault → Problem
  wrapped : Text → Problem → Problem
  followed : Problem → Text → Problem

pub data Attempt (A : Type 0) : Type 0 where
  done : A → Attempt A
  failed : Problem → Attempt A

-- What was done before an error stays done, so the state comes back beside the error too.
abbrev pub Io : Type 0 → Type 0 → Type 0
Io M A = M → Attempt A × M

module _ {A : Type 0} where
  abbrev pub told : (Problem → Problem) → Attempt A → Attempt A
  told f (done a) = done a
  told f (failed e) = failed (f e)

  pub told-eq-done :
      (f : Problem → Problem) (r : Attempt A) {a : A} → told f r ≡ done a → r ≡ done a
  told-eq-done f (done b) e = e
  told-eq-done f (failed p) e = ground arith

module _ {M A : Type 0} where
  abbrev pub pure : A → Io M A
  pure a s = (done a, s)

  abbrev pub fail : Problem → Io M A
  fail e s = (failed e, s)

  -- `if err != nil { return …, f(err) }`
  abbrev pub or_wrap : (Problem → Problem) → Io M A → Io M A
  or_wrap f m s = (told f (m s).0, (m s).1)

  -- `defer cleanup()` in front of the rest of a function.
  abbrev pub finally : (M → M) → Io M A → Io M A
  finally cleanup m s = ((m s).0, cleanup (m s).1)

module _ {M A B : Type 0} where
  abbrev pub next : Attempt A → (A → Io M B) → Io M B
  next (done a) f s = f a s
  next (failed e) f s = (failed e, s)

  infixl 10 ◌>>=◌ ◌>>◌
  abbrev pub ◌>>=◌ : Io M A → (A → Io M B) → Io M B
  ◌>>=◌ m f s = next (m s).0 f (m s).1

  next-eq-done :
      (r : Attempt A) (f : A → Io M B) (t : M) {b : B}
      → (next r f t).0 ≡ done b
      → (a : A) × (r ≡ done a) × ((f a t).0 ≡ done b) × (next r f t ≡ f a t)
  next-eq-done (done a) f t h = (a, refl, h, refl)
  next-eq-done (failed e) f t h = ground arith

  -- A block that succeeds has run its first action with success.
  pub >>=-eq-done :
      (m : Io M A) (f : A → Io M B) (s : M) {b : B}
      → ((m >>= f) s).0 ≡ done b
      → (a : A) × ((m s).0 ≡ done a) × ((f a (m s).1).0 ≡ done b) × ((m >>= f) s ≡ f a (m s).1)
  >>=-eq-done m f s h = next-eq-done (m s).0 f (m s).1 h

  abbrev pub ◌>>◌ : Io M A → Io M B → Io M B
  m >> n = m >>= λ _. n

module _ {A : Type 0} where
  pub Attempt-cases : (r : Attempt A) → ((a : A) × (r ≡ done a)) ⊎ ((e : Problem) × (r ≡ failed e))
  Attempt-cases (done a) = inl (a, refl)
  Attempt-cases (failed e) = inr (e, refl)

  abbrev pub attempted : Result A → Attempt A
  attempted (ok a) = done a
  attempted (err e) = failed (fault e)
