-- ===== src/Oauth/Principal/Verify.antt =====
-- Whom an entered pairing code stands for.
use lib_agent_mcp.Prelude.{
  ◌≡◌, ap, sym, ◌∙◌, ◌⊎◌, inl, inr, false, some, List, ◌∷◌, arith, Bool-cases,
}
use lib_agent_mcp.Prelude.Text.{Text, text_eq, text_eq_iff}
use lib_agent_mcp.Prelude.Dict.{sorted, Dict, lookup, keys}
use lib_agent_mcp.Exec.{ok, pure, >>=-eq-ok, Result-cases}
use lib_agent_mcp.Oauth.Store.{SecretStore}
use lib_agent_mcp.Oauth.MapStore.{Json}
use lib_agent_mcp.Oauth.MapStore
use lib_agent_mcp.Oauth.World.{World, Rand, PrincipalGrant, PrincipalRecord, anonymous}
use lib_agent_mcp.Oauth.Pairing.{normalize_pairing}
use lib_agent_mcp.Oauth.Pairing
use lib_agent_mcp.Oauth.Principal.{
  Candidate, principals, named_candidates, candidates, match_loop, if_found, verify_principal,
}
use lib_agent_mcp.Oauth.Principal.Laws.{
  first_match, match_loop_lem, IsNamed, named_candidates-IsNamed, first_match-All,
}

module _ {S : Type 0} (store : SecretStore S) (json : Json PrincipalRecord) (rand : Rand) where
  -- The shared pairing code, and the stored principals, that a match consults.
  pub record Consulted (w : World S) : Type 0 where
    pub shared : Text
    pub records : Dict PrincipalRecord
    pub shared_read : (Pairing.code store rand w).0 ≡ ok shared
    pub records_read :
        (MapStore.load (principals store json rand) (Pairing.code store rand w).1.secrets).0
        ≡ ok records

  -- The entered code was the shared one, which stands for the anonymous operator, or the code of a
  -- stored principal.
  abbrev pub Matched : Text → Text → Dict PrincipalRecord → PrincipalGrant → Type 0
  Matched input shared records g =
      ((normalize_pairing input ≡ normalize_pairing shared) × (g ≡ anonymous))
      ⊎ ((r : PrincipalRecord) × (lookup g.name records ≡ some r)
          × (normalize_pairing input ≡ normalize_pairing r.code)
          × (g.binding ≡ r.binding))

  candidates-ok :
      (w : World S) {cs : List Candidate}
      → (candidates store json rand w).0 ≡ ok cs
      → (c : Consulted w) × (cs
          ≡ record { code = c.shared; grant = anonymous }
            ∷ named_candidates c.records (sorted (keys c.records)))
  unfolding candidates
  candidates-ok w e = elim (Result-cases (Pairing.code store rand w).0) [
    | inr (f, h) ↦ ground arith
    | inl (shared, h) ↦
        elim (Result-cases
          (MapStore.load (principals store json rand) (Pairing.code store rand w).1.secrets).0) [
            | inr (f, k) ↦ ground arith
            | inl (records, k) ↦ (
              record { shared = shared; records = records; shared_read = h; records_read = k },
              ground arith,
            )
          ]
  ]

  first_match-Matched :
      (input shared : Text) (records : Dict PrincipalRecord) {g : PrincipalGrant}
      → first_match (normalize_pairing input) (
          record { code = shared; grant = anonymous }
          ∷ named_candidates records (sorted (keys records)))
        ≡ some g
      → Matched input shared records g
  unfolding first_match
  first_match-Matched input shared records {g} e =
      elim (Bool-cases (text_eq (normalize_pairing input) (normalize_pairing shared))) [
        | inl hit ↦ inl ((text_eq_iff _ _).0 hit, ground arith)
        | inr miss ↦
            let (c, named, same, grant) =
              first_match-All (IsNamed records) (normalize_pairing input)
                (named_candidates records (sorted (keys records))) {g = g}
                (named_candidates-IsNamed records (sorted (keys records))) (ground arith) in
            inr (
              named.stored,
              ground (arith, named.found),
              ground (arith, named.same_code),
              ground (arith, named.same_binding),
            )
      ]

  -- An entered pairing code is accepted only if it equals, after normalisation, the shared code,
  -- and then it stands for the anonymous operator, or the code of a stored principal, and then it
  -- stands for that principal with its stored binding.
  pub verify_principal_sound :
      (input : Text) (w : World S) {g : PrincipalGrant}
      → (verify_principal store json rand input w).0 ≡ ok (some g)
      → (c : Consulted w) × Matched input c.shared c.records g
  unfolding verify_principal
  verify_principal_sound input w {g} e =
      let (cs, found, e', _) =
        >>=-eq-ok (candidates store json rand)
          (λ cs. pure (if_found (match_loop (normalize_pairing input) cs anonymous false))) w e in
      let (c, same) = candidates-ok w found in
      (
        c,
        first_match-Matched input c.shared c.records (
            ap (first_match (normalize_pairing input)) (sym same)
            ∙ (sym (match_loop_lem (normalize_pairing input) cs anonymous) ∙ ground arith)),
      )

  first_match-shared :
      (input shared : Text) (cs : List Candidate)
      → normalize_pairing input ≡ normalize_pairing shared
      → first_match (normalize_pairing input) (record { code = shared; grant = anonymous } ∷ cs)
        ≡ some anonymous
  unfolding first_match
  first_match-shared input shared cs e =
      ground (arith, text_eq_iff (normalize_pairing input) (normalize_pairing shared))

  -- If the shared pairing code and the stored principals can be read, an entered code that equals
  -- the shared one after normalisation is accepted, and stands for the anonymous operator, also
  -- where a principal has the same code.
  pub verify_principal_shared :
      (input : Text) (w : World S) (c : Consulted w)
      → normalize_pairing input ≡ normalize_pairing c.shared
      → (verify_principal store json rand input w).0 ≡ ok (some anonymous)
  unfolding verify_principal candidates
  verify_principal_shared input w c e = rw (c.shared_read) (
      rw (c.records_read) (
        ap ok (
          match_loop_lem (normalize_pairing input)
            (record { code = c.shared; grant = anonymous }
              ∷ named_candidates c.records (sorted (keys c.records)))
            anonymous
          ∙ first_match-shared input c.shared (named_candidates c.records (sorted (keys c.records)))
              e)))
