-- ===== src/Oauth/Principal/Laws.antt =====
-- What a match of the entered code establishes.
use lib_agent_mcp.Prelude.{
  ◌≡◌, refl, true, false, Option, none, some, List, [], ◌∷◌, arith, Bool-cases, inl, inr, All,
  if◌then◌else◌,
}
use lib_agent_mcp.Prelude.Text.{Text, text_eq, text_eq_iff}
use lib_agent_mcp.Prelude.Dict.{Dict, lookup}
use lib_agent_mcp.Oauth.World.{PrincipalGrant, PrincipalRecord}
use lib_agent_mcp.Oauth.Pairing.{normalize_pairing, constant_time_equal_pairing}
use lib_agent_mcp.Oauth.Principal.{
  Candidate, named_candidate, named_candidates, match_loop, if_found,
}

-- The specification of the match: the grant of the first candidate whose code is equal.
unfoldable pub first_match : Text → List Candidate → Option PrincipalGrant
first_match got [] = none
first_match got (c ∷ cs) =
    let rest = first_match got cs in
    if text_eq got (normalize_pairing c.code) then some c.grant else rest

match_loop_found :
    (got : Text) (cs : List Candidate) (g : PrincipalGrant) → match_loop got cs g true ≡ (g, true)
unfolding match_loop
match_loop_found got [] g = refl
match_loop_found got (c ∷ cs) g = ground (arith, match_loop_found got cs g)

-- The loop over the candidates, which has no early exit, gives the grant of the first candidate
-- whose normalised code is equal to the entered one.
pub match_loop_lem :
    (got : Text) (cs : List Candidate) (g : PrincipalGrant)
    → if_found (match_loop got cs g false) ≡ first_match got cs
unfolding match_loop first_match constant_time_equal_pairing
match_loop_lem got [] g = refl
match_loop_lem got (c ∷ cs) g =
    ground (arith, match_loop_lem got cs g, match_loop_found got cs c.grant)

-- A candidate that stands for a stored principal.
pub record IsNamed (records : Dict PrincipalRecord) (c : Candidate) : Type 0 where
  pub stored : PrincipalRecord
  pub found : lookup c.grant.name records ≡ some stored
  pub same_code : c.code ≡ stored.code
  pub same_binding : c.grant.binding ≡ stored.binding

named_candidate-IsNamed :
    (records : Dict PrincipalRecord) (name : Text) (o : Option PrincipalRecord)
    (rest : List Candidate)
    → lookup name records ≡ o
    → All (IsNamed records) rest
    → All (IsNamed records) (named_candidate name o rest)
named_candidate-IsNamed records name none rest e h = h
named_candidate-IsNamed records name (some rec) rest e h =
    (record { stored = rec; found = e; same_code = refl; same_binding = refl }, h)

pub named_candidates-IsNamed :
    (records : Dict PrincipalRecord) (names : List Text)
    → All (IsNamed records) (named_candidates records names)
unfolding named_candidates
named_candidates-IsNamed records [] = tt
named_candidates-IsNamed records (name ∷ names) =
    named_candidate-IsNamed records name (lookup name records) _ refl
      (named_candidates-IsNamed records names)

-- A grant that was matched belongs to a candidate whose code is the entered one.
pub first_match-All {ℓ} :
    (P : Candidate → Type ℓ) (got : Text) (cs : List Candidate) {g : PrincipalGrant}
    → All P cs
    → first_match got cs ≡ some g
    → (c : Candidate) × P c × (got ≡ normalize_pairing c.code) × (c.grant ≡ g)
unfolding first_match
first_match-All P got [] h e = cc
first_match-All P got (c ∷ cs) (p, h) e =
    elim (Bool-cases (text_eq got (normalize_pairing c.code))) [
      | inl hit ↦ (c, p, (text_eq_iff _ _).0 hit, ground arith)
      | inr miss ↦ first_match-All P got cs h (ground arith)
    ]
