-- ===== src/Oauth/Principal/Named.antt =====
-- That a named principal who enters their own code is recognised.
use lib_agent_mcp.Prelude.{
  ◌≡◌, ◌≢◌, refl, ap, sym, ◌∙◌, false, Option, none, some, List, [], ◌∷◌, arith, Bool-cases, inl,
  inr, In, first, next, In-none,
}
use lib_agent_mcp.Prelude.Text.{Text, text_eq, text_eq_iff, text_le}
use lib_agent_mcp.Prelude.Dict.{Dict, lookup, keys, insert_sorted, sorted}
use lib_agent_mcp.Exec.{ok}
use lib_agent_mcp.Oauth.Store.{SecretStore}
use lib_agent_mcp.Oauth.MapStore.{Json}
use lib_agent_mcp.Oauth.World.{World, Rand, PrincipalGrant, PrincipalRecord, anonymous}
use lib_agent_mcp.Oauth.Pairing.{normalize_pairing}
use lib_agent_mcp.Oauth.Principal.{
  Candidate, named_candidate, named_candidates, candidates, verify_principal,
}
use lib_agent_mcp.Oauth.Principal.Laws.{
  first_match, match_loop_lem, IsNamed, named_candidates-IsNamed, first_match-All,
}
use lib_agent_mcp.Oauth.Principal.Verify.{Consulted}

In-keys : {V : Type 0} (m : Dict V) (k : Text) {v : V} → lookup k m ≡ some v → In k (keys m)
unfolding lookup
In-keys [] k h = cc
In-keys ((j, u) ∷ m) k {v = v} h = elim (Bool-cases (text_eq j k)) [
  | inl same ↦ rw (sym ((text_eq_iff j k).0 same)) first
  | inr other ↦ next (In-keys m k {v = v} (ground arith))
]

In-insert_sorted_self : (k : Text) (js : List Text) → In k (insert_sorted k js)
unfolding insert_sorted
In-insert_sorted_self k [] = first
In-insert_sorted_self k (j ∷ js) = elim (Bool-cases (text_eq k j)) [
  | inl same ↦ rw (same, (text_eq_iff k j).0 same) first
  | inr other ↦ elim (Bool-cases (text_le k j)) [
    | inl before ↦ rw (other, before) first
    | inr after ↦ rw (other, after) (next (In-insert_sorted_self k js))
  ]
]

In-insert_sorted : (k : Text) {x : Text} {js : List Text} → In x js → In x (insert_sorted k js)
unfolding insert_sorted
In-insert_sorted k {x = j} (first {xs = js}) = elim (Bool-cases (text_eq k j)) [
  | inl same ↦ rw (same) first
  | inr other ↦ elim (Bool-cases (text_le k j)) [
    | inl before ↦ rw (other, before) (next first)
    | inr after ↦ rw (other, after) first
  ]
]
In-insert_sorted k (next {y = j} {xs = js} h) = elim (Bool-cases (text_eq k j)) [
  | inl same ↦ rw (same) (next h)
  | inr other ↦ elim (Bool-cases (text_le k j)) [
    | inl before ↦ rw (other, before) (next (next h))
    | inr after ↦ rw (other, after) (next (In-insert_sorted k h))
  ]
]

In-sorted : {x : Text} (ks : List Text) → In x ks → In x (sorted ks)
unfolding sorted
In-sorted [] h = absurd (In-none h)
In-sorted (k ∷ ks) first = In-insert_sorted_self k (sorted ks)
In-sorted (k ∷ ks) (next h) = In-insert_sorted k (In-sorted ks h)

named_candidate-In :
    (name : Text) (o : Option PrincipalRecord) {c : Candidate} {rest : List Candidate}
    → In c rest
    → In c (named_candidate name o rest)
named_candidate-In name none h = h
named_candidate-In name (some rec) h = next h

named_candidates-In :
    (records : Dict PrincipalRecord) (name : Text) (names : List Text) {r : PrincipalRecord}
    → lookup name records ≡ some r
    → In name names
    → In
        (record { code = r.code; grant = record { name = name; binding = r.binding } })
        (named_candidates records names)
unfolding named_candidates
named_candidates-In records name [] e h = absurd (In-none h)
named_candidates-In records name (n ∷ names) e first = rw (e) first
named_candidates-In records name (n ∷ names) e (next h) =
    named_candidate-In n (lookup n records) (named_candidates-In records name names e h)

first_match-found :
    (got : Text) {c : Candidate} {cs : List Candidate}
    → In c cs
    → got ≡ normalize_pairing c.code
    → (g : PrincipalGrant) × (first_match got cs ≡ some g)
unfolding first_match
first_match-found got {c} (first {xs = cs}) e =
    (c.grant, ground (arith, text_eq_iff got (normalize_pairing c.code)))
first_match-found got (next {y = d} {xs = cs} h) e =
    elim (Bool-cases (text_eq got (normalize_pairing d.code))) [
      | inl hit ↦ (d.grant, rw (hit) refl)
      | inr miss ↦ let (g, found) = first_match-found got h e in (g, rw (miss) found)
    ]

some_inj : {A : Type 0} {a b : A} → some a ≡ some b → a ≡ b
some_inj e = cc

module _ {S : Type 0} (store : SecretStore S) (json : Json PrincipalRecord) (rand : Rand) where
  -- The grant of a candidate that is named and whose name is known.
  named_grant :
      (records : Dict PrincipalRecord) (c : Candidate) (name : Text) {r : PrincipalRecord}
      → IsNamed records c
      → lookup name records ≡ some r
      → c.grant.name ≡ name
      → c.grant ≡ record { name = name; binding = r.binding }
  named_grant records c name {r} h e same =
      let stored_r : some h.stored ≡ some r = sym h.found ∙ (ap (λ n. lookup n records) same ∙ e) in
      let same_record : h.stored ≡ r = some_inj stored_r in
      let binding : c.grant.binding ≡ r.binding =
        h.same_binding ∙ ap (λ (q : PrincipalRecord). q.binding) same_record in
      λ i. record { name = same i; binding = binding i }

  -- If the shared pairing code and the stored principals can be read, an entered code that equals
  -- the stored code of a principal after normalisation, but neither the shared code nor that of
  -- another principal, is accepted and stands for that principal with its stored binding.
  pub verify_principal_named :
      (input name : Text) (w : World S) (c : Consulted store json rand w) {r : PrincipalRecord}
      → lookup name c.records ≡ some r
      → normalize_pairing input ≡ normalize_pairing r.code
      → normalize_pairing input ≢ normalize_pairing c.shared
      → ((n : Text) (q : PrincipalRecord)
          → lookup n c.records ≡ some q
          → normalize_pairing input ≡ normalize_pairing q.code
          → n ≡ name)
      → (verify_principal store json rand input w).0
        ≡ ok (some (record { name = name; binding = r.binding }))
  unfolding verify_principal candidates first_match
  verify_principal_named input name w c {r} stored entered unshared unique =
      let got = normalize_pairing input in
      let cs = named_candidates c.records (sorted (keys c.records)) in
      let (g, found) =
        first_match-found got
          (named_candidates-In c.records name (sorted (keys c.records)) stored
            (In-sorted (keys c.records) (In-keys c.records name stored)))
          entered in
      let (d, named, same, grant) =
        first_match-All (IsNamed c.records) got cs
          (named_candidates-IsNamed c.records (sorted (keys c.records))) found in
      let is_name : d.grant.name ≡ name =
        unique d.grant.name named.stored named.found
          (same ∙ ap normalize_pairing named.same_code) in
      let missed : text_eq got (normalize_pairing c.shared) ≡ false =
        ground (arith, text_eq_iff got (normalize_pairing c.shared)) in
      rw (c.shared_read) (
        rw (c.records_read) (
          ap ok (
            match_loop_lem got (record { code = c.shared; grant = anonymous } ∷ cs) anonymous
            ∙ rw (missed)
                (found ∙ ap some (sym grant ∙ named_grant c.records d name named stored is_name)))))
