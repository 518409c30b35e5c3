-- ===== src/Bridge/Pair/Laws.antt =====
-- What --bind takes, and what the pairing commands leave alone and do not show.
use lib_agent_mcp.Prelude.{
  ◌≡◌, ◌⊎◌, inl, inr, refl, ap, arith, true, false, Bool-cases, Option, none, some, Option-cases,
  List, [], ◌∷◌, ◌++◌, All, if◌then◌else◌,
}
use lib_agent_mcp.Prelude.Text.{Text, text_eq, is_empty, cut}
use lib_agent_mcp.Prelude.Dict.{Dict, lookup, insert, lookup-insert}
use lib_agent_mcp.Bridge.Io.{Attempt, done, failed}
use lib_agent_mcp.Bridge.Pair.{not_a_pair, bind_pairs, parse_bind_pairs}

-- The key and the value of `key=value`, where the key is not empty.
pub record IsPair (kv : Text) : Type 0 where
  pub key : Text
  pub value : Text
  pub splits : cut kv b'=' ≡ some (key, value)
  pub named : is_empty key ≡ false

abbrev pub Malformed : Text → Type 0
Malformed kv = (cut kv b'=' ≡ none) ⊎ ((value : Text) × (cut kv b'=' ≡ some ([], value)))

-- The value of a key after a pair, where it had this one before.
abbrev after_pair : Text → Option (Text × Text) → Option Text → Option Text
after_pair key none v = v
after_pair key (some (k, value)) v = if text_eq k key then some value else v

-- The value of a key in a list of pairs: that of the last pair with this key.
unfoldable pub last_value : Text → List Text → Option Text → Option Text
last_value key [] v = v
last_value key (kv ∷ kvs) v = last_value key kvs (after_pair key (cut kv b'=') v)

module _ (quote : Text → Text) where
  -- What parseBindPairs gives: a map with the last value of each key, where every text is a pair, or
  -- else an error for the first one that is not.
  pub data IsParsed (pairs : List Text) (m : Dict Text) : Attempt (Dict Text) → Type 0 where
    parsed :
        (binding : Dict Text)
        → All IsPair pairs
        → ((key : Text) → lookup key binding ≡ last_value key pairs (lookup key m))
        → IsParsed pairs m (done binding)
    refused :
        (before after : List Text) (kv : Text)
        → pairs ≡ before ++ (kv ∷ after)
        → All IsPair before
        → Malformed kv
        → IsParsed pairs m (failed (not_a_pair quote kv))

  later-IsParsed :
      (kv : Text) (kvs : List Text) (m : Dict Text) {k value : Text} (r : Attempt (Dict Text))
      → cut kv b'=' ≡ some (k, value)
      → is_empty k ≡ false
      → IsParsed kvs (insert k value m) r
      → IsParsed (kv ∷ kvs) m r
  unfolding last_value
  later-IsParsed kv kvs m {k} {value} r splits named (parsed binding pairs same) =
      parsed binding (record { key = k; value = value; splits = splits; named = named }, pairs)
        (λ key. rw (same key, splits) (ap (last_value key kvs) (lookup-insert k key value m)))
  later-IsParsed kv kvs m {k} {value} r splits named (refused before after bad split pairs wrong) =
      refused (kv ∷ before) after bad (ap (λ rest. kv ∷ rest) split)
        (record { key = k; value = value; splits = splits; named = named }, pairs) wrong

  is_empty-true : (k : Text) → is_empty k ≡ true → k ≡ []
  unfolding is_empty
  is_empty-true [] e = refl
  is_empty-true (c ∷ k) e = ground arith

  bind_pairs-IsParsed :
      (pairs : List Text) (m : Dict Text) → IsParsed pairs m (bind_pairs quote pairs m)
  unfolding bind_pairs last_value
  bind_pairs-IsParsed [] m = parsed m tt (λ key. refl)
  bind_pairs-IsParsed (kv ∷ kvs) m = elim (Option-cases (cut kv b'=')) [
    | inl no_cut ↦ rw (no_cut) (refused [] kvs kv refl tt (inl no_cut))
    | inr ((k, value), splits) ↦ elim (Bool-cases (is_empty k)) [
      | inl nameless ↦
          rw (splits, nameless)
            (refused [] kvs kv refl tt (inr (value, rw (splits, is_empty-true k nameless) refl)))
      | inr named ↦
          rw (splits, named)
            (later-IsParsed kv kvs m (bind_pairs quote kvs (insert k value m)) splits named
              (bind_pairs-IsParsed kvs (insert k value m)))
    ]
  ]

  -- The values of --bind are either all of the form key=value with a key that is not empty, and the
  -- binding gives each key the value of its last pair, or the error names the first value that is
  -- not of this form.
  pub parse_bind_pairs-IsParsed :
      (pairs : List Text) → IsParsed pairs [] (parse_bind_pairs quote pairs)
  unfolding parse_bind_pairs
  parse_bind_pairs-IsParsed pairs = bind_pairs-IsParsed pairs []
