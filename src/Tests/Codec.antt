-- ===== src/Tests/Codec.antt =====
-- A concrete encoding of the stored documents and of token claims, which meets what is assumed of
-- encoding/json and of the JWT library.
use lib_agent_mcp.Prelude.{
  ℕ, zero, suc, ◌≡◌, ap, refl, Option, none, some, List, [], ◌∷◌, arith, length,
}
use lib_agent_mcp.Prelude.Text.{Text, is_empty}
use lib_agent_mcp.Prelude.Dict.{Dict}
use lib_agent_mcp.Oauth.MapStore.{Json}
use lib_agent_mcp.Oauth.MapStore.Laws.{IsLossless}
use lib_agent_mcp.Oauth.World.{Client, RefreshGrant, PrincipalRecord}

pub record Codec (A : Type 0) : Type 0 where
  pub put : A → Text → Text
  pub get : Text → Option (A × Text)
  pub back : (a : A) (rest : Text) → get (put a rest) ≡ some (a, rest)

abbrev pub get_number : Text → Option (ℕ × Text)
get_number [] = none
get_number (n ∷ rest) = some (n, rest)

abbrev pub number : Codec ℕ
number = record { put = λ n rest. n ∷ rest; get = get_number; back = λ n rest. refl }

module _ {A B : Type 0} where
  abbrev pub first : Codec B → A → Option (B × Text) → Option ((A × B) × Text)
  first d a none = none
  first d a (some (b, rest)) = some ((a, b), rest)

  abbrev pub get_pair : Codec A → Codec B → Option (A × Text) → Option ((A × B) × Text)
  get_pair c d none = none
  get_pair c d (some (a, rest)) = first d a (d.get rest)

  pub pair_back :
      (c : Codec A) (d : Codec B) (a : A) (b : B) (rest : Text)
      → get_pair c d (c.get (c.put a (d.put b rest))) ≡ some ((a, b), rest)
  pair_back c d a b rest = rw (c.back a (d.put b rest), get_pair, d.back b rest) refl

  abbrev pub pair : Codec A → Codec B → Codec (A × B)
  pair c d = record {
    put = λ (a, b) rest. c.put a (d.put b rest);
    get = λ t. get_pair c d (c.get t);
    back = λ (a, b) rest. pair_back c d a b rest;
  }

  abbrev pub get_as : (A → B) → Option (A × Text) → Option (B × Text)
  get_as f none = none
  get_as f (some (a, rest)) = some (f a, rest)

  pub as_back :
      (c : Codec A) (f : A → B) (a : A) (rest : Text)
      → get_as f (c.get (c.put a rest)) ≡ some (f a, rest)
  as_back c f a rest = rw (c.back a rest) refl

module _ {A : Type 0} (c : Codec A) where
  abbrev pub put_all : List A → Text → Text
  put_all [] rest = rest
  put_all (x ∷ xs) rest = c.put x (put_all xs rest)

  abbrev pub also : A → Option (List A × Text) → Option (List A × Text)
  also x none = none
  also x (some (xs, rest)) = some (x ∷ xs, rest)

  abbrev pub get_then : (Text → Option (List A × Text)) → Option (A × Text) → Option (List A × Text)
  get_then f none = none
  get_then f (some (x, rest)) = also x (f rest)

  abbrev pub get_all : ℕ → Text → Option (List A × Text)
  get_all zero t = some ([], t)
  get_all (suc n) t = get_then (get_all n) (c.get t)

  pub all_back :
      (xs : List A) (rest : Text) → get_all (length xs) (put_all xs rest) ≡ some (xs, rest)
  all_back [] rest = refl
  all_back (x ∷ xs) rest = rw (c.back x (put_all xs rest)) (rw (all_back xs rest) refl)

  abbrev pub get_list : Text → Option (List A × Text)
  get_list [] = none
  get_list (n ∷ rest) = get_all n rest

  abbrev pub list : Codec (List A)
  list = record { put = λ xs rest. length xs ∷ put_all xs rest; get = get_list; back = all_back }

abbrev pub bytes : Codec Text
bytes = list number

abbrev pub binding : Codec (Dict Text)
binding = list (pair bytes bytes)

abbrev pub client : Codec Client
client = record {
  put = λ c. (pair bytes (pair (list bytes) bytes)).put (c.id, (c.redirect_uris, c.name));
  get = λ t.
      get_as (λ (i, (u, n)). record { id = i; redirect_uris = u; name = n })
        ((pair bytes (pair (list bytes) bytes)).get t);
  back = λ c.
      as_back (pair bytes (pair (list bytes) bytes))
        (λ (i, (u, n)). record { id = i; redirect_uris = u; name = n })
        (c.id, (c.redirect_uris, c.name));
}

abbrev pub principal_record : Codec PrincipalRecord
principal_record = record {
  put = λ r. (pair bytes binding).put (r.code, r.binding);
  get = λ t. get_as (λ (c, b). record { code = c; binding = b }) ((pair bytes binding).get t);
  back = λ r.
      as_back (pair bytes binding) (λ (c, b). record { code = c; binding = b }) (r.code, r.binding);
}

abbrev pub refresh_shape : Codec (Text × (Text × (Text × Dict Text)))
refresh_shape = pair bytes (pair bytes (pair bytes binding))

abbrev pub to_refresh : Text × (Text × (Text × Dict Text)) → RefreshGrant
to_refresh (i, (s, (n, b))) = record {
  client_id = i;
  scope = s;
  principal = record { name = n; binding = b };
}

abbrev pub refresh_grant : Codec RefreshGrant
refresh_grant = record {
  put = λ g. refresh_shape.put (g.client_id, (g.scope, (g.principal.name, g.principal.binding)));
  get = λ t. get_as to_refresh (refresh_shape.get t);
  back = λ g.
      as_back refresh_shape to_refresh
        (g.client_id, (g.scope, (g.principal.name, g.principal.binding)));
}

-- Documents: the whole map, behind a mark that keeps the text from being empty.
module _ {V : Type 0} (c : Codec V) where
  abbrev pub unmarked : Option (Dict V × Text) → Option (Dict V)
  unmarked none = none
  unmarked (some (m, _)) = some m

  abbrev pub unmarshal : Text → Option (Dict V)
  unmarshal [] = none
  unmarshal (_ ∷ t) = unmarked ((list (pair bytes c)).get t)

  abbrev pub json : Json V
  json = record { marshal = λ m. some (7 ∷ (list (pair bytes c)).put m []); unmarshal = unmarshal }

  marshal_cases :
      (m : Dict V) (t : Text) → json.marshal m ≡ some t → t ≡ 7 ∷ (list (pair bytes c)).put m []
  marshal_cases m t e = ground arith

  pub json-IsLossless : IsLossless json
  unfolding is_empty
  json-IsLossless = record {
    back = λ m t e.
        rw (marshal_cases m t e)
          (m, ap unmarked ((list (pair bytes c)).back m []), λ k. refl, refl);
  }
