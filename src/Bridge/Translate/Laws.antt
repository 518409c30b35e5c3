-- ===== src/Bridge/Translate/Laws.antt =====
-- That no value in the structured records of a call is a host path.
use lib_agent_mcp.Prelude.{◌≡◌, refl, Option, none, some, List, [], ◌∷◌, All, Bool-cases, inl, inr}
use lib_agent_mcp.Prelude.Text.{Text, split}
use lib_agent_mcp.Prelude.Dict.{Dict, insert}
use lib_agent_mcp.Bridge.Runner.{RunResult}
use lib_agent_mcp.Bridge.Blocks.{
  FileRoot, FileRef, JsonValue, string, object, array, scalar, file, Fields, no_fields, field,
  Items, no_items, item, StructuredContent,
}
use lib_agent_mcp.Bridge.Translate.{
  rewrite_value, rewrite_fields, rewrite_items, rewrite_file_refs, referenced, Line, blank, raw,
  metadata, entry, classify, Processed, process_line, is_zero, process_lines, process_stdout,
  translate, parse_error,
}

module _ (file_ref_for : List FileRoot → Text → Option FileRef) (roots : List FileRoot) where
  -- That the value is no path under one of the roots, nor has such a value in an object or an array
  -- at any depth. The keys of objects may be anything.
  mutual
    pub HasPathFreeValues : JsonValue → Type 0
    HasPathFreeValues (string s) = file_ref_for roots s ≡ none
    HasPathFreeValues (object fs) = HavePathFreeValues fs
    HasPathFreeValues (array vs) = ArePathFree vs
    HasPathFreeValues (scalar s) = Unit
    HasPathFreeValues (file r) = Unit

    pub HavePathFreeValues : Fields → Type 0
    HavePathFreeValues no_fields = Unit
    HavePathFreeValues (field k v fs) = HasPathFreeValues v × HavePathFreeValues fs

    pub ArePathFree : Items → Type 0
    ArePathFree no_items = Unit
    ArePathFree (item v vs) = HasPathFreeValues v × ArePathFree vs

  referenced-HasPathFreeValues :
      (s : Text) (o : Option FileRef)
      → file_ref_for roots s ≡ o
      → HasPathFreeValues (referenced file_ref_for roots s o)
  unfolding HasPathFreeValues
  referenced-HasPathFreeValues s none e = e
  referenced-HasPathFreeValues s (some r) e = tt

  mutual
    unfolding HasPathFreeValues rewrite_value

    pub rewrite_value-HasPathFreeValues :
        (v : JsonValue) → HasPathFreeValues (rewrite_value file_ref_for roots v)
    rewrite_value-HasPathFreeValues (string s) =
        referenced-HasPathFreeValues s (file_ref_for roots s) refl
    rewrite_value-HasPathFreeValues (object fs) = rewrite_fields-HavePathFreeValues fs
    rewrite_value-HasPathFreeValues (array vs) = rewrite_items-ArePathFree vs
    rewrite_value-HasPathFreeValues (scalar s) = tt
    rewrite_value-HasPathFreeValues (file r) = tt

    rewrite_fields-HavePathFreeValues :
        (fs : Fields) → HavePathFreeValues (rewrite_fields file_ref_for roots fs)
    rewrite_fields-HavePathFreeValues no_fields = tt
    rewrite_fields-HavePathFreeValues (field k v fs) =
        (rewrite_value-HasPathFreeValues v, rewrite_fields-HavePathFreeValues fs)

    rewrite_items-ArePathFree : (vs : Items) → ArePathFree (rewrite_items file_ref_for roots vs)
    rewrite_items-ArePathFree no_items = tt
    rewrite_items-ArePathFree (item v vs) =
        (rewrite_value-HasPathFreeValues v, rewrite_items-ArePathFree vs)

  mutual
    unfolding HasPathFreeValues

    HasPathFreeValues-any :
        ((s : Text) → file_ref_for roots s ≡ none) → (v : JsonValue) → HasPathFreeValues v
    HasPathFreeValues-any h (string s) = h s
    HasPathFreeValues-any h (object fs) = HavePathFreeValues-any h fs
    HasPathFreeValues-any h (array vs) = ArePathFree-any h vs
    HasPathFreeValues-any h (scalar s) = tt
    HasPathFreeValues-any h (file r) = tt

    HavePathFreeValues-any :
        ((s : Text) → file_ref_for roots s ≡ none) → (fs : Fields) → HavePathFreeValues fs
    HavePathFreeValues-any h no_fields = tt
    HavePathFreeValues-any h (field k v fs) =
        (HasPathFreeValues-any h v, HavePathFreeValues-any h fs)

    ArePathFree-any : ((s : Text) → file_ref_for roots s ≡ none) → (vs : Items) → ArePathFree vs
    ArePathFree-any h no_items = tt
    ArePathFree-any h (item v vs) = (HasPathFreeValues-any h v, ArePathFree-any h vs)

-- The documented behaviour of FileRefFor without roots: no path is under one.
abbrev pub NeedsRoot : (List FileRoot → Text → Option FileRef) → Type 0
NeedsRoot file_ref_for = (s : Text) → file_ref_for [] s ≡ none

module _ (file_ref_for : List FileRoot → Text → Option FileRef) (law : NeedsRoot file_ref_for) where
  rewrite_file_refs-HasPathFreeValues :
      (roots : List FileRoot) (v : JsonValue)
      → HasPathFreeValues file_ref_for roots (rewrite_file_refs file_ref_for roots v)
  unfolding rewrite_file_refs
  rewrite_file_refs-HasPathFreeValues [] v = HasPathFreeValues-any file_ref_for [] law v
  rewrite_file_refs-HasPathFreeValues (r ∷ rs) v =
      rewrite_value-HasPathFreeValues file_ref_for (r ∷ rs) v

  module _ (decode : Text → Option Fields) (marshal : JsonValue → Option Text)
      (roots : List FileRoot) where
    process_line-HasPathFreeValues :
        (l : Text) (line : Line) (rest : Dict JsonValue → Processed) (meta : Dict JsonValue)
        → ((m : Dict JsonValue) → All (HasPathFreeValues file_ref_for roots) (rest m).records)
        → All
            (HasPathFreeValues file_ref_for roots)
            (process_line decode marshal file_ref_for roots l line rest meta).records
    process_line-HasPathFreeValues l blank rest meta h = h meta
    process_line-HasPathFreeValues l raw rest meta h = h meta
    process_line-HasPathFreeValues l (metadata k v) rest meta h = h (insert k v meta)
    process_line-HasPathFreeValues l (entry obj) rest meta h =
        (rewrite_file_refs-HasPathFreeValues roots (object obj), h meta)

    process_lines-HasPathFreeValues :
        (ls : List Text) (meta : Dict JsonValue)
        → All
            (HasPathFreeValues file_ref_for roots)
            (process_lines decode marshal file_ref_for roots ls meta).records
    unfolding process_lines
    process_lines-HasPathFreeValues [] meta = tt
    process_lines-HasPathFreeValues (l ∷ ls) meta =
        process_line-HasPathFreeValues l (classify decode l) _ meta
          (process_lines-HasPathFreeValues ls)

    -- If no path is under a root where there are no roots: however the child ended, the result of a
    -- call has structured content, and no string that is a value in its records, in an object or an
    -- array at any depth, is a path under one of the roots; of the keys of objects it says nothing.
    pub translate-HasPathFreeValues :
        (r : RunResult)
        → (c : StructuredContent) × ((translate decode marshal file_ref_for roots r).structured
            ≡ some c)
          × All (HasPathFreeValues file_ref_for roots) c.records
    unfolding translate process_stdout
    translate-HasPathFreeValues r =
        let records = process_lines-HasPathFreeValues (split r.stdout 10) [] in
        let p = process_stdout decode marshal file_ref_for roots r.stdout in
        elim (Bool-cases (is_zero r.exit_code)) [
          | inl zero ↦
              (record { records = p.records; meta = p.meta; error = none }, rw (zero) refl, records)
          | inr failed ↦ (
            record { records = p.records; meta = p.meta; error = parse_error decode r.stderr },
            rw (failed) refl,
            records,
          )
        ]
