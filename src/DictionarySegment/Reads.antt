-- ===== src/DictionarySegment/Reads.antt =====
-- What the accessors of a dictionary segment return, by the row that they read.
use dyod_so_se.AttributeVector
use dyod_so_se.AttributeVector.Laws.{get_in_range}
use dyod_so_se.DictionarySegment.Invariant.{decoded, IsDictionary}
use dyod_so_se.DictionarySegment.{
  DictionarySegment, null_value_id, decompress, get, get_typed_value, element,
}
use dyod_so_se.Outcome.{ok, throw, undefined, Build, value_is_null}
use dyod_so_se.Prelude.{
  ℕ, zero, suc, ◌<◌, ◌≤◌, ◌≡◌, inl, inr, refl, List, [], ◌∷◌, Option, none, some, map, length, All,
  arith, get_elem?, get_elem?-lt, get_elem?-ge, Bool-cases, ◌==◌, ==_iff,
}
use mathlib.Core.Path.{subst}
use dyod_so_se.Scalar.{Scalar}
use dyod_so_se.Types.{Platform, DataType, Value, scalar, to_variant}
use dyod_so_se.ValueSegment.Reads.{get_elem?-below}

pub get_elem?-map {ℓ κ} :
    {A : Type ℓ} {B : Type κ} (f : A → B) (xs : List A) (i : ℕ) (b : B)
    → get_elem? (map f xs) i ≡ some b
    → (a : A) × (get_elem? xs i ≡ some a) × (f a ≡ b)
get_elem?-map f [] i b e = cc
get_elem?-map f (x ∷ xs) zero b e = (x, refl, cc)
get_elem?-map f (x ∷ xs) (suc i) b e = get_elem?-map f xs i b e

pub All-get_elem? {ℓ κ} :
    {A : Type ℓ} (P : A → Type κ) (xs : List A) (i : ℕ) (a : A)
    → All P xs
    → get_elem? xs i ≡ some a
    → P a
All-get_elem? P [] i a h e = cc
All-get_elem? P (x ∷ xs) zero a h e = subst P (cc) h.0
All-get_elem? P (x ∷ xs) (suc i) a h e = All-get_elem? P xs i a h.1 e

module _ {T : Type 0} (o : Scalar T) (ds : DictionarySegment T) (v : IsDictionary o ds) where
  pub null_id : null_value_id ds ≡ length ds.dictionary
  unfolding null_value_id
  null_id = omega (arith, v.small)

  -- the id of a row, and what it decodes to
  abbrev pub Coded : ℕ → Option T → Type 0
  Coded id none = id ≡ length ds.dictionary
  Coded id (some x) = (id < length ds.dictionary) × (get_elem? ds.dictionary id ≡ some x)

  pub coded :
      (id : ℕ) (c : Option T)
      → id ≤ length ds.dictionary
      → get_elem? ds.dictionary id ≡ c
      → Coded id c
  coded id none le e = elim (Bool-cases (id == length ds.dictionary)) [
    | inl same ↦ (==_iff _ _).0 same
    | inr ne ↦ let (x, there) = get_elem?-lt ds.dictionary id (ground arith) in cc
  ]
  coded id (some x) le e = (get_elem?-below ds.dictionary id x e, e)

  module _ (build : Build) (i : ℕ) (c : Option T) (row : get_elem? (decoded ds) i ≡ some c) where
    pub row_id : (id : ℕ) × (AttributeVector.get build ds.attribute_vector i ≡ ok id) × Coded id c
    row_id =
        let ids = ds.attribute_vector.ids in
        let (id, there, e) = get_elem?-map (get_elem? ds.dictionary) ids i c row in
        (
          id,
          get_in_range build ds.attribute_vector i id (get_elem?-below ids i id there) there,
          coded id c (All-get_elem? (λ k. k ≤ length ds.dictionary) ids i id v.in_range there) e,
        )

  module _ (build : Build) (i : ℕ) where
    -- At an offset within a well-formed dictionary segment, `get_typed_value` returns the row,
    -- which is `nullopt` where it is null.
    pub get_typed_value-decoded :
        (c : Option T) → get_elem? (decoded ds) i ≡ some c → get_typed_value build ds i ≡ ok c
    unfolding get_typed_value
    get_typed_value-decoded none row =
        let (id, read, e) = row_id build i none row in ground (arith, read, e, null_id)
    get_typed_value-decoded (some x) row =
        let (id, read, e) = row_id build i (some x) row in ground (arith, read, e, null_id)

    -- At an offset within a well-formed dictionary segment, `get` returns the value of a row that
    -- is not null, and throws at a row that is null.
    pub get-decoded :
        (c : Option T)
        → get_elem? (decoded ds) i ≡ some c
        → get build ds i ≡ elim c [ none ↦ throw value_is_null | some x ↦ ok x ]
    unfolding get
    get-decoded none row =
        let (id, read, e) = row_id build i none row in ground (arith, read, e, null_id)
    get-decoded (some x) row =
        let (id, read, e) = row_id build i (some x) row in ground (arith, read, e, null_id)

    -- `decompress` reads past the dictionary at a null row
    pub decompress-decoded :
        (c : Option T)
        → get_elem? (decoded ds) i ≡ some c
        → decompress build ds i ≡ elim c [ none ↦ undefined | some x ↦ ok x ]
    unfolding decompress
    decompress-decoded none row =
        let (id, read, e) = row_id build i none row in
        let past : get_elem? ds.dictionary id ≡ none =
          get_elem?-ge ds.dictionary id (omega (arith, e)) in
        ground (arith, read, past)
    decompress-decoded (some x) row =
        let (id, read, e) = row_id build i (some x) row in ground (arith, read, e)

module _ (P : Platform) (d : DataType) (ds : DictionarySegment (Value P d))
    (v : IsDictionary (scalar P d) ds) (build : Build) (i : ℕ) where
  -- At an offset within a well-formed dictionary segment, `operator[]` returns the value of a row
  -- that is not null, and reads past the end of the dictionary at a row that is null.
  pub element-decoded :
      (c : Option (Value P d))
      → get_elem? (decoded ds) i ≡ some c
      → element P d build ds i ≡ elim c [ none ↦ undefined | some x ↦ ok (to_variant P d x) ]
  unfolding element
  element-decoded none row = rw (decompress-decoded (scalar P d) ds v build i none row)
  element-decoded (some x) row = rw (decompress-decoded (scalar P d) ds v build i (some x) row)

  -- At an offset within a well-formed dictionary segment, `get_typed_value` returns the row, which
  -- is `nullopt` where it is null, `get` returns the value of a row that is not null and throws at
  -- a null row, and `operator[]` returns the value of a row that is not null and reads past the end
  -- of the dictionary at a null row.
  pub reads-decoded :
      (c : Option (Value P d))
      → get_elem? (decoded ds) i ≡ some c
      → (get_typed_value build ds i ≡ ok c)
        × (get build ds i ≡ elim c [ none ↦ throw value_is_null | some x ↦ ok x ])
        × (element P d build ds i ≡ elim c [ none ↦ undefined | some x ↦ ok (to_variant P d x) ])
  reads-decoded c row = (
    get_typed_value-decoded (scalar P d) ds v build i c row,
    get-decoded (scalar P d) ds v build i c row,
    element-decoded c row,
  )
