-- ===== src/ValueSegment/Reads.antt =====
-- What the accessors of a value segment return, by the row that they read.
use dyod_so_se.Outcome.{ok, throw, Build, debug_assert, subscript, null_at_offset, out_of_bounds}
use dyod_so_se.Outcome.Laws.{debug_assert-true}
use dyod_so_se.Prelude.{
  ℕ, zero, suc, ◌^◌, ◌%◌, ◌<◌, ◌≡◌, refl, Bool, true, false, List, [], ◌∷◌, Option, none, some, map,
  if◌then◌else◌, length, arith, get_elem?, ltb, lt→ltb,
}
use dyod_so_se.Scalar.{Scalar}
use dyod_so_se.Types.{Platform, DataType, Variant, Value, scalar, null, to_variant}
use dyod_so_se.ValueSegment.Invariant.{
  mask, cells_of, cells, IsMasked, FlagsFit, IsValid, length-cells,
}
use dyod_so_se.ValueSegment.{ValueSegment, size, is_null, get, get_typed_value, element}

-- a row that is there lies below the size
pub get_elem?-below {ℓ} :
    {A : Type ℓ} (xs : List A) (i : ℕ) (a : A) → get_elem? xs i ≡ some a → i < length xs
get_elem?-below [] i a e = cc
get_elem?-below (x ∷ xs) zero a e = omega arith
get_elem?-below (x ∷ xs) (suc i) a e = omega (arith, get_elem?-below xs i a e)

module _ {T : Type 0} where
  -- the flag and the value that a row is made of
  abbrev Parts : Option (List Bool) → List T → ℕ → Option T → Type 0
  Parts flags vs i c =
      (b : Bool) × (v : T) × (elim flags [ none ↦ ok false | some fs ↦ subscript fs i ] ≡ ok b)
      × (get_elem? vs i ≡ some v)
      × (c ≡ (if b then none else some v))

  parts_of_mask :
      (z : T) (bs : List Bool) (vs : List T) (i : ℕ) (c : Option T)
      → IsMasked z bs vs
      → get_elem? (mask bs vs) i ≡ some c
      → Parts (some bs) vs i c
  parts_of_mask z [] [] i c m e = cc
  parts_of_mask z [] (v ∷ vs) i c m e = absurd m
  parts_of_mask z (b ∷ bs) [] i c m e = absurd m
  parts_of_mask z (b ∷ bs) (v ∷ vs) zero c m e = (b, v, refl, refl, cc)
  parts_of_mask z (b ∷ bs) (v ∷ vs) (suc i) c m e = parts_of_mask z bs vs i c m.1 e

  parts_of_map :
      (vs : List T) (i : ℕ) (c : Option T) → get_elem? (map some vs) i ≡ some c → Parts none vs i c
  parts_of_map [] i c e = cc
  parts_of_map (v ∷ vs) zero c e = (false, v, refl, refl, cc)
  parts_of_map (v ∷ vs) (suc i) c e = parts_of_map vs i c e

  parts :
      (z : T) (flags : Option (List Bool)) (vs : List T) (i : ℕ) (c : Option T)
      → FlagsFit z flags vs
      → get_elem? (cells_of flags vs) i ≡ some c
      → Parts flags vs i c
  parts z none vs i c f e = parts_of_map vs i c e
  parts z (some fs) vs i c f e = parts_of_mask z fs vs i c f e

  module _ (o : Scalar T) (build : Build) (s : ValueSegment T) (valid : IsValid o s)
      (small : length s.values < 2 ^ 32) (i : ℕ) (c : Option T)
      (row : get_elem? (cells s) i ≡ some c) where
    in_bounds : debug_assert build (ltb i (size s)) out_of_bounds ≡ ok tt
    unfolding size
    in_bounds =
        let below : i < length s.values % 2 ^ 32 =
          omega (arith, get_elem?-below (cells s) i c row, length-cells o s valid) in
        debug_assert-true build _ out_of_bounds (lt→ltb _ _ below)

    abbrev parts_here : Parts s.null_values s.values i c
    parts_here = parts o.default_value s.null_values s.values i c valid row

    pub is_null-row : is_null build s i ≡ ok (elim c [ none ↦ true | some _ ↦ false ])
    unfolding is_null
    is_null-row = let (b, v, flag, value, e) = parts_here in ground (arith, in_bounds, flag, e)

    -- At an offset within a valid value segment of fewer than 2 ^ 32 values, `get_typed_value`
    -- returns the row, which is `nullopt` where it is null.
    pub get_typed_value-row : get_typed_value build s i ≡ ok c
    unfolding get_typed_value
    get_typed_value-row =
        let (b, v, flag, value, e) = parts_here in ground (arith, in_bounds, flag, value, e)

    -- At an offset within a valid value segment of fewer than 2 ^ 32 values, `get` returns the
    -- value of a row that is not null, and throws at a row that is null.
    pub get-row : get build s i ≡ elim c [ none ↦ throw null_at_offset | some v ↦ ok v ]
    unfolding get
    get-row = let (b, v, flag, value, e) = parts_here in ground (arith, in_bounds, flag, value, e)

module _ {T : Type 0} (o : Scalar T) where
  pub value-row :
      (s : ValueSegment T) (i : ℕ) (v : T)
      → IsValid o s
      → get_elem? (cells s) i ≡ some (some v)
      → get_elem? s.values i ≡ some v
  value-row s i v valid row =
      let (b, x, flag, value, e) =
        parts o.default_value s.null_values s.values i (some v) valid row in
      ground (arith, value, e)

module _ (P : Platform) (d : DataType) where
  -- a row as a variant
  abbrev pub as_variant : Option (Value P d) → Variant P
  as_variant none = null
  as_variant (some v) = to_variant P d v

  -- At an offset within a valid value segment of fewer than 2 ^ 32 values, `operator[]` returns the
  -- row as a variant, which is null where the row is null.
  pub element-row :
      (build : Build) (s : ValueSegment (Value P d))
      → IsValid (scalar P d) s
      → length s.values < 2 ^ 32
      → (i : ℕ) (c : Option (Value P d)) → get_elem? (cells s) i ≡ some c
      → element P d build s i ≡ ok (as_variant c)
  unfolding element
  element-row build s valid small i c row =
      let (b, v, flag, value, e) = parts_here (scalar P d) build s valid small i c row in
      ground (arith, in_bounds (scalar P d) build s valid small i c row, flag, value, e)

  -- At an offset within a valid value segment of fewer than 2 ^ 32 values, `get_typed_value`
  -- returns the row, which is `nullopt` where it is null, `get` returns the value of a row that is
  -- not null and throws at a null row, and `operator[]` returns the row as a variant, which is null
  -- where the row is null.
  pub reads-row :
      (build : Build) (s : ValueSegment (Value P d))
      → IsValid (scalar P d) s
      → length s.values < 2 ^ 32
      → (i : ℕ) (c : Option (Value P d)) → get_elem? (cells s) i ≡ some c
      → (get_typed_value build s i ≡ ok c)
        × (get build s i ≡ elim c [ none ↦ throw null_at_offset | some v ↦ ok v ])
        × (element P d build s i ≡ ok (as_variant c))
  reads-row build s valid small i c row = (
    get_typed_value-row (scalar P d) build s valid small i c row,
    get-row (scalar P d) build s valid small i c row,
    element-row build s valid small i c row,
  )
