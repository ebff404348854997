-- ===== src/ValueSegment.antt =====
-- `storage/value_segment.cpp`: a segment that stores its values in a vector, with a second vector
-- of null flags if the column is nullable.
pub mod Invariant
pub mod Reads
use dyod_so_se.Outcome.{
  Outcome, ok, throw, undefined, ◌>>=◌, ◌>>◌, Build, debug_assert, subscript, at, out_of_bounds,
  null_at_offset, null_in_non_nullable, could_not_cast, not_nullable,
}
use dyod_so_se.Prelude.{
  ℕ, ◌^◌, ◌%◌, Bool, true, false, List, [], ◌∷◌, ◌++◌, Option, none, some, if◌then◌else◌, length,
  ltb,
}
use dyod_so_se.Scalar.{Scalar}
use dyod_so_se.Types.{
  Platform, DataType, Variant, Value, scalar, null, to_variant, variant_is_null, type_cast?,
}

pub record ValueSegment (T : Type 0) : Type 0 where
  pub values : List T
  pub null_values : Option (List Bool)

module _ {T : Type 0} where
  -- the constructor
  unfoldable pub new : Bool → ValueSegment T
  new nullable = record { values = []; null_values = if nullable then some [] else none }

  -- `size`, a `uint32_t`
  unfoldable pub size : ValueSegment T → ℕ
  size s = length s.values % 2 ^ 32

  unfoldable pub is_nullable : ValueSegment T → Bool
  is_nullable s = elim s.null_values [ none ↦ false | some _ ↦ true ]

  unfoldable pub get_null_values : ValueSegment T → Outcome (List Bool)
  get_null_values s = elim s.null_values [ none ↦ throw not_nullable | some flags ↦ ok flags ]

  module _ (build : Build) where
    -- `is_nullable() && (*_null_values)[chunk_offset]`
    unfoldable pub is_null : ValueSegment T → ℕ → Outcome Bool
    unfolding size
    is_null s i = do
      debug_assert build (ltb i (size s)) out_of_bounds
      elim s.null_values [ none ↦ ok false | some flags ↦ subscript flags i ]

    unfoldable pub get : ValueSegment T → ℕ → Outcome T
    unfolding size is_null
    get s i = do
      debug_assert build (ltb i (size s)) out_of_bounds
      b ← is_null s i
      if b then throw null_at_offset else subscript s.values i

    unfoldable pub get_typed_value : ValueSegment T → ℕ → Outcome (Option T)
    unfolding size is_null
    get_typed_value s i = do
      debug_assert build (ltb i (size s)) out_of_bounds
      b ← is_null s i
      if b then ok none else subscript s.values i >>= (λ v. ok (some v))

module _ (P : Platform) (d : DataType) where
  -- `operator[]`
  unfoldable pub element : Build → ValueSegment (Value P d) → ℕ → Outcome (Variant P)
  unfolding size is_null
  element build s i = do
    debug_assert build (ltb i (size s)) out_of_bounds
    b ← is_null build s i
    if b then ok null else at s.values i >>= (λ v. ok (to_variant P d v))

  -- `append`; where it throws, the segment is as it was
  unfoldable pub append : Variant P → ValueSegment (Value P d) → Outcome (ValueSegment (Value P d))
  append value s =
      if variant_is_null P value
      then elim s.null_values [
        | none ↦ throw null_in_non_nullable
        | some flags ↦ ok (record {
          values = s.values ++ (scalar P d).default_value ∷ [];
          null_values = some (flags ++ true ∷ []);
        })
      ]
      else elim (type_cast? P d value) [
        | none ↦ throw could_not_cast
        | some v ↦ ok (record {
          values = s.values ++ v ∷ [];
          null_values = elim s.null_values [
            | none ↦ none
            | some flags ↦ some (flags ++ false ∷ [])
          ];
        })
      ]
