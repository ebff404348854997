-- ===== src/DictionarySegment.antt =====
-- `storage/dictionary_segment.cpp`: a sorted vector of distinct values, and for each row the index
-- of its value. A null row has the first index past the dictionary.
pub mod Invariant
pub mod Rows
pub mod Widths
pub mod Flags
pub mod Dictionary
pub mod ValueIds
pub mod RoundTrip
pub mod Reads
pub mod Bounds
pub mod NullBug
use dyod_so_se.Algorithm.{
  sort, unique, lower_bound, upper_bound, Inverted, invert, get_or_insert, contains_true,
}
use dyod_so_se.AttributeVector
use dyod_so_se.AttributeVector.{AttributeVector, Width, uint8, uint16, uint32}
use dyod_so_se.Outcome.{
  Outcome, ok, throw, undefined, ◌>>=◌, ◌>>◌, Build, assert, debug_assert, subscript, deref,
  not_a_value_segment, distinct_exceeds_count, too_many_values, duplicate_in_dictionary,
  value_is_null, value_id_is_null,
}
use dyod_so_se.Prelude.{
  ℕ, suc, ◌+◌, ◌-◌, ◌*◌, ◌^◌, ◌%◌, Bool, true, false, not, ◌||◌, List, [], ◌∷◌, Option, none, some,
  if◌then◌else◌, length, ltb, leb, ◌==◌,
}
use dyod_so_se.Scalar.{Scalar}
use dyod_so_se.Types.{
  Platform, DataType, Variant, Value, scalar, to_variant, variant_is_null, type_cast,
  invalid_value_id,
}
use dyod_so_se.ValueSegment
use dyod_so_se.ValueSegment.{ValueSegment}

pub record DictionarySegment (T : Type 0) : Type 0 where
  pub dictionary : List T
  pub attribute_vector : AttributeVector

-- `distinct_values_count - 1`, which wraps for 0
abbrev pub pred64 : ℕ → ℕ
pred64 n = (n + (2 ^ 64 - 1)) % 2 ^ 64

-- the width that `initialize_attributes_vector` takes
unfoldable pub chosen_width : ℕ → Option Width
chosen_width distinct =
    if leb (pred64 distinct) (2 ^ 8 - 1) || distinct == 0
    then some uint8
    else if leb (pred64 distinct) (2 ^ 16 - 1)
    then some uint16
    else if leb (pred64 distinct) (2 ^ 32 - 1)
    then some uint32
    else none

unfoldable pub initialize_attributes_vector : Build → ℕ → ℕ → Outcome AttributeVector
unfolding chosen_width
initialize_attributes_vector build distinct count = do
  debug_assert build (leb distinct count) distinct_exceeds_count
  elim (chosen_width distinct) [
    | none ↦ throw too_many_values
    | some w ↦ ok (AttributeVector.new w count)
  ]

module _ {T : Type 0} where
  -- `values.erase(values.begin())`
  abbrev pub erase_first : List T → Outcome (List T)
  erase_first [] = undefined
  erase_first (x ∷ xs) = ok xs

  -- `size`, a `uint32_t`
  unfoldable pub size : DictionarySegment T → ℕ
  size ds = AttributeVector.size ds.attribute_vector % 2 ^ 32

  unfoldable pub unique_values_count : DictionarySegment T → ℕ
  unique_values_count ds = length ds.dictionary % 2 ^ 32

  -- `estimate_memory_usage`, a `size_t`, where a `T` takes `size_of_value` bytes
  unfoldable pub estimate_memory_usage : ℕ → DictionarySegment T → ℕ
  estimate_memory_usage size_of_value ds =
      (length ds.dictionary * size_of_value
        + AttributeVector.size ds.attribute_vector * AttributeVector.width ds.attribute_vector)
      % 2 ^ 64

  unfoldable pub null_value_id : DictionarySegment T → ℕ
  null_value_id ds = length ds.dictionary % 2 ^ 32

  -- the lambda `is_null` of `fill_attributes_vector`
  unfoldable pub flag_at : ValueSegment T → ℕ → Outcome Bool
  flag_at s i = elim s.null_values [ none ↦ ok false | some flags ↦ subscript flags i ]

  module _ (build : Build) where
    unfoldable pub decompress : DictionarySegment T → ℕ → Outcome T
    decompress ds i = AttributeVector.get build ds.attribute_vector i >>= subscript ds.dictionary

    unfoldable pub get : DictionarySegment T → ℕ → Outcome T
    unfolding decompress null_value_id
    get ds i = do
      id ← AttributeVector.get build ds.attribute_vector i
      assert (not (id == null_value_id ds)) value_is_null
      decompress ds i

    unfoldable pub get_typed_value : DictionarySegment T → ℕ → Outcome (Option T)
    unfolding decompress null_value_id
    get_typed_value ds i = do
      id ← AttributeVector.get build ds.attribute_vector i
      if id == null_value_id ds then ok none else decompress ds i >>= (λ v. ok (some v))

    unfoldable pub value_of_value_id : DictionarySegment T → ℕ → Outcome T
    unfolding null_value_id
    value_of_value_id ds id = do
      debug_assert build (not (id == null_value_id ds)) value_id_is_null
      subscript ds.dictionary id

module _ {T : Type 0} (o : Scalar T) where
  -- the dictionary, and the number of distinct values with the one that stands for null
  unfoldable pub fill_dictionary : ValueSegment T → Outcome (List T × ℕ)
  fill_dictionary s =
      let values = unique o (sort o s.values) in
      let kept : Outcome (List T) = elim s.null_values [
        | none ↦ ok values
        | some flags ↦ if contains_true flags then erase_first values else ok values
      ] in
      kept >>= (λ dictionary. ok (dictionary, length values))

  -- the loop over the rows, from row `i` on
  unfoldable pub fill_rows :
      Build
      → (ℕ → Outcome Bool)
      → ℕ
      → ℕ
      → List T
      → Inverted o
      → AttributeVector
      → Outcome AttributeVector
  fill_rows build is_null null_id i [] inverted av = ok av
  fill_rows build is_null null_id i (v ∷ vs) inverted av = do
    b ← is_null i
    let entry = get_or_insert o v inverted
    let id = if b then null_id else entry.0
    let inverted' = if b then inverted else entry.1
    av' ← AttributeVector.set_id build av i id
    fill_rows build is_null null_id (suc i) vs inverted' av'

  unfoldable pub fill_attributes_vector :
      Build → List T → ValueSegment T → AttributeVector → Outcome AttributeVector
  unfolding fill_rows flag_at
  fill_attributes_vector build dictionary s av = do
    let inverted = invert o 0 dictionary []
    debug_assert build (length inverted == length dictionary) duplicate_in_dictionary
    fill_rows build (flag_at s) (length dictionary % 2 ^ 32) 0 s.values inverted av

  -- the constructor, from the result of its `dynamic_pointer_cast`
  unfoldable pub new : Build → Option (ValueSegment T) → Outcome (DictionarySegment T)
  unfolding fill_dictionary
  new build value_segment = do
    debug_assert build (elim value_segment [ none ↦ false | some _ ↦ true ]) not_a_value_segment
    s ← deref value_segment
    (dictionary, distinct) ← fill_dictionary s
    av ← initialize_attributes_vector build distinct (ValueSegment.size s)
    av' ← fill_attributes_vector build dictionary s av
    ok (record { dictionary = dictionary; attribute_vector = av' })

  unfoldable pub lower_bound_id : DictionarySegment T → T → ℕ
  lower_bound_id ds v =
      let i = lower_bound o ds.dictionary v in
      if i == length ds.dictionary then invalid_value_id else i % 2 ^ 32

  unfoldable pub upper_bound_id : DictionarySegment T → T → ℕ
  upper_bound_id ds v =
      let i = upper_bound o ds.dictionary v in
      if i == length ds.dictionary then invalid_value_id else i % 2 ^ 32

module _ (P : Platform) (d : DataType) where
  -- `operator[]`
  unfoldable pub element : Build → DictionarySegment (Value P d) → ℕ → Outcome (Variant P)
  unfolding decompress
  element build ds i = decompress build ds i >>= (λ v. ok (to_variant P d v))

  -- the overloads for variants
  unfoldable pub lower_bound_variant : DictionarySegment (Value P d) → Variant P → Outcome ℕ
  unfolding lower_bound_id type_cast
  lower_bound_variant ds v =
      if variant_is_null P v
      then ok invalid_value_id
      else type_cast P d v >>= (λ x. ok (lower_bound_id (scalar P d) ds x))

  unfoldable pub upper_bound_variant : DictionarySegment (Value P d) → Variant P → Outcome ℕ
  unfolding upper_bound_id type_cast
  upper_bound_variant ds v =
      if variant_is_null P v
      then ok invalid_value_id
      else type_cast P d v >>= (λ x. ok (upper_bound_id (scalar P d) ds x))
