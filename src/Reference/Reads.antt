-- ===== src/Reference/Reads.antt =====
-- What a row of a reference segment reads.
use dyod_so_se.DictionarySegment.Invariant.{decoded, IsDictionary}
use dyod_so_se.DictionarySegment.Reads.{element-decoded}
use dyod_so_se.DictionarySegment.{DictionarySegment}
use dyod_so_se.DictionarySegment
use dyod_so_se.AttributeVector
use dyod_so_se.Outcome.Laws.{debug_assert-true}
use dyod_so_se.Outcome.{ok, throw, ◌>>=◌, Build, row_id_out_of_bounds, vector_out_of_range}
use dyod_so_se.Prelude.{
  ℕ, suc, ◌^◌, ◌%◌, ◌<◌, ◌≤◌, ◌≡◌, true, false, Option, some, length, arith, get_elem?,
  get_elem?-ge, lt→ltb, length-map,
}
use dyod_so_se.Reference.{Store, target, reference_element, element}
use dyod_so_se.Segment.{
  ReferenceSegment, Segment, reference_segment, value_segment, dictionary_segment,
}
use dyod_so_se.Segment
use dyod_so_se.Types.{Platform, DataType, Value, scalar, to_variant, RowId, row_is_null, null}
use dyod_so_se.ValueSegment.Invariant.{cells, IsValid, length-cells}
use dyod_so_se.ValueSegment.Reads.{as_variant, element-row, get_elem?-below}
use dyod_so_se.ValueSegment.{ValueSegment}
use dyod_so_se.ValueSegment

module _ {P : Platform} (build : Build) (store : Store P) (depth : ℕ) (r : ReferenceSegment)
    (i : ℕ) where
  -- `operator[]` of a reference segment throws at an offset past its positions, and returns null at
  -- the null position.
  pub element-null :
      (length r.pos_list ≤ i
        → element build store (suc depth) (reference_segment r) i ≡ throw vector_out_of_range)
      × ((row : RowId)
          → get_elem? r.pos_list i ≡ some row
          → row_is_null row ≡ true
          → element build store (suc depth) (reference_segment r) i ≡ ok null)
  unfolding element reference_element
  element-null =
      (λ past. rw (get_elem?-ge r.pos_list i past), λ row there is_null. rw (there, ◌>>=◌, is_null))

  module _ (row : RowId) (there : get_elem? r.pos_list i ≡ some row)
      (not_null : row_is_null row ≡ false) (d : DataType) where
    -- Where the position at an offset is not null and names a row of a valid value segment of fewer
    -- than 2 ^ 32 values, `operator[]` of the reference segment returns the row as a variant.
    pub element-value_row :
        (s : ValueSegment (Value P d)) (c : Option (Value P d))
        → target build store r row ≡ ok (value_segment d s)
        → IsValid (scalar P d) s
        → length s.values < 2 ^ 32
        → get_elem? (cells s) row.chunk_offset ≡ some c
        → element build store (suc depth) (reference_segment r) i ≡ ok (as_variant P d c)
    unfolding element reference_element Segment.size ValueSegment.size
    element-value_row s c points valid small cell =
        let below : row.chunk_offset < length s.values % 2 ^ 32 = omega (
          arith,
          get_elem?-below (cells s) row.chunk_offset c cell,
          length-cells (scalar P d) s valid,
        ) in
        rw (
          there,
          ◌>>=◌,
          not_null,
          points,
          debug_assert-true build _ row_id_out_of_bounds (lt→ltb _ _ below),
          element-row P d build s valid small row.chunk_offset c cell,
        )

    -- Where the position at an offset is not null and names a row of a well-formed dictionary
    -- segment that is not null, `operator[]` of the reference segment returns its value.
    pub element-dictionary_row :
        (s : DictionarySegment (Value P d)) (x : Value P d)
        → target build store r row ≡ ok (dictionary_segment d s)
        → IsDictionary (scalar P d) s
        → get_elem? (decoded s) row.chunk_offset ≡ some (some x)
        → element build store (suc depth) (reference_segment r) i ≡ ok (to_variant P d x)
    unfolding element reference_element Segment.size DictionarySegment.size AttributeVector.size
    element-dictionary_row s x points w cell =
        let ids = s.attribute_vector.ids in
        let below : row.chunk_offset < length ids % 2 ^ 32 = omega (
          arith,
          get_elem?-below (decoded s) row.chunk_offset (some x) cell,
          length-map ids (get_elem? s.dictionary),
          w.rows,
        ) in
        rw (
          there,
          ◌>>=◌,
          not_null,
          points,
          debug_assert-true build _ row_id_out_of_bounds (lt→ltb _ _ below),
          element-decoded P d s w build row.chunk_offset (some x) cell,
        )
