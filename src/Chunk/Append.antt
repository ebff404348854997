-- ===== src/Chunk/Append.antt =====
-- `Chunk::append` on a chunk of value segments.
use dyod_so_se.Chunk.{Chunk, append_with_type, append_columns, column_count}
use dyod_so_se.Chunk
use dyod_so_se.Outcome.Laws.{debug_assert-true}
use dyod_so_se.Outcome.{ok, throw, Build, Error, could_not_cast, null_in_non_nullable, tuple_width}
use dyod_so_se.Prelude.{
  ◌^◌, ◌%◌, ◌<◌, ◌≡◌, inl, inr, refl, List, [], ◌∷◌, ◌++◌, Option, none, some, length, arith, ◌==◌,
  true,
}
use dyod_so_se.Segment.{Segment, value_segment}
use dyod_so_se.Types.{Platform, DataType, Variant, Value, scalar}
use dyod_so_se.ValueSegment.Invariant.{accepted, Appended, append-Appends, IsValid}
use dyod_so_se.ValueSegment.{ValueSegment, is_nullable}

-- Valid value segments, each of which accepts its value of the row
pub data TakesRow {P : Platform} : List (Variant P) → List (Segment P) → Type 0 where
  no_column : TakesRow [] []
  takes :
      {v : Variant P} {vs : List (Variant P)} {ss : List (Segment P)} (d : DataType)
      (s : ValueSegment (Value P d)) (c : Option (Value P d))
      → IsValid (scalar P d) s
      → accepted P d (is_nullable s) v ≡ some c
      → TakesRow vs ss
      → TakesRow (v ∷ vs) (value_segment d s ∷ ss)

-- The segments before and after a row is added: each is valid and has one row more, for its value
pub data RowAdded {P : Platform}
    : List (Variant P) → List (Segment P) → List (Segment P) → Type 0 where
  no_column : RowAdded [] [] []
  added :
      {v : Variant P} {vs : List (Variant P)} {ss ss' : List (Segment P)} (d : DataType)
      (s s' : ValueSegment (Value P d)) (c : Option (Value P d))
      → accepted P d (is_nullable s) v ≡ some c
      → Appended P d s c s'
      → RowAdded vs ss ss'
      → RowAdded (v ∷ vs) (value_segment d s ∷ ss) (value_segment d s' ∷ ss')

module _ {P : Platform} where
  append_value :
      (d : DataType) (s : ValueSegment (Value P d)) (v : Variant P) (c : Option (Value P d))
      → IsValid (scalar P d) s
      → accepted P d (is_nullable s) v ≡ some c
      → (s' : ValueSegment (Value P d)) × (append_with_type {P = P} v (value_segment d s)
          ≡ ok (value_segment d s'))
        × Appended P d s c s'
  unfolding append_with_type
  append_value d s v c valid fits =
      let (s', run, appended) = rw fits at (append-Appends P d v s valid) in (s', rw run, appended)

  append_columns-RowAdded :
      {vs : List (Variant P)} {ss : List (Segment P)}
      → TakesRow vs ss
      → (ss' : List (Segment P)) × (append_columns vs ss ≡ (ok tt, ss')) × RowAdded vs ss ss'
  unfolding append_columns
  append_columns-RowAdded no_column = ([], refl, no_column)
  append_columns-RowAdded {vs = v ∷ vs} (takes d s c valid e more) =
      let (ss', rest, tail) = append_columns-RowAdded more in
      let (s', run, head) = append_value d s v c valid e in
      (value_segment d s' ∷ ss', rw (run, append_columns, rest), added d s s' c e head tail)

  length-TakesRow :
      {vs : List (Variant P)} {ss : List (Segment P)} → TakesRow vs ss → length vs ≡ length ss
  length-TakesRow no_column = refl
  length-TakesRow (takes d s c valid e more) = omega (arith, length-TakesRow more)

  -- On a chunk of fewer than 2 ^ 16 valid value segments, each of which accepts its value, `append`
  -- succeeds and adds one row to each segment, for its value, and keeps it valid.
  pub append-RowAdded :
      (build : Build) (vs : List (Variant P)) (c : Chunk P)
      → TakesRow vs c.columns
      → length c.columns < 2 ^ 16
      → (ss' : List (Segment P)) × (Chunk.append build vs c ≡ (ok tt, record { columns = ss' }))
        × RowAdded vs c.columns ss'
  unfolding Chunk.append column_count
  append-RowAdded build vs c takes_row small =
      let (ss', run, grown) = append_columns-RowAdded takes_row in
      let same : (length vs == length c.columns % 2 ^ 16) ≡ true =
        ground (arith, length-TakesRow takes_row) in
      (ss', rw (debug_assert-true build _ tuple_width same, Chunk.append, run), grown)

  append_columns-partial :
      {vs : List (Variant P)} {ss : List (Segment P)} (v : Variant P) (ws : List (Variant P))
      (d : DataType) (s : ValueSegment (Value P d)) (ts : List (Segment P))
      → TakesRow vs ss
      → IsValid (scalar P d) s
      → accepted P d (is_nullable s) v ≡ none
      → (ss' : List (Segment P)) × (e : Error) × (append_columns
            (vs ++ v ∷ ws)
            (ss ++ value_segment d s ∷ ts)
          ≡ (throw e, ss' ++ value_segment d s ∷ ts))
        × RowAdded vs ss ss'
  unfolding append_columns append_with_type
  append_columns-partial v ws d s ts no_column valid refuses =
      elim (rw refuses at (append-Appends P d v s valid)) [
        | inl e ↦ ([], null_in_non_nullable, rw (e, append_columns, append_with_type), no_column)
        | inr e ↦ ([], could_not_cast, rw (e, append_columns, append_with_type), no_column)
      ]
  append_columns-partial {vs = u ∷ us} v ws d s ts (takes k z c fits e more) valid refuses =
      let (ss', error, rest, tail) = append_columns-partial v ws d s ts more valid refuses in
      let (z', run, head) = append_value k z u c fits e in
      (value_segment k z' ∷ ss', error, rw (run, append_columns, rest), added k z z' c e head tail)

  -- Where a row has as many values as a chunk has columns, fewer than 2 ^ 16, and its columns are
  -- value segments that accept their values up to a valid one that accepts none, `append` throws,
  -- and the columns before that one keep the values that they took, one row each, while the others
  -- are unchanged.
  pub append-partial :
      (build : Build) {vs : List (Variant P)} {ss : List (Segment P)} (v : Variant P)
      (ws : List (Variant P)) (d : DataType) (s : ValueSegment (Value P d)) (ts : List (Segment P))
      → TakesRow vs ss
      → IsValid (scalar P d) s
      → accepted P d (is_nullable s) v ≡ none
      → length (vs ++ v ∷ ws) ≡ length (ss ++ value_segment d s ∷ ts)
      → length (vs ++ v ∷ ws) < 2 ^ 16
      → (ss' : List (Segment P)) × (e : Error) × (Chunk.append build
            (vs ++ v ∷ ws)
            (record { columns = ss ++ value_segment d s ∷ ts })
          ≡ (throw e, record { columns = ss' ++ value_segment d s ∷ ts }))
        × RowAdded vs ss ss'
  unfolding Chunk.append column_count
  append-partial build {vs} {ss} v ws d s ts fits valid refuses equal small =
      let (ss', e, run, grown) = append_columns-partial v ws d s ts fits valid refuses in
      let same : (length (vs ++ v ∷ ws) == length (ss ++ value_segment d s ∷ ts) % 2 ^ 16) ≡ true =
        ground (arith, equal, small) in
      (ss', e, rw (debug_assert-true build _ tuple_width same, Chunk.append, run), grown)
