-- ===== src/Chunk.antt =====
-- `storage/chunk.cpp`: a horizontal partition of a table, one segment for each column.
pub mod Append
use dyod_so_se.Outcome.{
  Outcome, ok, throw, undefined, ◌>>=◌, Build, debug_assert, subscript, tuple_width,
}
use dyod_so_se.Prelude.{ℕ, ◌^◌, ◌%◌, List, [], ◌∷◌, ◌++◌, length, ◌==◌}
use dyod_so_se.Segment
use dyod_so_se.Segment.{Segment, value_segment, dictionary_segment, reference_segment, null_pointer}
use dyod_so_se.Types.{Platform, Variant}
use dyod_so_se.ValueSegment

pub record Chunk (P : Platform) : Type 0 where
  pub columns : List (Segment P)

module _ {P : Platform} where
  abbrev pub empty : Chunk P
  empty = record { columns = [] }

  unfoldable pub add_segment : Segment P → Chunk P → Chunk P
  add_segment s c = record { columns = c.columns ++ s ∷ [] }

  -- `_columns[column_id]`
  unfoldable pub get_segment : Chunk P → ℕ → Outcome (Segment P)
  get_segment c column_id = subscript c.columns column_id

  -- a `ColumnCount`, which has 16 bits
  unfoldable pub column_count : Chunk P → ℕ
  column_count c = length c.columns % 2 ^ 16

  size_of_columns : List (Segment P) → Outcome ℕ
  unfolding Segment.size
  size_of_columns [] = ok 0
  size_of_columns (s ∷ _) = Segment.size s

  unfoldable pub size : Chunk P → Outcome ℕ
  unfolding size_of_columns
  size c = size_of_columns c.columns

  -- the five calls of `append_with_type`: only a value segment takes the value
  unfoldable pub append_with_type : Variant P → Segment P → Outcome (Segment P)
  unfolding ValueSegment.append
  append_with_type v (value_segment d s) = do
    s' ← ValueSegment.append P d v s
    ok (value_segment d s')
  append_with_type v (dictionary_segment d s) = ok (dictionary_segment d s)
  append_with_type v (reference_segment r) = ok (reference_segment r)
  append_with_type v null_pointer = ok null_pointer

  -- The loop over the columns. What a column has taken stays there when a later column throws.
  -- The iterator over the values must not pass their end.
  unfoldable pub append_columns :
      List (Variant P) → List (Segment P) → Outcome (Unit {0}) × List (Segment P)
  unfolding append_with_type
  append_columns vs [] = (ok tt, [])
  append_columns [] (s ∷ ss) = (undefined, s ∷ ss)
  append_columns (v ∷ vs) (s ∷ ss) =
      let rest = append_columns vs ss in
      elim (append_with_type v s) [
        | ok s' ↦ (rest.0, s' ∷ rest.1)
        | throw e ↦ (throw e, s ∷ ss)
        | undefined ↦ (undefined, s ∷ ss)
      ]

  unfoldable pub append : Build → List (Variant P) → Chunk P → Outcome (Unit {0}) × Chunk P
  unfolding append_columns column_count
  append build vs c = elim (debug_assert build (length vs == column_count c) tuple_width) [
    | ok _ ↦ let r = append_columns vs c.columns in (r.0, record { columns = r.1 })
    | throw e ↦ (throw e, c)
    | undefined ↦ (undefined, c)
  ]
