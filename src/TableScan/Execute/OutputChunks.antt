-- ===== src/TableScan/Execute/OutputChunks.antt =====
-- The chunks of the table that `Table::Table` makes from reference segments.
use dyod_so_se.Chunk
use dyod_so_se.Chunk.{Chunk}
use dyod_so_se.Outcome.{ok, ◌>>=◌}
use dyod_so_se.Prelude.Text.{Text}
use dyod_so_se.Prelude.{
  ℕ, zero, suc, ◌<◌, ◌≡◌, refl, ap, Bool, false, List, [], ◌∷◌, map, length, arith, some, get_elem?,
}
use dyod_so_se.Segment
use dyod_so_se.Segment.{Segment, ReferenceSegment, value_segment}
use dyod_so_se.Table
use dyod_so_se.Table.Append.{Spells}
use dyod_so_se.Table.Contents.{Row, Schema, Stores}
use dyod_so_se.Table.{Table, new_segments, reference_columns}
use dyod_so_se.TableScan.Execute.Kept.{IsShort}
use dyod_so_se.Table.Contents.Reads.{map-get_elem?}
use dyod_so_se.Types.{Platform}
use dyod_so_se.ValueSegment

module _ {P : Platform} where
  -- the empty output has a segment for each column
  pub new_segments-plain :
      (types : List Text) (nullable : List Bool) (i : ℕ) (schema : Schema)
      → Spells types nullable i schema
      → (ss : List (Segment P)) × (new_segments types (λ _. ok false) (length schema) i ≡ ok ss)
        × (length ss ≡ length schema)
  unfolding new_segments
  new_segments-plain types nullable i [] h = ([], refl, refl)
  new_segments-plain types nullable i ((d, b) ∷ schema) (type, there, known, null, more) =
      let (ss, others, count) = new_segments-plain types nullable (suc i) schema more in
      (
        value_segment d (ValueSegment.new false) ∷ ss,
        rw (there, ◌>>=◌, known, new_segments, others) refl,
        ap suc count,
      )

  pub columns_counted :
      (t : Table P) (schema : Schema) (rows : List (Row P))
      → Stores schema t rows
      → Table.column_count t ≡ length schema
  unfolding Table.column_count
  columns_counted t schema rows stored =
      omega (arith, stored.named.types, stored.complete, stored.narrow)

  -- a chunk of the output
  abbrev pub output_chunk : ℕ → ReferenceSegment → Chunk P
  output_chunk n r = record { columns = reference_columns r n 0 }

  -- the chunks of the output: an empty one where nothing is found
  abbrev pub OutputChunks : ℕ → List ReferenceSegment → List (Chunk P) → Type 0
  OutputChunks n [] cs =
      (c : Chunk P) × (cs ≡ c ∷ []) × (Chunk.size c ≡ ok 0) × (length c.columns ≡ n)
  OutputChunks n (r ∷ rs) cs = cs ≡ map (output_chunk n) (r ∷ rs)

  pub OutputChunks-there :
      (n : ℕ) (found : List ReferenceSegment) (cs : List (Chunk P))
      → OutputChunks n found cs
      → (j : ℕ) (r : ReferenceSegment) → get_elem? found j ≡ some r
      → get_elem? cs j ≡ some (output_chunk n r)
  OutputChunks-there n [] cs out j r at = cc
  OutputChunks-there n (q ∷ found) cs out j r at =
      rw out (map-get_elem? (output_chunk n) (q ∷ found) j r at)

  empty_chunk :
      (types : List Text) (nullable : List Bool) (schema : Schema)
      → Spells types nullable 0 schema
      → (ss : List (Segment P)) × (new_segments types (λ _. ok false) (length schema) 0 ≡ ok ss)
        × (Chunk.size (record { columns = ss }) ≡ ok 0)
        × (length ss ≡ length schema)
  unfolding new_segments Chunk.size
  empty_chunk types nullable [] h = ([], refl, refl, refl)
  empty_chunk types nullable ((d, b) ∷ schema) (type, there, known, null, more) =
      let (ss, others, count) = new_segments-plain types nullable 1 schema more in
      (
        value_segment d (ValueSegment.new false) ∷ ss,
        rw (there, ◌>>=◌, known, new_segments, others) refl,
        refl,
        ap suc count,
      )

  pub from_references-OutputChunks :
      (t : Table P) (schema : Schema) (rows : List (Row P)) (found : List ReferenceSegment)
      → Stores schema t rows
      → (cs : List (Chunk P)) × (Table.from_references t found ≡ ok (record t { chunks = cs }))
        × OutputChunks (length schema) found cs
  unfolding Table.from_references
  from_references-OutputChunks t schema rows [] stored =
      let (ss, made, empty, count) =
        empty_chunk t.column_types t.column_nullable schema stored.spells in
      (
        record { columns = ss } ∷ [],
        rw (columns_counted t schema rows stored, made, ◌>>=◌) refl,
        (record { columns = ss }, refl, empty, count),
      )
  from_references-OutputChunks t schema rows (r ∷ rs) stored = (
    map (output_chunk (Table.column_count t)) (r ∷ rs),
    refl,
    ap (λ n. map (output_chunk n) (r ∷ rs)) (columns_counted t schema rows stored),
  )

  -- the constructor reads the definitions of the columns alone
  pub from_references-definitions :
      (t : Table P) (cs : List (Chunk P)) (found : List ReferenceSegment)
      → Table.from_references (record t { chunks = cs }) found ≡ Table.from_references t found
  unfolding Table.from_references Table.column_count
  from_references-definitions t cs [] = refl
  from_references-definitions t cs (r ∷ rs) = refl

module _ (P : Platform) where
  pub output_chunk-size :
      (n : ℕ) (r : ReferenceSegment)
      → 0 < n
      → IsShort r
      → Chunk.size {P = P} (output_chunk n r) ≡ ok (length r.pos_list)
  unfolding Chunk.size Segment.size reference_columns
  output_chunk-size zero r filled short = absurd (omega (arith, filled))
  output_chunk-size (suc n) r filled short = ap ok (omega (arith, short.1))
