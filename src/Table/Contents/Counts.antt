-- ===== src/Table/Contents/Counts.antt =====
-- `row_count` and `create_new_chunk` on the rows that a table stores.
use dyod_so_se.Chunk
use dyod_so_se.Chunk.{Chunk}
use dyod_so_se.Outcome.{ok, ◌>>=◌, Build, subscript}
use dyod_so_se.Prelude.Text.{Text}
use dyod_so_se.Reference.{Store}
use dyod_so_se.Segment.{Segment}
use dyod_so_se.TableScan.Execute.Chunks.{HasRows}
use dyod_so_se.Table.Contents.Columns.{column, column_at, type_at}
use dyod_so_se.Table.Contents.Reads.{chunk_at, get_chunk-there}
use dyod_so_se.Prelude.{
  ℕ, ◌+◌, ◌^◌, ◌%◌, ◌<◌, ◌≡◌, refl, ap, ◌∙◌, Bool, false, List, [], ◌∷◌, ◌++◌, some, length,
  length-append, arith, Option, get_elem?, get_elem?-lt, ltb,
}
use dyod_so_se.Table
use dyod_so_se.Table.Append.{fresh, new_segments-fresh}
use dyod_so_se.Table.Contents.Appended.{join_last, append_nil, concat-new, with_chunks}
use dyod_so_se.Table.Contents.Cells.{size-Holds, fresh-Holds, get_segment-there}
use dyod_so_se.Table.Contents.{Row, Schema, concat, column_of, ChunksHold, no_chunk, chunk, Stores}
use dyod_so_se.Table.{Table, row_count, row_count_from, create_new_chunk}
use dyod_so_se.Types.{Platform, DataType, Value, resolve_data_type}

module _ {P : Platform} (d : DataType) (b : Bool) (schema : Schema) where
  row_count_from-ChunksHold :
      (target acc : ℕ) (cs : List (Chunk P)) (parts : List (List (Row P)))
      → ChunksHold ((d, b) ∷ schema) target cs parts
      → target < 2 ^ 32
      → acc + length (concat parts) < 2 ^ 64
      → row_count_from acc cs ≡ ok (acc + length (concat parts))
  unfolding row_count_from
  row_count_from-ChunksHold target acc [] [] no_chunk small total = ap ok (omega arith)
  row_count_from-ChunksHold target acc [] (part ∷ parts) h small total = elim h [ ]
  row_count_from-ChunksHold target acc (c ∷ cs) [] h small total = elim h [ ]
  row_count_from-ChunksHold target acc (c ∷ cs) (part ∷ parts) (chunk k holds fits more) small
        total =
      let sum = length-append part (concat parts) in
      let whole : length part % 2 ^ 32 ≡ length part = omega (arith, fits, small) in
      let next : (acc + length part) % 2 ^ 64 ≡ acc + length part = omega (arith, total, sum) in
      let others =
        row_count_from-ChunksHold target (acc + length part) cs parts more small
          (omega (arith, total, sum)) in
      rw (size-Holds 0 (d, b) holds refl, ◌>>=◌, whole, next) (others ∙ ap ok (omega (arith, sum)))

  -- On a table with a column that stores fewer than 2 ^ 64 rows, `row_count` returns their number.
  pub row_count-length :
      (t : Table P) (rows : List (Row P))
      → Stores ((d, b) ∷ schema) t rows
      → length rows < 2 ^ 64
      → row_count t ≡ ok (length rows)
  unfolding row_count
  row_count-length t rows stored small =
      let same : length (concat stored.parts) ≡ length rows = ap length stored.contents in
      row_count_from-ChunksHold t.target_chunk_size 0 t.chunks stored.parts stored.chunks
        stored.bounded (omega (arith, small, same))
      ∙ ap ok (omega (arith, same))

-- there is a part for each chunk
pub ChunksHold-length :
    {P : Platform} (schema : Schema) (target : ℕ) (cs : List (Chunk P))
    (parts : List (List (Row P)))
    → ChunksHold schema target cs parts
    → length cs ≡ length parts
ChunksHold-length schema target [] [] no_chunk = refl
ChunksHold-length schema target [] (part ∷ parts) h = elim h [ ]
ChunksHold-length schema target (c ∷ cs) [] h = elim h [ ]
ChunksHold-length schema target (c ∷ cs) (part ∷ parts) (chunk k holds fits more) =
    omega (arith, ChunksHold-length schema target cs parts more)

-- `create_new_chunk` adds a chunk without rows, and the table stores the same rows.
pub create_new_chunk-Stores :
    {P : Platform} (schema : Schema) (t : Table P) (rows : List (Row P))
    (stored : Stores schema t rows)
    → (t' : Table P) × (create_new_chunk t ≡ ok t') × Stores schema t' rows
unfolding create_new_chunk
create_new_chunk-Stores {P} schema t rows stored =
    let empty : Chunk P = record { columns = fresh schema } in
    (
      record t { chunks = t.chunks ++ empty ∷ [] },
      rw (
        stored.complete,
        new_segments-fresh {P = P} t.column_types t.column_nullable 0 schema stored.spells,
        ◌>>=◌,
      ),
      with_chunks schema t rows rows stored t.chunks empty (t.chunks ++ empty ∷ [])
          (stored.parts ++ [] ∷ []) refl
          (join_last schema t.target_chunk_size t.chunks empty stored.parts [] false stored.chunks
            (fresh-Holds schema) (omega arith))
          (concat-new stored.parts [] ∙ append_nil (concat stored.parts) ∙ stored.contents),
    )

-- The chunk of a part, and its segment in a column, of the type that the definition spells
abbrev pub HasTypedSegment : {P : Platform} → Table P → List (Row P) → ℕ → ℕ → Type 0
HasTypedSegment {P} t part i k =
    (c : Chunk P) × (type : Text) × (d : DataType) × (segment : Segment P) × (cs : List
      (Option (Value P d)))
    × (Table.get_chunk t i ≡ ok c)
    × (Table.column_type t k ≡ ok type)
    × (resolve_data_type type ≡ some d)
    × (Chunk.get_segment c k ≡ ok segment)
    × HasRows d segment cs
    × (column P k part ≡ column_of P d cs)

-- In a table of fewer than 2 ^ 32 chunks that stores rows, the segment of every chunk in a column
-- is a value segment or a dictionary segment of the type that the column's definition spells, and
-- it stores the column of the chunk's rows.
pub get_segment-HasTypedSegment :
    {P : Platform} (build : Build) (store : Store P) (schema : Schema) (t : Table P)
    (rows : List (Row P)) (stored : Stores schema t rows)
    → length t.chunks < 2 ^ 32
    → (i k : ℕ) (part : List (Row P)) → get_elem? stored.parts i ≡ some part
    → k < length schema
    → HasTypedSegment t part i k
unfolding Table.column_type
get_segment-HasTypedSegment build store schema t rows stored few i k part here inside =
    let ((d, b), at) = get_elem?-lt schema k inside in
    let (c, compressed, there, holds, fits) =
      chunk_at schema t.target_chunk_size t.chunks stored.parts i part stored.chunks here in
    let (segment, cs, found, has_rows, same) =
      column_at k d b holds at (omega (arith, fits, stored.bounded)) in
    let (type, typed, known) =
      type_at t.column_types t.column_nullable 0 schema k d b stored.spells at in
    let within : ltb (length t.column_types) k ≡ false = ground (arith, inside, stored.complete) in
    (
      c,
      type,
      d,
      segment,
      cs,
      get_chunk-there build store t schema rows stored few i c there,
      rw within (ap (subscript t.column_types) (omega arith) ∙ typed),
      known,
      get_segment-there c k segment found,
      has_rows,
      same,
    )
