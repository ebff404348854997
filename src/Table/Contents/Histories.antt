-- ===== src/Table/Contents/Histories.antt =====
-- A table over time: it is constructed, its columns are added, and then rows are appended, chunks are
-- created and chunks are compressed, in any order.
use dyod_so_se.Outcome.{ok, Build}
use dyod_so_se.Prelude.Text.{Text}
use dyod_so_se.Prelude.{
  ℕ, suc, ◌^◌, ◌<◌, ◌≡◌, sym, ap, ◌∙◌, Bool, false, List, [], ◌∷◌, ◌++◌, some, length, arith,
  get_elem?, get_elem?-lt,
}
use dyod_so_se.Chunk.{Chunk}
use dyod_so_se.Table.Compress.Schedule.{IsSchedule}
use dyod_so_se.Table.Compress.{compress_chunk}
use dyod_so_se.Table.Contents.Appended.{append-StoresMore}
use dyod_so_se.Table.Contents.Compressed.{AreSafe, AreLawful, compress_chunk-Stores}
use dyod_so_se.Table.Contents.Counts.{
  create_new_chunk-Stores, HasTypedSegment, get_segment-HasTypedSegment, ChunksHold-length,
}
use dyod_so_se.Table.Contents.Created.{StoresNothing, new-StoresNothing, add_column-StoresNothing}
use dyod_so_se.Table.Contents.{Row, Schema, Stores, Converts, concat}
use dyod_so_se.Table
use dyod_so_se.Table.{Table, contains, add_column, column_count, get_chunk, create_new_chunk}
use dyod_so_se.Types.{Platform, DataType, Variant, resolve_data_type}

module _ {P : Platform} (build : Build) (target : ℕ) where
  -- the tables that the constructor and `add_column` make, by their columns
  pub data Defined : Schema → Table P → Type 0 where
    constructed : Defined [] (Table.new target)
    column :
        {schema : Schema} {t t' : Table P} (name type : Text) (b : Bool) (d : DataType)
        → Defined schema t
        → contains name t.column_names ≡ false
        → resolve_data_type type ≡ some d
        → suc (length schema) < 2 ^ 16
        → add_column build name type b t ≡ ok t'
        → Defined (schema ++ (d, b) ∷ []) t'

  -- the tables that the other operations make of these, by the rows that were appended
  pub data Reached (schema : Schema) : List (Row P) → Table P → Type 0 where
    defined : {t : Table P} → Defined schema t → Reached schema [] t
    appended :
        {t t' : Table P} {rows : List (Row P)} (vs : List (Variant P)) (row : Row P)
        → Reached schema rows t
        → Converts P schema vs row
        → Table.append build vs t ≡ (ok tt, t')
        → Reached schema (rows ++ row ∷ []) t'
    opened :
        {t t' : Table P} {rows : List (Row P)}
        → Reached schema rows t
        → create_new_chunk t ≡ ok t'
        → Reached schema rows t'
    compressed :
        {t t' : Table P} {rows : List (Row P)} (schedule : List ℕ) (chunk_id : ℕ) (c : Chunk P)
        → Reached schema rows t
        → get_chunk t chunk_id ≡ ok c
        → AreSafe c.columns
        → IsSchedule (column_count t) schedule
        → compress_chunk build schedule chunk_id t ≡ ok t'
        → Reached schema rows t'

module _ {P : Platform} (build : Build) (target : ℕ) (positive : 0 < target)
    (small : target < 2 ^ 32) where
  same_table :
      (schema : Schema) (rows : List (Row P)) {t t' : Table P}
      → ok t ≡ ok t'
      → Stores schema t rows
      → Stores schema t' rows
  same_table schema rows {t} {t'} e stored = let e' : t ≡ t' = cc in rw (sym e') stored

  Defined-StoresNothing :
      {schema : Schema} {t : Table P} → Defined build target schema t → StoresNothing schema t
  Defined-StoresNothing constructed = new-StoresNothing target positive small
  Defined-StoresNothing (column {schema} {t} {t'} name type b d made free known few run) =
      let (u, run', names, types, nothing) =
        add_column-StoresNothing build name type b d schema t (Defined-StoresNothing made) free
          known few in
      let same : u ≡ t' = cc in rw (sym same) nothing

  after_append :
      (schema : Schema)
      → 0 < length schema
      → (rows : List (Row P)) (t t' : Table P) (vs : List (Variant P)) (row : Row P)
      → Stores schema t rows
      → Converts P schema vs row
      → Table.append build vs t ≡ (ok tt, t')
      → Stores schema t' (rows ++ row ∷ [])
  after_append [] none_there rows t t' vs row stored fits run = absurd (omega (arith, none_there))
  after_append ((d, b) ∷ schema) some_column rows t t' vs row stored fits run =
      let (u, run', more) = append-StoresMore build d b schema t rows stored vs row fits in
      let same : u ≡ t' = ap (λ r. r.1) (sym run' ∙ run) in rw (sym same) more

  -- A table stores the rows that were appended to it, in the order in which they were, whatever
  -- other operations came between: with a chunk size that is positive and below 2 ^ 32 and types of
  -- lawful orders in its columns, where columns of new names and known types, at least one and
  -- fewer than 2 ^ 16, were added first and the chunks that were compressed were of null-safe value
  -- segments.
  pub Reached-Stores :
      {schema : Schema} {rows : List (Row P)} {t : Table P}
      → 0 < length schema
      → AreLawful P schema
      → Reached build target schema rows t
      → Stores schema t rows
  Reached-Stores some_column lawful (defined made) = (Defined-StoresNothing made).1
  Reached-Stores {schema} some_column lawful (appended {t} {t'} {rows} vs row before fits run) =
      after_append schema some_column rows t t' vs row (Reached-Stores some_column lawful before)
        fits run
  Reached-Stores {schema} {rows} some_column lawful (opened {t} before made) =
      let (u, made', stored) =
        create_new_chunk-Stores schema t rows (Reached-Stores some_column lawful before) in
      same_table schema rows (sym made' ∙ made) stored
  Reached-Stores {schema} {rows} some_column lawful
        (compressed {t} schedule chunk_id c before there safe complete run) =
      let (u, run', stored) =
        compress_chunk-Stores build t schema rows (Reached-Stores some_column lawful before)
          chunk_id c there safe lawful schedule complete in
      same_table schema rows (sym run' ∙ run) stored

  -- The operations of a table keep its segments typed. With a chunk size that is positive and below
  -- 2 ^ 32 and types of lawful orders in its columns, where columns of new names and known types,
  -- at least one and fewer than 2 ^ 16, were added first and the chunks that were compressed were
  -- of null-safe value segments, any appending of rows, creating of chunks and compressing of
  -- chunks leads to a table in which, while it has fewer than 2 ^ 32 chunks, the segment of every
  -- chunk in every column is a value segment or a dictionary segment of the type that the column's
  -- definition spells, and stores that column of the chunk's part of the rows that were appended.
  pub Reached-HasTypedSegment :
      {schema : Schema} {rows : List (Row P)} {t : Table P}
      → 0 < length schema
      → AreLawful P schema
      → Reached build target schema rows t
      → length t.chunks < 2 ^ 32
      → (parts : List (List (Row P))) × (concat parts ≡ rows)
        × ((i k : ℕ)
            → i < length t.chunks
            → k < length schema
            → (part : List (Row P)) × (get_elem? parts i ≡ some part) × HasTypedSegment t part i k)
  Reached-HasTypedSegment {schema} {rows} {t} some_column lawful reached few =
      let stored = Reached-Stores some_column lawful reached in
      (
        stored.parts,
        stored.contents,
        λ i k below inside.
            let (part, there) = get_elem?-lt stored.parts i (
              omega (
                arith,
                below,
                ChunksHold-length schema t.target_chunk_size t.chunks stored.parts stored.chunks,
              )) in
            (
              part,
              there,
              get_segment-HasTypedSegment build [] schema t rows stored few i k part there inside,
            ),
      )
