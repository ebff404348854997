-- ===== src/Table/Contents.antt =====
-- What a table stores, seen as a list of rows: the segments of a chunk hold the columns of its rows,
-- and the chunks hold the rows one part after another.
pub mod Cells
pub mod Columns
pub mod Reads
pub mod Counts
pub mod Created
pub mod Appended
pub mod Compressed
pub mod Histories
use dyod_so_se.Chunk.{Chunk}
use dyod_so_se.DictionarySegment.Invariant.{decoded, IsDictionary}
use dyod_so_se.DictionarySegment.{DictionarySegment}
use dyod_so_se.Prelude.{
  ℕ, ◌^◌, ◌<◌, ◌≤◌, ◌≡◌, Bool, true, false, List, [], ◌∷◌, ◌++◌, Option, none, some, map, length,
  All, get_elem?,
}
use dyod_so_se.Segment.{Segment, value_segment, dictionary_segment}
use dyod_so_se.Table.Append.{Spells}
use dyod_so_se.Table.Columns.{HasSchema}
use dyod_so_se.Table.{Table}
use dyod_so_se.Types.{Platform, DataType, Variant, Value, scalar, RowId}
use dyod_so_se.ValueSegment.Invariant.{cells, IsValid, accepted}
use dyod_so_se.ValueSegment.Reads.{as_variant}
use dyod_so_se.ValueSegment.{ValueSegment, is_nullable}

abbrev pub Row : Platform → Type 0
Row P = List (Variant P)

-- The type and the nullability of each column
abbrev pub Schema : Type 0
Schema = List (DataType × Bool)

module _ {ℓ} {A : Type ℓ} where
  abbrev pub first : List A → Option A
  first [] = none
  first (x ∷ xs) = some x

  abbrev pub rest : List A → List A
  rest [] = []
  rest (x ∷ xs) = xs

  abbrev pub concat : List (List A) → List A
  concat [] = []
  concat (xs ∷ xss) = xs ++ concat xss

module _ (P : Platform) where
  abbrev pub row_in : ℕ → Option (List (Row P)) → Option (Row P)
  row_in j none = none
  row_in j (some part) = get_elem? part j

  -- the row at a position
  abbrev pub row_at : List (List (Row P)) → RowId → Option (Row P)
  row_at parts r = row_in r.chunk_offset (get_elem? parts r.chunk_id)

module _ (P : Platform) (d : DataType) where
  -- the cells of a column, as they stand in the rows
  abbrev pub column_of : List (Option (Value P d)) → List (Option (Variant P))
  column_of cs = map (λ c. some (as_variant P d c)) cs

-- The segments of a chunk that hold these rows: all of them value segments, or all of them
-- dictionary segments where the chunk is compressed
pub data Holds {P : Platform} : Bool → Schema → List (Row P) → List (Segment P) → Type 0 where
  no_column :
      {compressed : Bool} {rows : List (Row P)}
      → All (λ r. r ≡ []) rows
      → Holds compressed [] rows []
  values :
      {schema : Schema} {rows : List (Row P)} {ss : List (Segment P)} (d : DataType) (b : Bool)
      (s : ValueSegment (Value P d))
      → IsValid (scalar P d) s
      → is_nullable s ≡ b
      → map first rows ≡ column_of P d (cells s)
      → Holds false schema (map rest rows) ss
      → Holds false ((d, b) ∷ schema) rows (value_segment d s ∷ ss)
  ids :
      {schema : Schema} {rows : List (Row P)} {ss : List (Segment P)} (d : DataType) (b : Bool)
      (ds : DictionarySegment (Value P d))
      → IsDictionary (scalar P d) ds
      → map first rows ≡ column_of P d (decoded ds)
      → Holds true schema (map rest rows) ss
      → Holds true ((d, b) ∷ schema) rows (dictionary_segment d ds ∷ ss)

-- The chunks hold the parts, none of which has more rows than a chunk may have.
pub data ChunksHold {P : Platform} (schema : Schema) (target : ℕ)
    : List (Chunk P) → List (List (Row P)) → Type 0 where
  no_chunk : ChunksHold schema target [] []
  chunk :
      {c : Chunk P} {cs : List (Chunk P)} {part : List (Row P)} {parts : List (List (Row P))}
      (compressed : Bool)
      → Holds compressed schema part c.columns
      → length part ≤ target
      → ChunksHold schema target cs parts
      → ChunksHold schema target (c ∷ cs) (part ∷ parts)

-- A well-formed table, and the rows that it stores
pub record Stores {P : Platform} (schema : Schema) (t : Table P) (rows : List (Row P))
    : Type 0 where
  pub named : HasSchema t
  pub spells : Spells t.column_types t.column_nullable 0 schema
  pub complete : length t.column_types ≡ length schema
  pub narrow : length schema < 2 ^ 16
  pub positive : 0 < t.target_chunk_size
  pub bounded : t.target_chunk_size < 2 ^ 32
  pub parts : List (List (Row P))
  pub chunks : ChunksHold schema t.target_chunk_size t.chunks parts
  pub contents : concat parts ≡ rows
  pub before : List (Chunk P)
  pub last_chunk : Chunk P
  pub last : t.chunks ≡ before ++ last_chunk ∷ []

-- What the values of an appended row become in the columns
pub data Converts (P : Platform) : Schema → List (Variant P) → Row P → Type 0 where
  no_value : Converts P [] [] []
  converts :
      {schema : Schema} {v : Variant P} {vs : List (Variant P)} {row : Row P} (d : DataType)
      (b : Bool) (c : Option (Value P d))
      → accepted P d b v ≡ some c
      → Converts P schema vs row
      → Converts P ((d, b) ∷ schema) (v ∷ vs) (as_variant P d c ∷ row)
