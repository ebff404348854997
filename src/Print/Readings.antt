-- ===== src/Print/Readings.antt =====
-- What `Print` reads of a table: its chunks read as parts of its rows.
use dyod_so_se.Chunk
use dyod_so_se.Chunk.{Chunk}
use dyod_so_se.DictionarySegment.Reads.{get_elem?-map, All-get_elem?}
use dyod_so_se.Outcome.{ok, Build}
use dyod_so_se.Prelude.{
  ℕ, zero, suc, ◌^◌, ◌<◌, ◌≡◌, refl, sym, ap, ◌∙◌, Bool, List, [], ◌∷◌, Option, none, some, map,
  length, get_elem?, get_elem?-lt, arith,
}
use dyod_so_se.Print.Fits.{Readable, AreReadable, cell-there}
use dyod_so_se.Print.Widths.{cell}
use dyod_so_se.Reference.{Store}
use dyod_so_se.Segment.{Segment}
use dyod_so_se.Table.Contents.Cells.{length-Holds, size-Holds}
use dyod_so_se.Table.Contents.Reads.{map-get_elem?}
use dyod_so_se.Table.Contents.{
  Row, Schema, first, rest, column_of, Holds, no_column, values, ids, ChunksHold, no_chunk, chunk,
}
use dyod_so_se.Types.{Platform, DataType, Variant, Value}
use dyod_so_se.ValueSegment.Reads.{as_variant}

module _ (P : Platform) where
  one_longer :
      (d : DataType) (rows : List (Row P)) (cs : List (Option (Value P d))) (i : ℕ) (row : Row P)
      (n : ℕ)
      → map first rows ≡ column_of P d cs
      → get_elem? rows i ≡ some row
      → length (rest row) ≡ n
      → length row ≡ suc n
  one_longer d rows cs i [] n same there e =
      let at : get_elem? (column_of P d cs) i ≡ some none =
        ap (λ xs. get_elem? xs i) (sym same) ∙ map-get_elem? first rows i [] there in
      let (c, found, one) = get_elem?-map (λ c. some (as_variant P d c)) cs i none at in cc
  one_longer d rows cs i (v ∷ row) n same there e = ap suc e

module _ {P : Platform} where
  -- a row has a value for each column
  pub length-row :
      {compressed : Bool} {schema : Schema} {rows : List (Row P)} {ss : List (Segment P)} (i : ℕ)
      (row : Row P)
      → Holds compressed schema rows ss
      → get_elem? rows i ≡ some row
      → length row ≡ length schema
  length-row {rows = rows} i row (no_column h) there =
      ap length (All-get_elem? (λ r. r ≡ []) rows i row h there)
  length-row {rows = rows} i row (values d b s valid nullable here more) there =
      one_longer P d rows _ i row _ here there
        (length-row i (rest row) more (map-get_elem? rest rows i row there))
  length-row {rows = rows} i row (ids d b ds w here more) there =
      one_longer P d rows _ i row _ here there
        (length-row i (rest row) more (map-get_elem? rest rows i row there))

module _ {P : Platform} (build : Build) (store : Store P) (depth n : ℕ) where
  -- The chunk has `n` columns and reads as these rows, each of which has a value for each column.
  pub record ReadsAs (c : Chunk P) (part : List (Row P)) : Type 0 where
    pub sized : 0 < n → Chunk.size c ≡ ok (length part)
    pub columns : length c.columns ≡ n
    pub short : length part < 2 ^ 32
    pub wide : (i : ℕ) (row : Row P) → get_elem? part i ≡ some row → length row ≡ n
    pub reads :
        (i k : ℕ) (row : Row P) (v : Variant P)
        → get_elem? part i ≡ some row
        → get_elem? row k ≡ some v
        → cell build store depth c k i ≡ ok v

  abbrev pub ChunksRead : List (Chunk P) → List (List (Row P)) → Type 0
  ChunksRead [] [] = Unit
  ChunksRead [] (part ∷ parts) = ⊥
  ChunksRead (c ∷ cs) [] = ⊥
  ChunksRead (c ∷ cs) (part ∷ parts) = ReadsAs c part × ChunksRead cs parts

module _ {P : Platform} (build : Build) (store : Store P) (depth n : ℕ) where
  pub ChunksRead-there :
      (cs : List (Chunk P)) (parts : List (List (Row P))) (j : ℕ) (part : List (Row P))
      → ChunksRead build store depth n cs parts
      → get_elem? parts j ≡ some part
      → (c : Chunk P) × (get_elem? cs j ≡ some c) × ReadsAs build store depth n c part
  ChunksRead-there cs [] j part all at = cc
  ChunksRead-there [] (p ∷ parts) j part all at = absurd all
  ChunksRead-there (c ∷ cs) (p ∷ parts) zero part all at =
      let same : part ≡ p = cc in (c, refl, rw same all.0)
  ChunksRead-there (c ∷ cs) (p ∷ parts) (suc j) part all at =
      ChunksRead-there cs parts j part all.1 at

module _ {P : Platform} (build : Build) (store : Store P) (depth : ℕ) where
  Holds-ReadsAs :
      {compressed : Bool} (schema : Schema) {part : List (Row P)} (c : Chunk P)
      → Holds compressed schema part c.columns
      → Readable P compressed part
      → length part < 2 ^ 32
      → ReadsAs build store depth (length schema) c part
  Holds-ReadsAs schema c holds readable small = record {
    sized = λ filled.
        let (column, there) = get_elem?-lt schema 0 filled in
        size-Holds 0 column holds there ∙ ap ok (omega (arith, small));
    columns = length-Holds holds;
    short = small;
    wide = λ i row there. length-row i row holds there;
    reads = λ i k row v there value.
        cell-there build store depth c k i row v holds readable small there value;
  }

  pub ChunksHold-ChunksRead :
      (schema : Schema) (target : ℕ) (cs : List (Chunk P)) (parts : List (List (Row P)))
      (holds : ChunksHold schema target cs parts)
      → AreReadable holds
      → target < 2 ^ 32
      → ChunksRead build store depth (length schema) cs parts
  ChunksHold-ChunksRead schema target [] [] no_chunk readable small = tt
  ChunksHold-ChunksRead schema target [] (part ∷ parts) h readable small = elim h [ ]
  ChunksHold-ChunksRead schema target (c ∷ cs) [] h readable small = elim h [ ]
  ChunksHold-ChunksRead schema target (c ∷ cs) (part ∷ parts) (chunk k holds fits more) readable
        small =
      (
        Holds-ReadsAs schema c holds readable.0 (omega (arith, fits, small)),
        ChunksHold-ChunksRead schema target cs parts more readable.1 small,
      )
