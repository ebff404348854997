-- ===== src/Table/Contents/Reads.antt =====
-- Reading a value of a row back from the segments, directly and through a reference segment.

use dyod_so_se.Chunk.{Chunk}
use dyod_so_se.DictionarySegment
use dyod_so_se.DictionarySegment.Invariant.{decoded, IsDictionary}
use dyod_so_se.DictionarySegment.Reads.{get_elem?-map, All-get_elem?, element-decoded}
use dyod_so_se.Outcome.Laws.{debug_assert-true}
use dyod_so_se.Outcome.{ok, ◌>>=◌, Build, subscript, row_id_out_of_bounds}
use dyod_so_se.Prelude.{
  ℕ, zero, suc, ◌^◌, ◌%◌, ◌<◌, ◌≤◌, ◌≡◌, refl, sym, ap, ◌∙◌, Bool, true, false, List, [], ◌∷◌,
  Option, none, some, map, length, length-map, get_elem?, lt→ltb, leb, arith,
}
use dyod_so_se.Reference.{Store, element, reference_element, target}
use dyod_so_se.Segment
use dyod_so_se.Segment.{
  Segment, ReferenceSegment, value_segment, dictionary_segment, reference_segment,
}
use dyod_so_se.Table.Compress.Chunks.{size-dictionary}
use dyod_so_se.Table.Contents.Cells.{length-column_of, get_segment-there}
use dyod_so_se.Table.Contents.{
  Row, Schema, row_in, row_at, first, rest, column_of, Holds, no_column, values, ids, ChunksHold,
  chunk, Stores,
}
use dyod_so_se.Table.{Table, get_chunk, chunk_count}
use dyod_so_se.Types.{
  Platform, DataType, Variant, Value, scalar, variant_is_null, RowId, row_is_null,
}
use dyod_so_se.ValueSegment
use dyod_so_se.ValueSegment.Invariant.{cells, IsValid, length-cells}
use dyod_so_se.ValueSegment.Reads.{as_variant, element-row, get_elem?-below}

pub map-get_elem? {ℓ κ} :
    {A : Type ℓ} {B : Type κ} (f : A → B) (xs : List A) (i : ℕ) (x : A)
    → get_elem? xs i ≡ some x
    → get_elem? (map f xs) i ≡ some (f x)
map-get_elem? f [] i x e = cc
map-get_elem? f (y ∷ xs) zero x e = cc
map-get_elem? f (y ∷ xs) (suc i) x e = map-get_elem? f xs i x e

pub rest_at {ℓ} : {A : Type ℓ} (k : ℕ) (xs : List A) → get_elem? xs (suc k) ≡ get_elem? (rest xs) k
rest_at k [] = refl
rest_at k (x ∷ xs) = refl

module _ {P : Platform} (build : Build) (store : Store P) (i : ℕ) where
  -- the segment of column `k`, whose row `i` reads as the value
  abbrev pub Reads : List (Segment P) → List (Row P) → ℕ → Variant P → Type 0
  Reads ss rows k v =
      (segment : Segment P) × (get_elem? ss k ≡ some segment)
      × (Segment.size segment ≡ ok (length rows))
      × ((depth : ℕ) → element build store depth segment i ≡ ok v)

  -- the cell that a value stands in
  cell_of :
      (d : DataType) (rows : List (Row P)) (row : Row P) (cs : List (Option (Value P d)))
      (v : Variant P)
      → map first rows ≡ column_of P d cs
      → get_elem? rows i ≡ some row
      → get_elem? row 0 ≡ some v
      → (c : Option (Value P d)) × (get_elem? cs i ≡ some c) × (v ≡ as_variant P d c)
  cell_of d rows [] cs v same there e = cc
  cell_of d rows (w ∷ row) cs v same there e =
      let at : get_elem? (column_of P d cs) i ≡ some (some w) =
        ap (λ xs. get_elem? xs i) (sym same) ∙ map-get_elem? first rows i (w ∷ row) there in
      let (c, found, one) = get_elem?-map (λ c. some (as_variant P d c)) cs i (some w) at in
      (c, found, cc)

  later :
      (ss : List (Segment P)) (rows : List (Row P)) (k : ℕ) (s : Segment P) (v : Variant P)
      → Reads ss (map rest rows) k v
      → Reads (s ∷ ss) rows (suc k) v
  later ss rows k s v (segment, there, size, reads) =
      (segment, there, size ∙ ap ok (length-map rows rest), reads)

  value_reads :
      (d : DataType) (s : ValueSegment.ValueSegment (Value P d)) (c : Option (Value P d))
      → IsValid (scalar P d) s
      → length s.values < 2 ^ 32
      → get_elem? (cells s) i ≡ some c
      → (depth : ℕ) → element build store depth (value_segment d s) i ≡ ok (as_variant P d c)
  unfolding element
  value_reads d s c valid small found zero = element-row P d build s valid small i c found
  value_reads d s c valid small found (suc depth) = element-row P d build s valid small i c found

  dictionary_reads :
      (d : DataType) (ds : DictionarySegment.DictionarySegment (Value P d)) (c : Option (Value P d))
      → IsDictionary (scalar P d) ds
      → variant_is_null P (as_variant P d c) ≡ false
      → get_elem? (decoded ds) i ≡ some c
      → (depth : ℕ) → element build store depth (dictionary_segment d ds) i ≡ ok (as_variant P d c)
  unfolding element
  dictionary_reads d ds none w known found depth = cc
  dictionary_reads d ds (some x) w known found zero =
      element-decoded P d ds w build i (some x) found
  dictionary_reads d ds (some x) w known found (suc depth) =
      element-decoded P d ds w build i (some x) found

  pub read_at :
      {compressed : Bool} {schema : Schema} {rows : List (Row P)} {ss : List (Segment P)} (k : ℕ)
      (row : Row P) (v : Variant P)
      → Holds compressed schema rows ss
      → get_elem? rows i ≡ some row
      → get_elem? row k ≡ some v
      → length rows < 2 ^ 32
      → (compressed ≡ true → variant_is_null P v ≡ false)
      → Reads ss rows k v
  unfolding Segment.size ValueSegment.size
  read_at {rows = rows} k row v (no_column h) there e small known =
      let empty : row ≡ [] = All-get_elem? (λ r. r ≡ []) rows i row h there in cc
  read_at {rows = rows} zero row v (values d b s valid nullable here more) there e small known =
      let (c, found, same) = cell_of d rows row (cells s) v here there e in
      let count : length s.values ≡ length rows =
        sym (length-column_of P d rows (cells s) here ∙ length-cells (scalar P d) s valid) in
      (
        value_segment d s,
        refl,
        ap ok (omega (arith, count, small)),
        λ depth. rw same (value_reads d s c valid (omega (arith, count, small)) found depth),
      )
  read_at {rows = rows} {ss = s' ∷ ss} (suc k) row v (values d b s valid nullable here more) there e
        small known =
      later ss rows k s' v (
        read_at k (rest row) v more (map-get_elem? rest rows i row there) (sym (rest_at k row) ∙ e)
          (omega (arith, small, length-map rows rest)) known)
  read_at {rows = rows} zero row v (ids d b ds w here more) there e small known =
      let (c, found, same) = cell_of d rows row (decoded ds) v here there e in
      let count : length ds.attribute_vector.ids ≡ length rows =
        sym (length-column_of P d rows (decoded ds) here ∙ length-map ds.attribute_vector.ids _) in
      (
        dictionary_segment d ds,
        refl,
        size-dictionary P d ds (length rows) small count,
        λ depth. rw same (dictionary_reads d ds c w (rw same at (known refl)) found depth),
      )
  read_at {rows = rows} {ss = s' ∷ ss} (suc k) row v (ids d b ds w here more) there e small known =
      later ss rows k s' v (
        read_at k (rest row) v more (map-get_elem? rest rows i row there) (sym (rest_at k row) ∙ e)
          (omega (arith, small, length-map rows rest)) known)

module _ {P : Platform} (schema : Schema) (target : ℕ) where
  -- the chunk that holds a part
  pub chunk_at :
      (cs : List (Chunk P)) (parts : List (List (Row P))) (j : ℕ) (part : List (Row P))
      → ChunksHold schema target cs parts
      → get_elem? parts j ≡ some part
      → (c : Chunk P) × (compressed : Bool) × (get_elem? cs j ≡ some c)
        × Holds compressed schema part c.columns
        × (length part ≤ target)
  chunk_at cs [] j part h e = cc
  chunk_at [] (p ∷ parts) j part h e = elim h [ ]
  chunk_at (c ∷ cs) (p ∷ parts) zero part (chunk k holds fits more) e =
      let same : p ≡ part = cc in (c, k, refl, rw (sym same) holds, rw (sym same) fits)
  chunk_at (c ∷ cs) (p ∷ parts) (suc j) part (chunk k holds fits more) e =
      chunk_at cs parts j part more e

-- a chunk that is there
pub get_chunk-get_elem? :
    {P : Platform} (t : Table P) (j : ℕ) (c : Chunk P)
    → length t.chunks < 2 ^ 32
    → get_elem? t.chunks j ≡ some c
    → get_chunk t j ≡ ok c
unfolding get_chunk chunk_count
get_chunk-get_elem? t j c few e =
    let below = get_elem?-below t.chunks j c e in
    let inside : leb (length t.chunks % 2 ^ 32) j ≡ false = ground (arith, below, few) in
    rw (inside, e) refl

module _ {P : Platform} (build : Build) (store : Store P) (t : Table P) (schema : Schema)
    (rows : List (Row P)) (stored : Stores schema t rows) (few : length t.chunks < 2 ^ 32) where
  pub get_chunk-there : (j : ℕ) (c : Chunk P) → get_elem? t.chunks j ≡ some c → get_chunk t j ≡ ok c
  get_chunk-there j c e = get_chunk-get_elem? t j c few e

  -- the part and the offset that a position names
  pub named_part :
      (p : RowId) (row : Row P)
      → row_at P stored.parts p ≡ some row
      → (part : List (Row P)) × (get_elem? stored.parts p.chunk_id ≡ some part)
        × (get_elem? part p.chunk_offset ≡ some row)
  named_part p row e = go (get_elem? stored.parts p.chunk_id) refl e
    where
      go :
          (o : Option (List (Row P)))
          → get_elem? stored.parts p.chunk_id ≡ o
          → row_in P p.chunk_offset o ≡ some row
          → (part : List (Row P)) × (get_elem? stored.parts p.chunk_id ≡ some part)
            × (get_elem? part p.chunk_offset ≡ some row)
      go none same e = cc
      go (some part) same e = (part, same, e)

  -- A reference segment into a table of fewer than 2 ^ 32 chunks that stores rows reads, at a
  -- position that names a row, the value of the row in its column, where this value is not null.
  pub element-row_at :
      (depth : ℕ) (r : ReferenceSegment) (i : ℕ) (p : RowId) (row : Row P) (v : Variant P)
      → subscript store r.referenced_table ≡ ok t
      → get_elem? r.pos_list i ≡ some p
      → row_at P stored.parts p ≡ some row
      → get_elem? row r.referenced_column_id ≡ some v
      → variant_is_null P v ≡ false
      → element build store (suc depth) (reference_segment r) i ≡ ok v
  unfolding element reference_element target
  element-row_at depth r i p row v at position named value known =
      let (part, part_there, row_there) = named_part p row named in
      let (c, k, chunk_there, holds, fits) =
        chunk_at schema t.target_chunk_size t.chunks stored.parts p.chunk_id part stored.chunks
          part_there in
      let (segment, there, size, reads) =
        read_at build store p.chunk_offset r.referenced_column_id row v holds row_there value
          (omega (arith, fits, stored.bounded)) (λ _. known) in
      let below = get_elem?-below part p.chunk_offset row row_there in
      let named_row : row_is_null p ≡ false = ground (arith, below, fits, stored.bounded) in
      rw (
        position,
        ◌>>=◌,
        named_row,
        at,
        get_chunk-there p.chunk_id c chunk_there,
        get_segment-there c r.referenced_column_id segment there,
        size,
        debug_assert-true build _ row_id_out_of_bounds (lt→ltb _ _ below),
        reads depth,
      )
