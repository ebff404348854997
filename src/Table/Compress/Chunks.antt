-- ===== src/Table/Compress/Chunks.antt =====
-- `compress_chunk` on a chunk of value segments: the chunk that it puts in place.
use dyod_so_se.AttributeVector
use dyod_so_se.Chunk
use dyod_so_se.Chunk.{Chunk}
use dyod_so_se.DictionarySegment.Invariant.{decoded, IsDictionary, IsNullSafe}
use dyod_so_se.DictionarySegment.RoundTrip.{new-rows}
use dyod_so_se.DictionarySegment.{DictionarySegment}
use dyod_so_se.DictionarySegment
use dyod_so_se.Outcome.{Outcome, ok, ◌>>=◌, Build, subscript}
use dyod_so_se.Prelude.Text.{Text}
use dyod_so_se.Prelude.{
  ℕ, zero, suc, ◌+◌, ◌^◌, ◌%◌, ◌<◌, ◌≡◌, refl, ap, ◌∙◌, ◌⊎◌, inl, inr, true, false, List, some,
  length, set, arith, ltb, ltb→lt, Bool-cases,
}
use dyod_so_se.Scalar.{IsLawful}
use dyod_so_se.Segment
use dyod_so_se.Segment.{Segment, dictionary_segment, null_pointer, as_value}
use dyod_so_se.Table.Compress.Schedule.{
  IsSchedule, segments_at, get_elem?-segments_at, compress_chunk-schedule,
}
use dyod_so_se.Table.Compress.{compressed_segment, compress_chunk}
use dyod_so_se.Table.{Table, get_chunk, column_count}
use dyod_so_se.Types.{Platform, DataType, Value, scalar, resolve_data_type}
use dyod_so_se.ValueSegment.Invariant.{cells, IsValid}
use dyod_so_se.ValueSegment.{ValueSegment}

-- A column of a chunk that is ready to be compressed, with its number of rows
pub record Column {P : Platform} (t : Table P) (c : Chunk P) (rows k : ℕ) : Type 0 where
  pub type : Text
  pub d : DataType
  pub segment : Segment P
  pub s : ValueSegment (Value P d)
  pub typed : subscript t.column_types k ≡ ok type
  pub known : resolve_data_type type ≡ some d
  pub laws : IsLawful (scalar P d)
  pub there : Chunk.get_segment c k ≡ ok segment
  pub cast : as_value d segment ≡ some s
  pub valid : IsValid (scalar P d) s
  pub safe : IsNullSafe (scalar P d) s
  pub size : length s.values ≡ rows

-- what the thread of the column makes of it
abbrev pub Encoded :
    {P : Platform} {t : Table P} {c : Chunk P} {rows k : ℕ}
    → Build
    → Column t c rows k
    → Segment P
    → Type 0
Encoded {P} {t} {c} {rows} {k} build column segment' =
    (ds : DictionarySegment (Value P column.d)) × (segment' ≡ dictionary_segment column.d ds)
    × (decoded ds ≡ cells column.s)
    × IsDictionary (scalar P column.d) ds
    × (length ds.attribute_vector.ids ≡ rows)

-- the size of a chunk is that of its first segment
size-segments_at :
    {P : Platform} (build : Build) (compress : ℕ → Outcome (Segment P)) (f : ℕ → Segment P) (n : ℕ)
    → 0 < n
    → Chunk.size (record { columns = segments_at build compress f n 0 }) ≡ Segment.size (f 0)
unfolding Chunk.size segments_at
size-segments_at build compress f zero h = absurd (omega (arith, h))
size-segments_at build compress f (suc n) h = refl

pub size-dictionary :
    (P : Platform) (d : DataType) (ds : DictionarySegment (Value P d)) (rows : ℕ)
    → rows < 2 ^ 32
    → length ds.attribute_vector.ids ≡ rows
    → Segment.size {P = P} (dictionary_segment d ds) ≡ ok rows
unfolding Segment.size DictionarySegment.size AttributeVector.size
size-dictionary P d ds rows small e =
    let whole : length ds.attribute_vector.ids % 2 ^ 32 ≡ rows = omega (arith, small, e) in
    ap ok whole

module _ {P : Platform} (build : Build) (t : Table P) (chunk_id : ℕ) (c : Chunk P) (rows : ℕ)
    (at : get_chunk t chunk_id ≡ ok c) (small : rows < 2 ^ 32) where
  pub encode :
      (k : ℕ) (column : Column t c rows k)
      → (segment' : Segment P) × (compressed_segment build t chunk_id k ≡ ok segment')
        × Encoded build column segment'
  unfolding compressed_segment
  encode k column =
      let fits : length column.s.values < 2 ^ 32 = omega (arith, column.size, small) in
      let (ds, made, same, w, ids) =
        new-rows (scalar P column.d) column.laws build column.s column.valid fits column.safe in
      (
        dictionary_segment column.d ds,
        rw (column.typed, ◌>>=◌, column.known, at, column.there, column.cast, made),
        (ds, refl, same, w, ids ∙ column.size),
      )

  module _ (columns : (k : ℕ) → k < column_count t → Column t c rows k) where
    -- the segment of column `k`
    segment_of :
        (k : ℕ) → (ltb k (column_count t) ≡ true) ⊎ (ltb k (column_count t) ≡ false) → Segment P
    segment_of k (inl h) = (encode k (columns k (ltb→lt _ _ h))).0
    segment_of k (inr h) = null_pointer

    pub compressed : ℕ → Segment P
    compressed k = segment_of k (Bool-cases (ltb k (column_count t)))

    segment_of-runs :
        (k : ℕ) (b : (ltb k (column_count t) ≡ true) ⊎ (ltb k (column_count t) ≡ false))
        → k < column_count t
        → compressed_segment build t chunk_id k ≡ ok (segment_of k b)
    unfolding segment_of
    segment_of-runs k (inl h) below = (encode k (columns k (ltb→lt _ _ h))).1
    segment_of-runs k (inr h) below = absurd (ground (arith, h, below))

    compressed-runs :
        (k : ℕ) → k < column_count t → compressed_segment build t chunk_id k ≡ ok (compressed k)
    unfolding compressed
    compressed-runs k below = segment_of-runs k (Bool-cases (ltb k (column_count t))) below

    pub compressed-Encoded :
        (k : ℕ)
        → k < column_count t
        → (column : Column t c rows k) → Encoded build column (compressed k)
    compressed-Encoded k below column =
        let (segment', run, encoded) = encode k column in
        let runs = compressed-runs k below in
        let one : compressed k ≡ segment' = cc in
        (encoded.0, one ∙ encoded.1, encoded.2, encoded.3, encoded.4)

    -- the chunk of the compressed segments
    abbrev pub compressed_chunk : Chunk P
    compressed_chunk = record {
      columns =
          segments_at build (compressed_segment build t chunk_id) compressed (column_count t) 0;
    }

    pub compress_chunk-compressed :
        (schedule : List ℕ)
        → chunk_id < length t.chunks
        → IsSchedule (column_count t) schedule
        → compress_chunk build schedule chunk_id t
          ≡ ok (record t { chunks = set t.chunks chunk_id compressed_chunk })
    compress_chunk-compressed schedule below complete =
        compress_chunk-schedule build t chunk_id compressed schedule below complete compressed-runs

    pub get_segment-compressed :
        (k : ℕ) → k < column_count t → Chunk.get_segment compressed_chunk k ≡ ok (compressed k)
    unfolding Chunk.get_segment
    get_segment-compressed k below =
        let zero_add : 0 + k ≡ k = omega arith in
        rw (
          get_elem?-segments_at build (compressed_segment build t chunk_id) compressed
              (column_count t) 0 k below,
          zero_add,
        )

    pub size-compressed : 0 < column_count t → Chunk.size compressed_chunk ≡ ok rows
    size-compressed some_column =
        let (ds, made, same, w, ids) = compressed-Encoded 0 some_column (columns 0 some_column) in
        size-segments_at build (compressed_segment build t chunk_id) compressed (column_count t)
          some_column
        ∙ ap Segment.size made
        ∙ size-dictionary P (columns 0 some_column).d ds rows small ids
