-- ===== src/Table/Compress/Rows.antt =====
-- A thread of `compress_chunk` keeps the rows of its column.
use dyod_so_se.Chunk
use dyod_so_se.Chunk.{Chunk}
use dyod_so_se.DictionarySegment.Invariant.{IsNullSafe}
use dyod_so_se.DictionarySegment.RoundTrip.{new-rows}
use dyod_so_se.DictionarySegment.{DictionarySegment}
use dyod_so_se.Outcome.{ok, ◌>>=◌, Build, subscript}
use dyod_so_se.Prelude.Text.{Text}
use dyod_so_se.Prelude.{ℕ, ◌^◌, ◌<◌, ◌≡◌, refl, some, none, length}
use dyod_so_se.Scalar.{IsLawful}
use dyod_so_se.Segment.{Segment, value_segment, dictionary_segment, as_value, as_dictionary}
use dyod_so_se.Table.Compress.{compressed_segment}
use dyod_so_se.Table.{Table, get_chunk}
use dyod_so_se.TableScan.Execute.Chunks.{HasRows, by_dictionary}
use dyod_so_se.Types.{
  Platform, DataType, Value, scalar, resolve_data_type, int, long, float, double, string,
}
use dyod_so_se.ValueSegment.Invariant.{cells, IsValid}
use dyod_so_se.ValueSegment.{ValueSegment}

module _ (P : Platform) where
  pub as_dictionary_self :
      (d : DataType) (s : DictionarySegment (Value P d))
      → as_dictionary {P = P} d (dictionary_segment d s) ≡ some s
  as_dictionary_self int s = refl
  as_dictionary_self long s = refl
  as_dictionary_self float s = refl
  as_dictionary_self double s = refl
  as_dictionary_self string s = refl

  pub as_value_self :
      (d : DataType) (s : ValueSegment (Value P d))
      → as_value {P = P} d (value_segment d s) ≡ some s
  as_value_self int s = refl
  as_value_self long s = refl
  as_value_self float s = refl
  as_value_self double s = refl
  as_value_self string s = refl

  pub as_value-dictionary :
      (d : DataType) (s : DictionarySegment (Value P d))
      → as_value {P = P} d (dictionary_segment d s) ≡ none
  as_value-dictionary int s = refl
  as_value-dictionary long s = refl
  as_value-dictionary float s = refl
  as_value-dictionary double s = refl
  as_value-dictionary string s = refl

module _ {P : Platform} where
  -- For a column with a known type of a lawful order whose segment in the chunk is a valid and
  -- null-safe value segment of fewer than 2 ^ 32 values, the thread of `compress_chunk` succeeds,
  -- and its segment stores the same rows.
  pub compressed_segment-HasRows :
      (build : Build) (t : Table P) (chunk_id column_id : ℕ) (type : Text) (d : DataType)
      (c : Chunk P) (segment : Segment P) (s : ValueSegment (Value P d))
      → subscript t.column_types column_id ≡ ok type
      → resolve_data_type type ≡ some d
      → IsLawful (scalar P d)
      → get_chunk t chunk_id ≡ ok c
      → Chunk.get_segment c column_id ≡ ok segment
      → as_value d segment ≡ some s
      → IsValid (scalar P d) s
      → IsNullSafe (scalar P d) s
      → length s.values < 2 ^ 32
      → (segment' : Segment P) × (compressed_segment build t chunk_id column_id ≡ ok segment')
        × HasRows d segment' (cells s)
  unfolding compressed_segment
  compressed_segment-HasRows build t chunk_id column_id type d c segment s typed resolved laws there
        at cast valid safe small =
      let (ds, made, rows, w, _) = new-rows (scalar P d) laws build s valid small safe in
      (
        dictionary_segment d ds,
        rw (typed, ◌>>=◌, resolved, there, at, cast, made),
        by_dictionary ds (as_value-dictionary P d ds) (as_dictionary_self P d ds) w rows,
      )
