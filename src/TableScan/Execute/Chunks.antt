-- ===== src/TableScan/Execute/Chunks.antt =====
-- The scan of a table of value and dictionary segments: which reference segments it makes.
use dyod_so_se.Chunk
use dyod_so_se.Chunk.{Chunk}
use dyod_so_se.DictionarySegment.Invariant.{decoded, IsDictionary}
use dyod_so_se.DictionarySegment.{DictionarySegment}
use dyod_so_se.Outcome.{ok, ◌>>=◌, Build, subscript}
use dyod_so_se.Prelude.{
  take_all, ◌%◌, ℕ, suc, ◌^◌, ◌<◌, ◌≡◌, refl, Bool, false, List, [], ◌∷◌, Option, none, some,
  length, ◌==◌, arith,
}
use dyod_so_se.Prelude.Text.{Text}
use dyod_so_se.Reference.{Store}
use dyod_so_se.Scalar.{IsLawful}
use dyod_so_se.Segment.{Segment, ReferenceSegment, as_value, as_dictionary}
use dyod_so_se.Table
use dyod_so_se.Table.{Table}
use dyod_so_se.TableScan.Execute.{Scan, scan_segment, keep_found, scan_chunks, on_execute}
use dyod_so_se.TableScan.Segments.{tablescan_value_segment-select, tablescan_dict_segment-select}
use dyod_so_se.TableScan.Selection.{select}
use dyod_so_se.TableScan.{create_scan_operation}
use dyod_so_se.Types.{
  Platform, DataType, Value, scalar, type_cast?, variant_is_null, resolve_data_type,
}
use dyod_so_se.ValueSegment.Invariant.{cells, IsValid}
use dyod_so_se.ValueSegment.{ValueSegment}

-- The rows of a segment that stores values of type `d` itself.
pub data HasRows {P : Platform} (d : DataType) (segment : Segment P)
    (rows : List (Option (Value P d))) : Type 0 where
  by_values :
      (s : ValueSegment (Value P d))
      → as_value d segment ≡ some s
      → IsValid (scalar P d) s
      → length s.values < 2 ^ 32
      → cells s ≡ rows
      → HasRows d segment rows
  by_dictionary :
      (s : DictionarySegment (Value P d))
      → as_value d segment ≡ none
      → as_dictionary d segment ≡ some s
      → IsDictionary (scalar P d) s
      → decoded s ≡ rows
      → HasRows d segment rows

module _ {P : Platform} (build : Build) (store : Store P) (scan : Scan P) (d : DataType)
    (laws : IsLawful (scalar P d)) (search : Value P d)
    (castable : type_cast? P d scan.search_value ≡ some search) where
  abbrev pub passes : Value P d → Bool
  passes v = create_scan_operation (scalar P d) scan.scan_type v search

  scan_segment-select :
      (input chunk_id : ℕ) (segment : Segment P) (rows : List (Option (Value P d)))
      → HasRows d segment rows
      → scan_segment build store scan d input segment chunk_id
        ≡ ok (input, select passes chunk_id 0 rows)
  unfolding scan_segment
  scan_segment-select input chunk_id segment rows (by_values s cast valid small e) = rw (
    cast,
    scan_segment,
    tablescan_value_segment-select P d laws build scan.scan_type scan.search_value search castable
        chunk_id s valid small,
    ◌>>=◌,
    e,
  )
  scan_segment-select input chunk_id segment rows (by_dictionary s miss cast w e) = rw (
    miss,
    scan_segment,
    cast,
    tablescan_dict_segment-select P d laws build scan.scan_type scan.search_value search castable
        chunk_id s w,
    ◌>>=◌,
    e,
  )

  -- the rows of the scanned column, chunk by chunk
  abbrev pub ColumnRows : List (Chunk P) → List (List (Option (Value P d))) → Type 0
  ColumnRows [] [] = Unit
  ColumnRows [] (r ∷ rs) = ⊥
  ColumnRows (c ∷ cs) [] = ⊥
  ColumnRows (c ∷ cs) (r ∷ rs) =
      (segment : Segment P) × (Chunk.size c ≡ ok (length r))
      × (Chunk.get_segment c scan.column_id ≡ ok segment)
      × HasRows d segment r
      × ColumnRows cs rs

  -- One reference segment for each chunk with a row that passes, with the positions of those rows.
  unfoldable pub found_in : ℕ → ℕ → List (List (Option (Value P d))) → List ReferenceSegment
  found_in input chunk_id [] = []
  found_in input chunk_id (r ∷ rs) =
      keep_found build store scan d input (select passes chunk_id 0 r)
        (found_in input (suc chunk_id) rs)

  scan_chunks-found_in :
      (input chunk_id : ℕ) (cs : List (Chunk P)) (rs : List (List (Option (Value P d))))
      → ColumnRows cs rs
      → scan_chunks build store scan d input chunk_id cs ≡ ok (found_in input chunk_id rs)
  unfolding scan_chunks found_in keep_found select
  scan_chunks-found_in input chunk_id [] [] h = refl
  scan_chunks-found_in input chunk_id [] (r ∷ rs) h = absurd h
  scan_chunks-found_in input chunk_id (c ∷ cs) [] h = absurd h
  scan_chunks-found_in input chunk_id (c ∷ cs) ([] ∷ rs) (segment, size, there, rows, more) =
      rw (size, ◌>>=◌) (scan_chunks-found_in input (suc chunk_id) cs rs more)
  scan_chunks-found_in input chunk_id (c ∷ cs) ((x ∷ r) ∷ rs) (segment, size, there, rows, more) =
      let filled : (length (x ∷ r) == 0) ≡ false = ground arith in
      rw (
        size,
        ◌>>=◌,
        filled,
        scan_chunks,
        there,
        scan_segment-select input chunk_id segment (x ∷ r) rows,
        scan_chunks-found_in input (suc chunk_id) cs rs more,
      )

  -- For a search value that is not null and casts to the type of the scanned column, which has a
  -- lawful order, the scan of a table of fewer than 2 ^ 32 chunks, each of which stores that column
  -- in a valid value segment or a well-formed dictionary segment with as many rows as the chunk,
  -- makes the table from one reference segment for each chunk with a row that passes, in the order
  -- of the chunks and with the positions of those rows.
  pub on_execute-found_in :
      (input : ℕ) (t : Table P) (type : Text) (rs : List (List (Option (Value P d))))
      → subscript store input ≡ ok t
      → Table.column_type t scan.column_id ≡ ok type
      → variant_is_null P scan.search_value ≡ false
      → resolve_data_type type ≡ some d
      → length t.chunks < 2 ^ 32
      → ColumnRows t.chunks rs
      → on_execute build store scan input ≡ Table.from_references t (found_in input 0 rs)
  unfolding on_execute Table.chunk_count
  on_execute-found_in input t type rs there typed not_null resolved small rows =
      let whole : length t.chunks % 2 ^ 32 ≡ length t.chunks = omega arith in
      rw (
        there,
        ◌>>=◌,
        typed,
        not_null,
        resolved,
        whole,
        take_all (length t.chunks) t.chunks (omega arith),
        scan_chunks-found_in input 0 t.chunks rs rows,
      )
