-- ===== src/TableScan/Execute/Compressed.antt =====
-- A scan before and after the compression of a chunk.
use dyod_so_se.Chunk
use dyod_so_se.Chunk.{Chunk}
use dyod_so_se.Outcome.{ok, Build, subscript}
use dyod_so_se.Prelude.Text.{Text}
use dyod_so_se.Prelude.{
  ℕ, zero, suc, ◌^◌, ◌<◌, ◌≡◌, refl, ap, sym, ◌∙◌, false, List, [], ◌∷◌, Option, some, length, set,
  length-set, arith, get_elem?,
}
use dyod_so_se.Reference.{Store}
use dyod_so_se.Scalar.{IsLawful}
use dyod_so_se.Segment.{Segment, ReferenceSegment, as_value, dictionary_segment}
use dyod_so_se.Table.Compress.Chunks.{
  Column, compressed_chunk, compress_chunk-compressed, compressed-Encoded, get_segment-compressed,
  size-compressed,
}
use dyod_so_se.Table.Compress.Rows.{as_dictionary_self, as_value-dictionary}
use dyod_so_se.Table.Compress.Schedule.{IsSchedule}
use dyod_so_se.Table.Compress.{compress_chunk}
use dyod_so_se.Table
use dyod_so_se.Table.{Table, get_chunk, column_count}
use dyod_so_se.TableScan.Execute.Chunks.{
  HasRows, by_values, by_dictionary, ColumnRows, found_in, on_execute-found_in,
}
use dyod_so_se.TableScan.Execute.{Scan, keep_found, on_execute}
use dyod_so_se.Types.{
  Platform, DataType, Value, scalar, type_cast?, variant_is_null, resolve_data_type,
}
use dyod_so_se.ValueSegment.Invariant.{cells, length-cells}
use dyod_so_se.ValueSegment.Reads.{get_elem?-below}
use dyod_so_se.ValueSegment.{ValueSegment}
use mathlib.Core.Path.{subst}

-- a segment that is a value segment has the rows of its cells
cells-HasRows :
    {P : Platform} (d : DataType) (segment : Segment P) (s : ValueSegment (Value P d))
    (rows : List (Option (Value P d)))
    → as_value d segment ≡ some s
    → HasRows d segment rows
    → cells s ≡ rows
cells-HasRows d segment s rows cast (by_values s' cast' valid small e) =
    let same : s ≡ s' = cc in ap cells same ∙ e
cells-HasRows d segment s rows cast (by_dictionary s' miss cast' w e) = cc

module _ {P : Platform} (build : Build) (scan : Scan P) (d : DataType)
    (laws : IsLawful (scalar P d)) (search : Value P d)
    (castable : type_cast? P d scan.search_value ≡ some search) where
  -- what a scan finds does not depend on the store
  found_in-store :
      (store store' : Store P) (input chunk_id : ℕ) (rs : List (List (Option (Value P d))))
      → found_in build store scan d laws search castable input chunk_id rs
        ≡ found_in build store' scan d laws search castable input chunk_id rs
  unfolding found_in keep_found
  found_in-store store store' input chunk_id [] = refl
  found_in-store store store' input chunk_id (r ∷ rs) =
      rw (found_in-store store store' input (suc chunk_id) rs)

  ColumnRows-store :
      (store store' : Store P) (cs : List (Chunk P)) (rs : List (List (Option (Value P d))))
      → ColumnRows build store scan d laws search castable cs rs
      → ColumnRows build store' scan d laws search castable cs rs
  ColumnRows-store store store' [] [] h = tt
  ColumnRows-store store store' [] (r ∷ rs) h = absurd h
  ColumnRows-store store store' (c ∷ cs) [] h = absurd h
  ColumnRows-store store store' (c ∷ cs) (r ∷ rs) (segment, size, there, rows, more) =
      (segment, size, there, rows, ColumnRows-store store store' cs rs more)

  -- a chunk of the same rows may stand in the place of another
  ColumnRows-set :
      (store : Store P) (cs : List (Chunk P)) (rs : List (List (Option (Value P d)))) (i : ℕ)
      (c c' : Chunk P)
      → ColumnRows build store scan d laws search castable cs rs
      → get_elem? cs i ≡ some c
      → ((r : List (Option (Value P d))) (segment : Segment P)
          → Chunk.size c ≡ ok (length r)
          → Chunk.get_segment c scan.column_id ≡ ok segment
          → HasRows d segment r
          → (segment' : Segment P) × (Chunk.size c' ≡ ok (length r))
            × (Chunk.get_segment c' scan.column_id ≡ ok segment')
            × HasRows d segment' r)
      → ColumnRows build store scan d laws search castable (set cs i c') rs
  ColumnRows-set store [] [] i c c' h e f = cc
  ColumnRows-set store [] (r ∷ rs) i c c' h e f = absurd h
  ColumnRows-set store (k ∷ ks) [] i c c' h e f = absurd h
  ColumnRows-set store (k ∷ ks) (r ∷ rs) zero c c' (segment, size, there, rows, more) e f =
      let same : c ≡ k = cc in
      let (segment', size', there', rows') = f r segment (rw same size) (rw same there) rows in
      (segment', size', there', rows', more)
  ColumnRows-set store (k ∷ ks) (r ∷ rs) (suc i) c c' (segment, size, there, rows, more) e f =
      (segment, size, there, rows, ColumnRows-set store ks rs i c c' more e f)

  module _ (t : Table P) (input chunk_id : ℕ) (c : Chunk P) (n : ℕ)
      (at : get_chunk t chunk_id ≡ ok c) (small : n < 2 ^ 32)
      (columns : (k : ℕ) → k < column_count t → Column t c n k)
      (here : scan.column_id < column_count t) where
    -- the table with the chunk compressed
    abbrev pub table_after : Table P
    table_after = record t {
      chunks = set t.chunks chunk_id (compressed_chunk build t chunk_id c n at small columns);
    }

    -- what the scan of the compressed chunk meets in the place of rows of type `type`
    abbrev Replaced : DataType → Type 0
    Replaced type =
        (r : List (Option (Value P type))) (segment : Segment P)
        → Chunk.size c ≡ ok (length r)
        → Chunk.get_segment c scan.column_id ≡ ok segment
        → HasRows type segment r
        → (segment' : Segment P) × (Chunk.size
              (compressed_chunk build t chunk_id c n at small columns)
            ≡ ok (length r))
          × (Chunk.get_segment (compressed_chunk build t chunk_id c n at small columns)
                scan.column_id
              ≡ ok segment')
          × HasRows type segment' r

    replaced : (column : Column t c n scan.column_id) → Replaced column.d
    replaced column r segment size there rows =
        let same : segment ≡ column.segment = cc (there, column.there) in
        let kept : cells column.s ≡ r =
          cells-HasRows column.d column.segment column.s r column.cast (rw same at rows) in
        let count : n ≡ length r =
          sym column.size
          ∙ sym (length-cells (scalar P column.d) column.s column.valid)
          ∙ ap length kept in
        let (ds, made, same_cells, w, ids) =
          compressed-Encoded build t chunk_id c n at small columns scan.column_id here column in
        (
          dictionary_segment column.d ds,
          size-compressed build t chunk_id c n at small columns (omega (arith, here)) ∙ ap ok count,
          get_segment-compressed build t chunk_id c n at small columns scan.column_id here
              ∙ ap ok made,
          by_dictionary ds (as_value-dictionary P column.d ds) (as_dictionary_self P column.d ds) w
              (same_cells ∙ kept),
        )

    chunk_there : get_elem? t.chunks chunk_id ≡ some c
    unfolding get_chunk
    chunk_there = ground (arith, at)

    same_type :
        (type : Text) (column : Column t c n scan.column_id)
        → Table.column_type t scan.column_id ≡ ok type
        → resolve_data_type type ≡ some d
        → column.d ≡ d
    unfolding Table.column_type
    same_type type column typed known =
        let one : column.type ≡ type = ground (arith, typed, column.typed) in
        let found : resolve_data_type type ≡ some column.d = rw one at column.known in cc

    ColumnRows-compressed :
        (store store' : Store P) (type : Text) (rs : List (List (Option (Value P d))))
        → Table.column_type t scan.column_id ≡ ok type
        → resolve_data_type type ≡ some d
        → ColumnRows build store scan d laws search castable t.chunks rs
        → ColumnRows build store' scan d laws search castable table_after.chunks rs
    ColumnRows-compressed store store' type rs typed known rows =
        let column = columns scan.column_id here in
        ColumnRows-set store' t.chunks rs chunk_id c
          (compressed_chunk build t chunk_id c n at small columns)
          (ColumnRows-store store store' t.chunks rs rows) chunk_there
          (subst Replaced (same_type type column typed known) (replaced column))

    from_references-after :
        (found : List ReferenceSegment)
        → Table.from_references table_after found ≡ Table.from_references t found
    unfolding Table.from_references column_count
    from_references-after [] = refl
    from_references-after (r ∷ rs) = refl

    -- Compressing a chunk does not change what a scan returns. Where each column of a chunk of a
    -- table has a known type of a lawful order and holds a valid and null-safe value segment, all
    -- with the same number of rows, fewer than 2 ^ 32, and each column has a thread and no thread
    -- another column, `compress_chunk` succeeds whatever the order in which the threads write; and
    -- a scan of a column of that table, whose fewer than 2 ^ 32 chunks store the column in valid
    -- value segments or well-formed dictionary segments, for a search value that is not null and
    -- casts to the column's type, has the same outcome on the compressed table as on the table.
    pub on_execute-compressed :
        (schedule : List ℕ) (store store' : Store P) (type : Text)
        (rs : List (List (Option (Value P d))))
        → IsSchedule (column_count t) schedule
        → subscript store input ≡ ok t
        → subscript store' input ≡ ok table_after
        → Table.column_type t scan.column_id ≡ ok type
        → variant_is_null P scan.search_value ≡ false
        → resolve_data_type type ≡ some d
        → length t.chunks < 2 ^ 32
        → ColumnRows build store scan d laws search castable t.chunks rs
        → (compress_chunk build schedule chunk_id t ≡ ok table_after)
          × (on_execute build store' scan input ≡ on_execute build store scan input)
    unfolding Table.column_type
    on_execute-compressed schedule store store' type rs complete there there' typed not_null known
          few rows =
        let below : chunk_id < length t.chunks = get_elem?-below t.chunks chunk_id c chunk_there in
        let few' : length table_after.chunks < 2 ^ 32 = omega (
          arith,
          few,
          length-set t.chunks chunk_id (compressed_chunk build t chunk_id c n at small columns),
        ) in
        (
          compress_chunk-compressed build t chunk_id c n at small columns schedule below complete,
          on_execute-found_in build store' scan d laws search castable input table_after type rs
                there' typed not_null known few'
                (ColumnRows-compressed store store' type rs typed known rows)
              ∙ from_references-after (found_in build store' scan d laws search castable input 0 rs)
              ∙ ap (Table.from_references t) (found_in-store store' store input 0 rs)
              ∙ sym (
                  on_execute-found_in build store scan d laws search castable input t type rs there
                    typed not_null known few rows),
        )
