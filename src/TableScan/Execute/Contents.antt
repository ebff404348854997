-- ===== src/TableScan/Execute/Contents.antt =====
-- What a scan finds, seen on the rows that a table stores.
use dyod_so_se.Chunk
use dyod_so_se.Chunk.{Chunk}
use dyod_so_se.Outcome.{ok, Build, subscript}
use dyod_so_se.Prelude.{
  ℕ, suc, ◌+◌, ◌^◌, ◌<◌, ◌≤◌, ◌≡◌, refl, sym, ap, ◌∙◌, Bool, false, List, [], ◌∷◌, ◌++◌, Option,
  some, map, length, length-map, get_elem?, All, arith, ltb,
}
use dyod_so_se.Prelude.Text.{Text}
use dyod_so_se.Reference.{Store}
use dyod_so_se.Scalar.{IsLawful}
use dyod_so_se.Segment.{ReferenceSegment}
use dyod_so_se.Table
use dyod_so_se.Table.Contents.Cells.{map-append, size-Holds, get_segment-there}
use dyod_so_se.Table.Contents.Columns.{column_at, type_at}
use dyod_so_se.Table.Contents.{
  Row, Schema, row_in, row_at, concat, ChunksHold, no_chunk, chunk, Stores,
}
use dyod_so_se.Table.{Table}
use dyod_so_se.TableScan.Execute.Chunks.{ColumnRows, found_in, on_execute-found_in}
use dyod_so_se.TableScan.Execute.{Scan, on_execute}
use dyod_so_se.TableScan.Selection.{select}
use dyod_so_se.TableScan.{create_scan_operation}
use dyod_so_se.Types.{
  Platform, DataType, Value, scalar, type_cast?, variant_is_null, resolve_data_type, RowId,
}
use dyod_so_se.ValueSegment.Reads.{as_variant, get_elem?-below}
use dyod_so_se.TableScan.Execute.Kept.{
  positions, IsShort, length-select, positions-keep_found, keep_found-table, keep_found-IsShort,
}
use dyod_so_se.TableScan.Execute.Passing.{
  filter, filter-append, Columns, row_passes, moved, select-names,
}

module _ {P : Platform} (build : Build) (store : Store P) (scan : Scan P) where
  module _ (d : DataType) (laws : IsLawful (scalar P d)) (search : Value P d)
      (castable : type_cast? P d scan.search_value ≡ some search) where
    abbrev pub passes_scan : Row P → Bool
    passes_scan =
        row_passes P d scan.column_id
          (λ v. create_scan_operation (scalar P d) scan.scan_type v search)

    found_in-names :
        (input chunk_id : ℕ) (look : RowId → Option (Row P)) (parts : List (List (Row P)))
        (rs : List (List (Option (Value P d))))
        → Columns P d scan.column_id parts rs
        → ((i j : ℕ) (part : List (Row P)) (row : Row P)
            → get_elem? parts i ≡ some part
            → get_elem? part j ≡ some row
            → look (record { chunk_id = chunk_id + i; chunk_offset = j }) ≡ some row)
        → map look (positions (found_in build store scan d laws search castable input chunk_id rs))
          ≡ map some (filter passes_scan (concat parts))
    unfolding found_in
    found_in-names input chunk_id look [] [] h looks = refl
    found_in-names input chunk_id look [] (r ∷ rs) h looks = absurd h
    found_in-names input chunk_id look (part ∷ parts) [] h looks = absurd h
    found_in-names input chunk_id look (part ∷ parts) (r ∷ rs) h looks =
        let passes : Value P d → Bool =
          λ v. create_scan_operation (scalar P d) scan.scan_type v search in
        let here =
          select-names P d scan.column_id passes look chunk_id 0 part r h.0
            (λ j row e. moved P look (omega arith) (omega arith) ∙ looks 0 j part row refl e) in
        let others =
          found_in-names input (suc chunk_id) look parts rs h.1
            (λ i j p row e e'. moved P look (omega arith) refl ∙ looks (suc i) j p row e e') in
        ap (map look) (
          positions-keep_found build store scan d input (select passes chunk_id 0 r)
            (found_in build store scan d laws search castable input (suc chunk_id) rs))
        ∙ map-append look (select passes chunk_id 0 r) _
        ∙ ap
            (λ xs.
              xs
              ++ map look (
                  positions
                    (found_in build store scan d laws search castable input (suc chunk_id) rs)))
            here
        ∙ ap (λ xs. map some (filter passes_scan part) ++ xs) others
        ∙ sym (map-append some (filter passes_scan part) (filter passes_scan (concat parts)))
        ∙ ap (map some) (sym (filter-append passes_scan part (concat parts)))

    -- the columns that the scan reads
    scanned :
        (schema : Schema) (target : ℕ) (cs : List (Chunk P)) (parts : List (List (Row P)))
        (b : Bool)
        → ChunksHold schema target cs parts
        → target < 2 ^ 32
        → get_elem? schema scan.column_id ≡ some (d, b)
        → (rs : List (List (Option (Value P d)))) × ColumnRows build store scan d laws search
            castable cs rs
          × Columns P d scan.column_id parts rs
    scanned schema target [] [] b no_chunk small e = ([], tt, tt)
    scanned schema target [] (part ∷ parts) b h small e = elim h [ ]
    scanned schema target (c ∷ cs) [] b h small e = elim h [ ]
    scanned schema target (c ∷ cs) (part ∷ parts) b (chunk k holds fits more) small e =
        let (segment, r, there, stored, same) =
          column_at scan.column_id d b holds e (omega (arith, fits, small)) in
        let count : length part ≡ length r =
          sym (length-map part (λ row. get_elem? row scan.column_id))
          ∙ ap length same
          ∙ length-map r (λ v. some (as_variant P d v)) in
        let size : Chunk.size c ≡ ok (length r) =
          size-Holds scan.column_id (d, b) holds e ∙ ap ok (omega (arith, count, fits, small)) in
        let (rs, rows, cols) = scanned schema target cs parts b more small e in
        (
          r ∷ rs,
          (segment, size, get_segment-there c scan.column_id segment there, stored, rows),
          (same, cols),
        )

    found_in-table :
        (input chunk_id : ℕ) (rs : List (List (Option (Value P d))))
        → All
            (λ r. r.referenced_table ≡ input)
            (found_in build store scan d laws search castable input chunk_id rs)
    unfolding found_in
    found_in-table input chunk_id [] = tt
    found_in-table input chunk_id (r ∷ rs) =
        keep_found-table build store scan d input _ _ (found_in-table input (suc chunk_id) rs)

    found_in-IsShort :
        (schema : Schema) (target : ℕ) (cs : List (Chunk P)) (parts : List (List (Row P)))
        (input chunk_id : ℕ) (rs : List (List (Option (Value P d))))
        → ChunksHold schema target cs parts
        → target < 2 ^ 32
        → Columns P d scan.column_id parts rs
        → All IsShort (found_in build store scan d laws search castable input chunk_id rs)
          × (length (found_in build store scan d laws search castable input chunk_id rs)
              ≤ length cs)
    unfolding found_in
    found_in-IsShort schema target [] [] input chunk_id [] h small cols = (tt, omega arith)
    found_in-IsShort schema target [] [] input chunk_id (r ∷ rs) h small cols = absurd cols
    found_in-IsShort schema target [] (part ∷ parts) input chunk_id rs h small cols = elim h [ ]
    found_in-IsShort schema target (c ∷ cs) [] input chunk_id rs h small cols = elim h [ ]
    found_in-IsShort schema target (c ∷ cs) (part ∷ parts) input chunk_id [] h small cols =
        absurd cols
    found_in-IsShort schema target (c ∷ cs) (part ∷ parts) input chunk_id (r ∷ rs)
          (chunk k holds fits more) small cols =
        let (short, few) =
          found_in-IsShort schema target cs parts input (suc chunk_id) rs more small cols.1 in
        let count : length part ≡ length r =
          sym (length-map part (λ row. get_elem? row scan.column_id))
          ∙ ap length cols.0
          ∙ length-map r (λ v. some (as_variant P d v)) in
        let passes : Value P d → Bool =
          λ v. create_scan_operation (scalar P d) scan.scan_type v search in
        let (short', few') =
          keep_found-IsShort build store scan d input (select passes chunk_id 0 r)
            (found_in build store scan d laws search castable input (suc chunk_id) rs)
            (omega (arith, length-select passes chunk_id 0 r, count, fits, small)) short in
        (short', omega (arith, few, few'))

    pub type_of_column :
        (t : Table P) (schema : Schema) (b : Bool) (rows : List (Row P))
        → Stores schema t rows
        → get_elem? schema scan.column_id ≡ some (d, b)
        → (type : Text) × (Table.column_type t scan.column_id ≡ ok type)
          × (resolve_data_type type ≡ some d)
    unfolding Table.column_type
    type_of_column t schema b rows stored e =
        let (type, typed, known) =
          type_at t.column_types t.column_nullable 0 schema scan.column_id d b stored.spells e in
        let below = get_elem?-below schema scan.column_id (d, b) e in
        let inside : ltb (length t.column_types) scan.column_id ≡ false =
          ground (arith, below, stored.complete) in
        (type, rw inside (ap (subscript t.column_types) (omega arith) ∙ typed), known)

    named :
        (parts : List (List (Row P))) (i j : ℕ) (part : List (Row P)) (row : Row P)
        → get_elem? parts i ≡ some part
        → get_elem? part j ≡ some row
        → row_at P parts (record { chunk_id = 0 + i; chunk_offset = j }) ≡ some row
    named parts i j part row e e' =
        ap (λ k. row_in P j (get_elem? parts k)) (omega arith) ∙ ap (row_in P j) e ∙ e'

    -- A scan finds the rows that pass. On a table of fewer than 2 ^ 32 chunks that stores rows, for
    -- a search value that is not null and casts to the type of the scanned column, which has a
    -- lawful order, `_on_execute` makes its table from reference segments into it, whose positions
    -- in order name exactly the rows whose value in the column is not null and passes, in the order
    -- of the rows.
    pub on_execute-filter :
        (t : Table P) (input : ℕ) (schema : Schema) (b : Bool) (rows : List (Row P))
        (stored : Stores schema t rows)
        → subscript store input ≡ ok t
        → get_elem? schema scan.column_id ≡ some (d, b)
        → variant_is_null P scan.search_value ≡ false
        → length t.chunks < 2 ^ 32
        → (found : List ReferenceSegment) × (on_execute build store scan input
            ≡ Table.from_references t found)
          × All (λ r. r.referenced_table ≡ input) found
          × (map (row_at P stored.parts) (positions found) ≡ map some (filter passes_scan rows))
          × All IsShort found
          × (length found ≤ length t.chunks)
    on_execute-filter t input schema b rows stored there e not_null few =
        let (rs, cols, parts) =
          scanned schema t.target_chunk_size t.chunks stored.parts b stored.chunks stored.bounded
            e in
        let (type, typed, known) = type_of_column t schema b rows stored e in
        let (short, fewer) =
          found_in-IsShort schema t.target_chunk_size t.chunks stored.parts input 0 rs stored.chunks
            stored.bounded parts in
        (
          found_in build store scan d laws search castable input 0 rs,
          on_execute-found_in build store scan d laws search castable input t type rs there typed
              not_null known few cols,
          found_in-table input 0 rs,
          found_in-names input 0 (row_at P stored.parts) stored.parts rs parts
                (λ i j part row e e'. named stored.parts i j part row e e')
              ∙ ap (λ xs. map some (filter passes_scan xs)) stored.contents,
          short,
          fewer,
        )
