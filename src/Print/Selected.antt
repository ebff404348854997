-- ===== src/Print/Selected.antt =====
-- `Print` on the output of a query: it writes the rows that the scans select.

use dyod_so_se.Chunk.{Chunk}
use dyod_so_se.Outcome.{ok, Build, subscript}
use dyod_so_se.Prelude.{
  ℕ, zero, suc, ◌^◌, ◌<◌, ◌≡◌, refl, sym, ap, ◌∙◌, true, false, List, [], ◌∷◌, ◌++◌, Option, some,
  map, length, length-map, get_elem?, All, arith,
}
use dyod_so_se.DictionarySegment.Reads.{get_elem?-map, All-get_elem?}
use dyod_so_se.Print.Fits.{Readable}
use dyod_so_se.Print.Layout.{table_text}
use dyod_so_se.Print.Output.{print_table-ChunksRead, print-print_table}
use dyod_so_se.Print.Readings.{ReadsAs, ChunksRead, length-row}
use dyod_so_se.Print.Widths.{min_width, max_width, column_string_widths}
use dyod_so_se.Print.{print}
use dyod_so_se.Reference.{Store}
use dyod_so_se.Segment.{ReferenceSegment}
use dyod_so_se.Table.Contents.Reads.{named_part, chunk_at, map-get_elem?}
use dyod_so_se.Table.Contents.{Row, Schema, concat, row_at, Stores}
use dyod_so_se.Table.{Table, reference_columns}
use dyod_so_se.TableScan.Execute.Again.{split_names}
use dyod_so_se.TableScan.Execute.Conditions.{Scanned, Scanned-Selection}
use dyod_so_se.TableScan.Execute.Kept.{positions, IsShort}
use dyod_so_se.TableScan.Execute.Output.{cell-reference_columns}
use dyod_so_se.TableScan.Execute.OutputChunks.{
  output_chunk, OutputChunks, output_chunk-size, from_references-OutputChunks,
}
use dyod_so_se.TableScan.Execute.Passing.{filter}
use dyod_so_se.TableScan.Execute.Queries.{Query, takes_all, Selection}
use dyod_so_se.Types.{Platform, RowId, variant_is_null}
use dyod_so_se.ValueSegment.Reads.{get_elem?-below}

All-split {ℓ κ} :
    {A : Type ℓ} (Q : A → Type κ) (xs ys : List A) → All Q (xs ++ ys) → All Q xs × All Q ys
All-split Q [] ys h = (tt, h)
All-split Q (x ∷ xs) ys h = let (front, back) = All-split Q xs ys h.1 in ((h.0, front), back)

length-reference_columns :
    (P : Platform) (r : ReferenceSegment) (n i : ℕ) → length (reference_columns {P = P} r n i) ≡ n
unfolding reference_columns
length-reference_columns P r zero i = refl
length-reference_columns P r (suc n) i = ap suc (length-reference_columns P r n (suc i))

module _ {P : Platform} (build : Build) (store : Store P) (t : Table P) (input : ℕ)
    (schema : Schema) (rows : List (Row P)) (stored : Stores schema t rows)
    (there : subscript store input ≡ ok t) (few : length t.chunks < 2 ^ 32)
    (filled : 0 < length schema) (depth : ℕ) where
  abbrev look : RowId → Option (Row P)
  look = row_at P stored.parts

  -- a row that a position names has a value for each column
  named_row-wide : (p : RowId) (row : Row P) → look p ≡ some row → length row ≡ length schema
  named_row-wide p row named =
      let (part, part_there, row_there) =
        named_part build store t schema rows stored few p row named in
      let (c, k, c_there, holds, fits) =
        chunk_at schema t.target_chunk_size t.chunks stored.parts p.chunk_id part stored.chunks
          part_there in
      length-row p.chunk_offset row holds row_there

  -- the position of a row that the positions name
  position_at :
      (ps : List RowId) (named : List (Row P)) (i : ℕ) (row : Row P)
      → map look ps ≡ map some named
      → get_elem? named i ≡ some row
      → (p : RowId) × (get_elem? ps i ≡ some p) × (look p ≡ some row)
  position_at ps named i row names at =
      let (p, p_there, same) =
        get_elem?-map look ps i (some row)
          (ap (λ xs. get_elem? xs i) names ∙ map-get_elem? some named i row at) in
      (p, p_there, same)

  output_chunk-ReadsAs :
      (r : ReferenceSegment) (part : List (Row P))
      → r.referenced_table ≡ input
      → IsShort r
      → map look r.pos_list ≡ map some part
      → Readable P true part
      → ReadsAs build store (suc depth) (length schema) (output_chunk (length schema) r) part
  output_chunk-ReadsAs r part address short names known =
      let count : length r.pos_list ≡ length part =
        sym (length-map r.pos_list look) ∙ ap length names ∙ length-map part some in
      record {
        sized = λ _. output_chunk-size P (length schema) r filled short ∙ ap ok count;
        columns = length-reference_columns P r (length schema) 0;
        short = omega (arith, count, short.1);
        wide = λ i row at.
            let (p, p_there, named) = position_at r.pos_list part i row names at in
            named_row-wide p row named;
        reads = λ i k row v at value.
            let (p, p_there, named) = position_at r.pos_list part i row names at in
            cell-reference_columns build store t input schema rows stored there few r p row i k
              depth v address p_there named
              (omega (arith, get_elem?-below row k v value, named_row-wide p row named)) value
              (All-get_elem? (λ w. variant_is_null P w ≡ false) row k v
                (All-get_elem? (λ z. All (λ w. variant_is_null P w ≡ false) z) part i row known at)
                value);
      }

  -- the chunks of a selection read as the selected rows
  found-ChunksRead :
      (found : List ReferenceSegment) (selected : List (Row P))
      → All (λ r. r.referenced_table ≡ input) found
      → All IsShort found
      → map look (positions found) ≡ map some selected
      → Readable P true selected
      → (parts : List (List (Row P))) × (concat parts ≡ selected)
        × ChunksRead build store
            (suc depth)
            (length schema)
            (map (output_chunk (length schema)) found)
            parts
  found-ChunksRead [] [] tables short names known = ([], refl, tt)
  found-ChunksRead [] (row ∷ selected) tables short names known = cc
  found-ChunksRead (r ∷ found) selected (table, tables) (brief, short) names known =
      let (front, back, whole, here, others) =
        split_names look r.pos_list (positions found) selected names in
      let (known_front, known_back) = All-split _ front back (rw whole at known) in
      let (parts, all, reads) = found-ChunksRead found back tables short others known_back in
      (
        front ∷ parts,
        ap (λ xs. front ++ xs) all ∙ sym whole,
        (output_chunk-ReadsAs r front table brief here known_front, reads),
      )

  -- so do those of its table, also where nothing is selected
  output-ChunksRead :
      (found : List ReferenceSegment) (cs : List (Chunk P)) (selected : List (Row P))
      → OutputChunks (length schema) found cs
      → length found < 2 ^ 32
      → All (λ r. r.referenced_table ≡ input) found
      → All IsShort found
      → map look (positions found) ≡ map some selected
      → Readable P true selected
      → (parts : List (List (Row P))) × (concat parts ≡ selected)
        × (length cs < 2 ^ 32)
        × ChunksRead build store (suc depth) (length schema) cs parts
  output-ChunksRead [] cs [] (c, one, size, columns) small tables short names known =
      let empty : ReadsAs build store (suc depth) (length schema) c [] = record {
        sized = λ _. size;
        columns = columns;
        short = omega arith;
        wide = λ i row at. cc;
        reads = λ i k row v at value. cc;
      } in
      ([] ∷ [], refl, rw one (omega arith), rw one (empty, tt))
  output-ChunksRead [] cs (row ∷ selected) out small tables short names known = cc
  output-ChunksRead (r ∷ found) cs selected out small tables short names known =
      let (parts, all, reads) = found-ChunksRead (r ∷ found) selected tables short names known in
      (
        parts,
        all,
        rw out (omega (arith, length-map found (output_chunk {P = P} (length schema)), small)),
        rw out reads,
      )

  print-Selection :
      (t' : Table P) (selected : List (Row P)) (a : ℕ)
      → Selection build store schema t input rows stored there few t' selected
      → subscript store a ≡ ok t'
      → Readable P true selected
      → (ws : List ℕ) × (parts : List (List (Row P))) × (concat parts ≡ selected)
        × (column_string_widths build store (suc depth) min_width max_width t' ≡ ok ws)
        × (print build store (suc depth) (some a)
            ≡ (ok tt, table_text P ws t.column_names t.column_types t.column_nullable parts))
  print-Selection t' selected a s at known =
      let (cs, made, chunks) = from_references-OutputChunks t schema rows s.found stored in
      let same : t' ≡ record t { chunks = cs } = cc in
      let (parts, all, small, reads) =
        output-ChunksRead s.found cs selected chunks s.few_found s.tables s.short s.names known in
      let (ws, run, printed) =
        print_table-ChunksRead build store (suc depth) (record t { chunks = cs }) a (length schema)
          parts (at ∙ ap ok same) (omega (arith, stored.named.types, stored.complete))
          stored.complete
          (omega (arith, stored.named.types, stored.named.nullable, stored.complete)) filled
          stored.narrow small reads in
      (
        ws,
        parts,
        all,
        ap (column_string_widths build store (suc depth) min_width max_width) same ∙ run,
        print-print_table build store (suc depth) a _ printed,
      )

  -- Printing the answer of a query writes the rows that meet its conditions. Where a table is made
  -- from a stored table of fewer than 2 ^ 32 chunks and at least one column by one scan after
  -- another, each with a search value that is not null and casts to the type of its column, which
  -- has a lawful order, and no row that every scan takes has a null value, the static `print` of
  -- that table throws nothing, and what it writes is the layout of the names, the types and parts
  -- that are together the rows that every scan takes, in order, in the widths that
  -- `_column_string_widths` returns for 8 and 20.
  pub print-Scanned :
      (qs : List (Query P schema)) (t' : Table P) (a : ℕ)
      → Scanned build store schema t input rows stored there few qs t'
      → subscript store a ≡ ok t'
      → Readable P true (filter (takes_all build store schema qs) rows)
      → (ws : List ℕ) × (parts : List (List (Row P))) × (concat parts
          ≡ filter (takes_all build store schema qs) rows)
        × (column_string_widths build store (suc depth) min_width max_width t' ≡ ok ws)
        × (print build store (suc depth) (some a)
            ≡ (ok tt, table_text P ws t.column_names t.column_types t.column_nullable parts))
  print-Scanned qs t' a scans at known =
      let (s, reads) =
        Scanned-Selection build store schema t input rows stored there few qs t' scans in
      print-Selection t' (filter (takes_all build store schema qs) rows) a s at known
