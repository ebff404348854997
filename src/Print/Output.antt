-- ===== src/Print/Output.antt =====
-- `Print::_on_execute` on a table that stores rows: the whole output.

use dyod_so_se.Chunk.{Chunk}
use dyod_so_se.Operator.{execute, get_output, left_input_table, table_wrapper_on_execute}
use dyod_so_se.Outcome.{ok, ◌>>=◌, Build, subscript}
use dyod_so_se.Prelude.Text.{Text, text}
use dyod_so_se.Prelude.{
  ℕ, zero, suc, ◌+◌, ◌^◌, ◌%◌, ◌<◌, ◌≡◌, refl, sym, ap, ◌∙◌, Bool, false, List, [], ◌∷◌, ◌++◌, some,
  map, length, length-map, get_elem?, arith, if◌then◌else◌, ltb,
}
use dyod_so_se.Print.Bounds.{name_width, column_string_widths-ChunksRead, column_name-there}
use dyod_so_se.Print.Fits.{AreReadable}
use dyod_so_se.Print.Readings.{ReadsAs, ChunksRead, ChunksHold-ChunksRead}
use dyod_so_se.Print.Layout.{
  headers_text, chunks_text, type_texts, table_text, From, From-here, From-next, RowsFrom,
  whole_there, print_headers-text, print_chunk-text,
}
use dyod_so_se.Print.Widened.{length-Grown}
use dyod_so_se.Print.Widths.{min_width, max_width, print_column_type, cell, column_string_widths}
use dyod_so_se.Print.{print_headers, print_chunks, print_table, print_on_execute, print}
use dyod_so_se.Reference.{Store}
use dyod_so_se.Stream.{endl}
use dyod_so_se.Table
use dyod_so_se.Table.Contents.Appended.{append_nil}
use dyod_so_se.Table.Contents.Reads.{get_chunk-get_elem?}
use dyod_so_se.Table.Contents.{Row, Schema, Stores}
use dyod_so_se.Table.{Table, get_chunk}
use dyod_so_se.Types.{Platform, DataType}
use dyod_so_se.ValueSegment.Reads.{get_elem?-below}

module _ {P : Platform} (build : Build) (store : Store P) (depth : ℕ) (t : Table P) (n : ℕ)
    (filled : 0 < n) (narrow : n < 2 ^ 16) where
  rows-RowsFrom :
      (widths : List ℕ) (c : Chunk P) (part : List (Row P))
      → ReadsAs build store depth n c part
      → length widths ≡ n
      → RowsFrom build store depth widths c 0 part
  rows-RowsFrom widths c part r wide j row there =
      let count = r.wide j row there in
      (
        λ k v value.
            ap (cell build store depth c (0 + k)) (omega arith)
            ∙ ap (λ m. cell build store depth c m j) (omega arith)
            ∙ r.reads j k row v there value,
        omega (arith, count, wide),
        omega (arith, count, narrow, r.columns),
      )

  print_chunks-text :
      (widths : List ℕ) (cs : List (Chunk P)) (parts : List (List (Row P))) (i : ℕ)
      → ChunksRead build store depth n cs parts
      → length widths ≡ n
      → From (get_chunk t) i cs
      → print_chunks build store depth widths t (length cs) i
        ≡ (ok tt, chunks_text P widths i parts)
  unfolding print_chunks
  print_chunks-text widths [] [] i all wide there = refl
  print_chunks-text widths [] (part ∷ parts) i all wide there = absurd all
  print_chunks-text widths (c ∷ cs) [] i all wide there = absurd all
  print_chunks-text widths (c ∷ cs) (part ∷ parts) i (r, more) wide there =
      rw
        (
          From-here (get_chunk t) i c cs there,
          print_chunk-text build store depth widths i c part (whole_there widths)
              (rows-RowsFrom widths c part r wide) (r.sized filled),
          print_chunks-text widths cs parts (suc i) more wide
              (From-next (get_chunk t) i c cs there),
        )
        refl

type_texts-parts :
    (types : List Text) (nullable : List Bool) (j : ℕ) (s : Text)
    → get_elem? (type_texts types nullable) j ≡ some s
    → (type : Text) × (b : Bool) × (get_elem? types j ≡ some type)
      × (get_elem? nullable j ≡ some b)
      × ((if b then type ++ text "_null" else type) ≡ s)
type_texts-parts [] bs j s e = cc
type_texts-parts (type ∷ types) [] j s e = cc
type_texts-parts (type ∷ types) (b ∷ bs) zero s e = (type, b, refl, refl, cc)
type_texts-parts (type ∷ types) (b ∷ bs) (suc j) s e = type_texts-parts types bs j s e

length-type_texts :
    (types : List Text) (nullable : List Bool)
    → length nullable ≡ length types
    → length (type_texts types nullable) ≡ length types
length-type_texts [] bs e = refl
length-type_texts (type ∷ types) [] e = absurd (omega (arith, e))
length-type_texts (type ∷ types) (b ∷ bs) e = ap suc (length-type_texts types bs (omega (arith, e)))

module _ {P : Platform} (t : Table P) where
  print_column_type-there :
      (j : ℕ) (s : Text)
      → get_elem? (type_texts t.column_types t.column_nullable) j ≡ some s
      → print_column_type t (0 + j) ≡ ok s
  unfolding print_column_type Table.column_type Table.is_column_nullable
  print_column_type-there j s e =
      let (type, b, type_there, nullable_there, same) =
        type_texts-parts t.column_types t.column_nullable j s e in
      let first_below = get_elem?-below t.column_types j type type_there in
      let second_below = get_elem?-below t.column_nullable j b nullable_there in
      let inside : ltb (length t.column_types) j ≡ false = ground (arith, first_below) in
      let inside' : ltb (length t.column_nullable) j ≡ false = ground (arith, second_below) in
      let zero_add : 0 + j ≡ j = omega arith in
      rw (zero_add, inside, type_there, ◌>>=◌, inside', nullable_there) (ap ok same)

module _ {P : Platform} (build : Build) (store : Store P) (depth : ℕ) where
  print_table-step :
      (t : Table P) (input n m : ℕ) (widths : List ℕ) (names types out : Text)
      → subscript store input ≡ ok t
      → column_string_widths build store depth min_width max_width t ≡ ok widths
      → length t.column_names % 2 ^ 16 ≡ n
      → length t.chunks % 2 ^ 32 ≡ m
      → print_headers build store depth (Table.column_name t) widths n 0 ≡ (ok tt, names)
      → print_headers build store depth (print_column_type t) widths n 0 ≡ (ok tt, types)
      → print_chunks build store depth widths t m 0 ≡ (ok tt, out)
      → print_table build store depth input ≡ (
        ok (some input),
        text "=== Columns"
            ++ (endl ++ (names ++ (text "|" ++ (endl ++ (types ++ (text "|" ++ (endl ++ out))))))),
      )
  unfolding print_table Table.column_count Table.chunk_count
  print_table-step t input n m widths names types out there widths_run columns chunks first_line
        second_line chunk_lines =
      rw (there, widths_run, columns, chunks, first_line, second_line, chunk_lines, append_nil out)
        refl

  -- `Print` writes what the table reads as: `_on_execute` returns its input, and what it writes is
  -- the layout of the names, the types and the parts that the chunks read as.
  pub print_table-ChunksRead :
      (t : Table P) (input n : ℕ) (parts : List (List (Row P)))
      → subscript store input ≡ ok t
      → length t.column_names ≡ n
      → length t.column_types ≡ n
      → length t.column_nullable ≡ n
      → 0 < n
      → n < 2 ^ 16
      → length t.chunks < 2 ^ 32
      → ChunksRead build store depth n t.chunks parts
      → (ws : List ℕ) × (column_string_widths build store depth min_width max_width t ≡ ok ws)
        × (print_table build store depth input ≡ (
          ok (some input),
          table_text P ws t.column_names t.column_types t.column_nullable parts,
        ))
  print_table-ChunksRead t input n parts there names types nullable filled narrow few reads =
      let chunks_there : From (get_chunk t) 0 t.chunks =
        λ j c e. ap (get_chunk t) (omega arith) ∙ get_chunk-get_elem? t j c few e in
      let (ws, run, grown, covers) =
        column_string_widths-ChunksRead build store depth t min_width max_width n parts reads names
          narrow few chunks_there in
      let wide : length ws ≡ length t.column_names =
        length-Grown min_width max_width (map (name_width min_width) t.column_names) ws grown
        ∙ length-map t.column_names (name_width min_width) in
      let typed : length (type_texts t.column_types t.column_nullable) ≡ length t.column_names =
        length-type_texts t.column_types t.column_nullable (omega (arith, types, nullable))
        ∙ types
        ∙ sym names in
      (
        ws,
        run,
        print_table-step t input (length t.column_names) (length t.chunks) ws
            (headers_text ws t.column_names)
            (headers_text ws (type_texts t.column_types t.column_nullable))
            (chunks_text P ws 0 parts) there run (omega (arith, names, narrow)) (omega (arith, few))
            (print_headers-text build store depth (Table.column_name t) ws 0 ws t.column_names
              (whole_there ws) (column_name-there build store depth t) wide)
            (ap (λ m. print_headers build store depth (print_column_type t) ws m 0) (sym typed)
              ∙ print_headers-text build store depth (print_column_type t) ws 0 ws
                  (type_texts t.column_types t.column_nullable) (whole_there ws)
                  (print_column_type-there t) (omega (arith, wide, typed)))
            (print_chunks-text build store depth t n filled narrow ws t.chunks parts 0 reads
              (omega (arith, wide, names)) chunks_there),
      )

  -- the static `print`, which executes a `TableWrapper` and a `Print` on it
  pub print-print_table :
      (input : ℕ) (out : Text)
      → print_table build store depth input ≡ (ok (some input), out)
      → print build store depth (some input) ≡ (ok tt, out)
  unfolding print print_on_execute execute table_wrapper_on_execute left_input_table get_output
  print-print_table input out printed = rw printed refl

  -- `Print` writes the rows. On a table of fewer than 2 ^ 32 chunks that has a column, stores rows
  -- and has no null row in a compressed chunk, `_on_execute` returns its input, and what it writes
  -- is the layout of the names, the types and the rows, chunk by chunk, in the widths that
  -- `_column_string_widths` returns for 8 and 20; the static `print`, which executes a
  -- `TableWrapper` and a `Print` on it, writes the same and throws nothing.
  pub print-text :
      (t : Table P) (input : ℕ) (d : DataType × Bool) (schema : Schema) (rows : List (Row P))
      (stored : Stores (d ∷ schema) t rows)
      → subscript store input ≡ ok t
      → length t.chunks < 2 ^ 32
      → AreReadable stored.chunks
      → (ws : List ℕ) × (column_string_widths build store depth min_width max_width t ≡ ok ws)
        × (print_table build store depth input ≡ (
          ok (some input),
          table_text P ws t.column_names t.column_types t.column_nullable stored.parts,
        ))
        × (print build store depth (some input)
            ≡ (ok tt, table_text P ws t.column_names t.column_types t.column_nullable stored.parts))
  print-text t input d schema rows stored there few readable =
      let (ws, run, printed) =
        print_table-ChunksRead t input (length (d ∷ schema)) stored.parts there
          (omega (arith, stored.named.types, stored.complete)) stored.complete
          (omega (arith, stored.named.types, stored.named.nullable, stored.complete)) (omega arith)
          stored.narrow few
          (ChunksHold-ChunksRead build store depth (d ∷ schema) t.target_chunk_size t.chunks
            stored.parts stored.chunks readable stored.bounded) in
      (ws, run, printed, print-print_table input _ printed)
