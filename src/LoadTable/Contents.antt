-- ===== src/LoadTable/Contents.antt =====
-- What a loaded table stores: the rows of the file, each field cast to the type of its column.
use dyod_so_se.LoadTable.RoundTrip.{IsLine, file_of, append_fields, table_of, load_table-file_of}
use dyod_so_se.LoadTable.{counted, variant_values, add_columns, append_row, load_table}
use dyod_so_se.Outcome.{ok, ◌>>=◌, Build}
use dyod_so_se.Prelude.Text.{Text, eqb_Text_iff}
use dyod_so_se.Prelude.{
  ℕ, suc, ◌+◌, ◌^◌, ◌%◌, ◌<◌, ◌≡◌, refl, sym, ap, ◌∙◌, true, false, List, [], ◌∷◌, ◌++◌, some, map,
  length, length-append, All, leb, ◌==◌, ==_iff, arith,
}
use dyod_so_se.Table
use dyod_so_se.Table.Columns.{IsDistinct, contains-append}
use dyod_so_se.Table.Contents.Appended.{append_assoc, append_nil, append-StoresMore}
use dyod_so_se.Table.Contents.Created.{StoresNothing, new-StoresNothing, add_column-StoresNothing}
use dyod_so_se.Table.Contents.Histories.{Defined, constructed, column, Reached, defined, appended}
use dyod_so_se.Table.Contents.{Row, Schema, Stores, Converts, no_value, converts}
use dyod_so_se.Table.{Table, contains}
use dyod_so_se.Types.{
  Platform, DataType, Value, to_variant, type_cast?, resolve_data_type, int, long, float, double,
  string,
}
use dyod_so_se.ValueSegment.Invariant.{accepted}

-- the columns of a loaded table, none of which is nullable
abbrev pub columns : List DataType → Schema
columns ds = map (λ d. (d, false)) ds

abbrev pub Resolves : List Text → List DataType → Type 0
Resolves [] [] = Unit
Resolves [] (d ∷ ds) = ⊥
Resolves (type ∷ types) [] = ⊥
Resolves (type ∷ types) (d ∷ ds) = (resolve_data_type type ≡ some d) × Resolves types ds

-- the fields of a line, and the row that they spell
abbrev pub Parses : (P : Platform) → List DataType → List Text → Row P → Type 0
Parses P [] [] [] = Unit
Parses P (d ∷ ds) (field ∷ fields) (v ∷ row) =
    (x : Value P d) × (P.lexical_cast_text d field ≡ some x)
    × (v ≡ to_variant P d x)
    × Parses P ds fields row
Parses P _ _ _ = ⊥

abbrev pub AllParse : (P : Platform) → List DataType → List (List Text) → List (Row P) → Type 0
AllParse P ds [] [] = Unit
AllParse P ds (fields ∷ lines) (row ∷ rows) = Parses P ds fields row × AllParse P ds lines rows
AllParse P ds _ _ = ⊥

length-Resolves :
    (types : List Text) (ds : List DataType) → Resolves types ds → length types ≡ length ds
length-Resolves [] [] h = refl
length-Resolves [] (d ∷ ds) h = absurd h
length-Resolves (type ∷ types) [] h = absurd h
length-Resolves (type ∷ types) (d ∷ ds) h = ap suc (length-Resolves types ds h.1)

-- names that are not there yet stay so when another one is added
names_after :
    (names ns : List Text) (n : Text)
    → All (λ m. contains m names ≡ false) ns
    → contains n ns ≡ false
    → All (λ m. contains m (names ++ n ∷ []) ≡ false) ns
unfolding contains
names_after names [] n h new = tt
names_after names (m ∷ ms) n h new = (
  ground (arith, contains-append m n names, h.0, new, eqb_Text_iff m n, eqb_Text_iff n m),
  names_after names ms n h.1 (ground arith),
)

counted_all : (xs : List Text) → length xs < 2 ^ 16 → counted xs ≡ xs
counted_all xs few = let under : leb (2 ^ 16) (length xs) ≡ false = ground arith in rw under refl

module _ (P : Platform) where
  names_new :
      (target : ℕ) (names : List Text)
      → All (λ n. contains n (Table.new {P = P} target).column_names ≡ false) names
  unfolding Table.new contains
  names_new target [] = tt
  names_new target (n ∷ ns) = (refl, names_new target ns)

  accepted-to_variant :
      (d : DataType) (x : Value P d) → accepted P d false (to_variant P d x) ≡ some (some x)
  unfolding type_cast?
  accepted-to_variant int x = refl
  accepted-to_variant long x = refl
  accepted-to_variant float x = refl
  accepted-to_variant double x = refl
  accepted-to_variant string x = refl

  variant_values-Parses :
      (types : List Text) (ds : List DataType) (fields : List Text) (row : Row P)
      → Resolves types ds
      → Parses P ds fields row
      → (variant_values P types fields ≡ ok row) × Converts P (columns ds) row row
  unfolding variant_values
  variant_values-Parses [] [] [] [] known parsed = (refl, no_value)
  variant_values-Parses [] [] [] (v ∷ row) known parsed = absurd parsed
  variant_values-Parses [] [] (field ∷ fields) row known parsed = absurd parsed
  variant_values-Parses [] (d ∷ ds) fields row known parsed = absurd known
  variant_values-Parses (type ∷ types) [] fields row known parsed = absurd known
  variant_values-Parses (type ∷ types) (d ∷ ds) [] row known parsed = absurd parsed
  variant_values-Parses (type ∷ types) (d ∷ ds) (field ∷ fields) [] known parsed = absurd parsed
  variant_values-Parses (type ∷ types) (d ∷ ds) (field ∷ fields) (v ∷ row) known
        (x, parse, same, more) =
      let (others, row_converts) = variant_values-Parses types ds fields row known.1 more in
      (
        rw (known.0, variant_values, parse, ◌>>=◌, others, same),
        rw same (converts d false (some x) (accepted-to_variant d x) row_converts),
      )

  length-Parses :
      (ds : List DataType) (fields : List Text) (row : Row P)
      → Parses P ds fields row
      → length fields ≡ length ds
  length-Parses [] [] [] h = refl
  length-Parses [] [] (v ∷ row) h = absurd h
  length-Parses [] (field ∷ fields) row h = absurd h
  length-Parses (d ∷ ds) [] row h = absurd h
  length-Parses (d ∷ ds) (field ∷ fields) [] h = absurd h
  length-Parses (d ∷ ds) (field ∷ fields) (v ∷ row) h = ap suc (length-Parses ds fields row h.3)

module _ {P : Platform} (build : Build) where
  add_columns-StoresNothing :
      (target : ℕ) (names types : List Text) (ds : List DataType) (schema : Schema) (t : Table P)
      → StoresNothing schema t
      → Defined build target schema t
      → Resolves types ds
      → length names ≡ length types
      → IsDistinct names
      → All (λ n. contains n t.column_names ≡ false) names
      → length schema + length ds < 2 ^ 16
      → (t' : Table P) × (add_columns build names types t ≡ ok t')
        × StoresNothing (schema ++ columns ds) t'
        × Defined build target (schema ++ columns ds) t'
  unfolding add_columns
  add_columns-StoresNothing target [] [] [] schema t nothing made known size distinct free few =
      (t, refl, rw (append_nil schema) nothing, rw (append_nil schema) made)
  add_columns-StoresNothing target [] (type ∷ types) ds schema t nothing made known size distinct
        free few =
      absurd (omega (arith, size))
  add_columns-StoresNothing target (n ∷ ns) [] ds schema t nothing made known size distinct free
        few =
      absurd (omega (arith, size))
  add_columns-StoresNothing target names [] (d ∷ ds) schema t nothing made known size distinct free
        few =
      absurd known
  add_columns-StoresNothing target names (type ∷ types) [] schema t nothing made known size distinct
        free few =
      absurd known
  add_columns-StoresNothing target (n ∷ ns) (type ∷ types) (d ∷ ds) schema t nothing made known size
        distinct free few =
      let (next, run, named, typed, still) =
        add_column-StoresNothing build n type false d schema t nothing free.0 known.0
          (omega (arith, few)) in
      let (t', others, stored, defined_there) =
        add_columns-StoresNothing target ns types ds (schema ++ (d, false) ∷ []) next still
          (column n type false d made free.0 known.0 (omega (arith, few)) run) known.1
          (omega (arith, size)) distinct.1
          (rw named (names_after t.column_names ns n free.1 distinct.0))
          (omega (arith, few, length-append schema ((d, false) ∷ []))) in
      (
        t',
        rw (run, ◌>>=◌, others),
        rw (append_assoc schema ((d, false) ∷ []) (columns ds)) at stored,
        rw (append_assoc schema ((d, false) ∷ []) (columns ds)) at defined_there,
      )

  append_fields-Stores :
      (target : ℕ) (types : List Text) (d : DataType) (ds : List DataType)
      (lines : List (List Text)) (parsed before : List (Row P)) (t : Table P)
      → Stores (columns (d ∷ ds)) t before
      → Reached build target (columns (d ∷ ds)) before t
      → Resolves types (d ∷ ds)
      → AllParse P (d ∷ ds) lines parsed
      → (t' : Table P) × (append_fields build types (length (d ∷ ds)) lines t ≡ ok t')
        × Stores (columns (d ∷ ds)) t' (before ++ parsed)
        × Reached build target (columns (d ∷ ds)) (before ++ parsed) t'
  unfolding append_fields append_row
  append_fields-Stores target types d ds [] [] before t stored reached known h =
      (t, refl, rw (append_nil before) stored, rw (append_nil before) reached)
  append_fields-Stores target types d ds [] (row ∷ rows) before t stored reached known h = absurd h
  append_fields-Stores target types d ds (line ∷ lines) [] before t stored reached known h =
      absurd h
  append_fields-Stores target types d ds (line ∷ lines) (row ∷ rows) before t stored reached known
        h =
      let (cast, row_converts) = variant_values-Parses P types (d ∷ ds) line row known h.0 in
      let whole : (length line == suc (length ds)) ≡ true =
        (==_iff _ _).1 (length-Parses P (d ∷ ds) line row h.0) in
      let (next, run, more) =
        append-StoresMore build d false (columns ds) t before stored row row row_converts in
      let (t', others, done, on) =
        append_fields-Stores target types d ds lines rows (before ++ row ∷ []) next more
          (appended row row reached row_converts run) known h.1 in
      (
        t',
        rw (whole, ◌>>=◌, cast, run, others),
        rw (append_assoc before (row ∷ []) rows) at done,
        rw (append_assoc before (row ∷ []) rows) at on,
      )

  -- Where the fields of a file have neither `|` nor a line end in them and the last field in each
  -- line is not empty, its column names, at least one and fewer than 2 ^ 16, are distinct, its
  -- types are known, as many as the names, and each line has a field for each column that its type
  -- parses, `load_table` with a positive chunk size below 2 ^ 32 succeeds, and the table stores the
  -- rows of the file in order and is one that the operations of a table reach by appending them.
  pub load_table-Stores :
      (names types : List Text) (d : DataType) (ds : List DataType) (lines : List (List Text))
      (rows : List (Row P)) (chunk_size : ℕ)
      → All IsLine (names ∷ types ∷ lines)
      → IsDistinct names
      → length names ≡ length types
      → length names < 2 ^ 16
      → Resolves types (d ∷ ds)
      → AllParse P (d ∷ ds) lines rows
      → 0 < chunk_size
      → chunk_size < 2 ^ 32
      → (t : Table P) × (load_table build (some (file_of (names ∷ types ∷ lines))) chunk_size
          ≡ ok t)
        × Stores (columns (d ∷ ds)) t rows
        × Reached build chunk_size (columns (d ∷ ds)) rows t
  unfolding table_of
  load_table-Stores names types d ds lines rows chunk_size are_lines distinct size few known parsed
        positive small =
      let count = length-Resolves types (d ∷ ds) known in
      let same : (length types == length names) ≡ true = (==_iff _ _).1 (sym size) in
      let whole : chunk_size % 2 ^ 32 ≡ chunk_size = omega (arith, small) in
      let columns_named : length names ≡ suc (length ds) = omega (arith, size, count) in
      let (empty, added, nothing, made) =
        add_columns-StoresNothing chunk_size names types (d ∷ ds) [] (Table.new chunk_size)
          (new-StoresNothing chunk_size positive small) constructed known size distinct
          (names_new P chunk_size names) (omega (arith, few, count, size)) in
      let (t, run, stored, reached) =
        append_fields-Stores chunk_size types d ds lines rows [] empty nothing.1 (defined made)
          known parsed in
      (
        t,
        load_table-file_of build names types lines chunk_size are_lines
            ∙ rw (
              same,
              ◌>>=◌,
              counted_all names few,
              counted_all types (omega (arith, few, size)),
              whole,
              added,
              columns_named,
              run,
            ),
        stored,
        reached,
      )
