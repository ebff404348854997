-- ===== src/LoadTable/RoundTrip.antt =====
-- Loading a file that is written from names, types and rows of fields.
use dyod_so_se.LoadTable.{
  bar, newline, split, counted, add_columns, append_row, append_rows, load_table,
}
use dyod_so_se.Outcome.Laws.{>>=-continue}
use dyod_so_se.Outcome.{Outcome, ok, ◌>>=◌, ◌>>◌, Build, assert, mismatched_types}
use dyod_so_se.Prelude.Text.{Text}
use dyod_so_se.Prelude.{
  ℕ, ◌^◌, ◌%◌, ◌≡◌, ◌≢◌, refl, List, [], ◌∷◌, ◌++◌, some, All, map, length, arith, ◌==◌,
}
use dyod_so_se.StringUtils.Split.{
  join, terminated, AreFree, EndsInText, tokens_from-join, tokens_from-terminated,
}
use dyod_so_se.Table
use dyod_so_se.Table.{Table}
use dyod_so_se.Types.{Platform}

-- The fields of a line: none has a `|` or a line end in it, and the last is not empty.
abbrev pub IsLine : List Text → Type 0
IsLine fields = AreFree bar fields × AreFree newline fields × EndsInText fields

-- the file with these lines
abbrev pub file_of : List (List Text) → Text
file_of lines = terminated newline (map (join bar) lines)

module _ {P : Platform} (build : Build) where
  -- the rows, field by field
  unfoldable pub append_fields : List Text → ℕ → List (List Text) → Table P → Outcome (Table P)
  append_fields types column_count [] t = ok t
  append_fields types column_count (fields ∷ rows) t = do
    t' ← append_row build types column_count fields t
    append_fields types column_count rows t'

  -- the table of a header and rows
  unfoldable pub table_of : List Text → List Text → List (List Text) → ℕ → Outcome (Table P)
  unfolding append_fields
  table_of names types rows chunk_size = do
    assert (length types == length names) mismatched_types
    t ← add_columns build (counted names) (counted types) (Table.new (chunk_size % 2 ^ 32))
    append_fields types (length names) rows t

All-append {ℓ κ} :
    {A : Type ℓ} (Q : A → Type κ) (xs ys : List A) → All Q xs → All Q ys → All Q (xs ++ ys)
All-append Q [] ys h k = k
All-append Q (x ∷ xs) ys h k = (h.0, All-append Q xs ys h.1 k)

-- a line has no line end in it
line-free : (fields : List Text) → AreFree newline fields → All (λ c. c ≢ newline) (join bar fields)
unfolding join
line-free [] h = tt
line-free (t ∷ []) h = h.0
line-free (t ∷ u ∷ us) h =
    All-append (λ c. c ≢ newline) t (bar ∷ join bar (u ∷ us)) h.0
      ((λ e. omega (arith, e)), line-free (u ∷ us) h.1)

lines-free : (lines : List (List Text)) → All IsLine lines → AreFree newline (map (join bar) lines)
lines-free [] h = tt
lines-free (l ∷ ls) h = (line-free l h.0.1, lines-free ls h.1)

split-line : (fields : List Text) → IsLine fields → split (join bar fields) bar ≡ fields
unfolding split
split-line fields h = tokens_from-join bar fields h.0 h.2

module _ {P : Platform} (build : Build) where
  append_rows-fields :
      (types : List Text) (column_count : ℕ) (rows : List (List Text)) (t : Table P)
      → All IsLine rows
      → append_rows build types column_count (map (join bar) rows) t
        ≡ append_fields build types column_count rows t
  unfolding append_rows append_fields
  append_rows-fields types column_count [] t h = refl
  append_rows-fields types column_count (r ∷ rs) t h = rw (split-line r h.0) (
      >>=-continue (append_row build types column_count r t) _ _
        (λ t'. append_rows-fields types column_count rs t' h.1))

  -- For names, types and rows whose fields have neither `|` nor a line end in them, and whose last
  -- field in each line is not empty, `load_table` of the file with these lines has the outcome of
  -- adding the columns and then appending the rows field by field.
  pub load_table-file_of :
      (names types : List Text) (rows : List (List Text)) (chunk_size : ℕ)
      → All IsLine (names ∷ types ∷ rows)
      → load_table {P = P} build (some (file_of (names ∷ types ∷ rows))) chunk_size
        ≡ table_of build names types rows chunk_size
  unfolding load_table table_of
  load_table-file_of names types rows chunk_size h =
      rw
        (
          tokens_from-terminated newline (map (join bar) (names ∷ types ∷ rows))
              (lines-free (names ∷ types ∷ rows) h),
          split-line names h.0,
          split-line types h.1.0,
        )
        (>>=-continue (assert (length types == length names) mismatched_types) _ _ (λ x.
          >>=-continue
            (add_columns build (counted names) (counted types) (Table.new (chunk_size % 2 ^ 32))) _
            _ (λ t. append_rows-fields types (length names) rows t h.1.1)))
