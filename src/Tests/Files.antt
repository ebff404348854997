-- ===== src/Tests/Files.antt =====
-- The theorem on loading a table, at a concrete file, and the two files without columns.
use dyod_so_se.LoadTable.Contents.{AllParse, columns, load_table-Stores}
use dyod_so_se.Prelude.Int.{pos}
use dyod_so_se.Table.Contents.Histories.{Reached}
use dyod_so_se.Table.Contents.{Stores}
use dyod_so_se.Tests.Contents.{row_of}
use dyod_so_se.Types.{int}
use dyod_so_se.LoadTable.RoundTrip.{IsLine, file_of}
use dyod_so_se.LoadTable.{load_table}
use dyod_so_se.Outcome.{ok, throw, debug, file_not_found}
use dyod_so_se.Prelude.Text.{Text, text}
use dyod_so_se.Prelude.{ℕ, ◌≡◌, ◌≢◌, refl, List, [], ◌∷◌, All, none, some, arith}
use dyod_so_se.Table
use dyod_so_se.Tests.{platform}

abbrev file : List (List Text)
file = (text "a" ∷ []) ∷ (text "int" ∷ []) ∷ (text "5" ∷ []) ∷ (text "7" ∷ []) ∷ []

-- one character that is neither `|` nor a line end
letter : (c : ℕ) → c ≢ 124 → c ≢ 10 → IsLine ((c ∷ []) ∷ [])
letter c h k = (((h, tt), tt), ((k, tt), tt), λ e. cc)

file-IsLine : All IsLine file
file-IsLine = (
  letter 97 (λ e. omega (arith, e)) (λ e. omega (arith, e)),
  (
    (
      (((λ e. omega (arith, e)), ((λ e. omega (arith, e)), ((λ e. omega (arith, e)), tt))), tt),
      (((λ e. omega (arith, e)), ((λ e. omega (arith, e)), ((λ e. omega (arith, e)), tt))), tt),
      λ e. cc,
    ),
    (
      letter 53 (λ e. omega (arith, e)) (λ e. omega (arith, e)),
      (letter 55 (λ e. omega (arith, e)) (λ e. omega (arith, e)), tt),
    ),
  ),
)

-- an empty file gives a table without columns, and no file an exception
empty_file : load_table {P = platform} debug (some []) 4 ≡ ok (Table.new 4)
unfolding load_table
empty_file = refl

no_file : load_table {P = platform} debug none 4 ≡ throw file_not_found
unfolding load_table
no_file = refl

file-Parses :
    AllParse platform (int ∷ []) ((text "5" ∷ []) ∷ (text "7" ∷ []) ∷ []) (row_of 5 ∷ row_of 7 ∷ [])
file-Parses = ((pos 5, refl, refl, tt), ((pos 7, refl, refl, tt), tt))

load_table-Stores_example :
    (t : Table.Table platform) × (load_table debug (some (file_of file)) 4 ≡ ok t)
    × Stores (columns (int ∷ [])) t (row_of 5 ∷ row_of 7 ∷ [])
    × Reached debug 4 (columns (int ∷ [])) (row_of 5 ∷ row_of 7 ∷ []) t
unfolding Table.contains
load_table-Stores_example =
    load_table-Stores debug (text "a" ∷ []) (text "int" ∷ []) int []
      ((text "5" ∷ []) ∷ (text "7" ∷ []) ∷ []) (row_of 5 ∷ row_of 7 ∷ []) 4 file-IsLine (refl, tt)
      refl (omega arith) (refl, tt) file-Parses (omega arith) (omega arith)
