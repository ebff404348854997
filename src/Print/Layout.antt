-- ===== src/Print/Layout.antt =====
-- The layout of a printed table, as a text made of its columns and rows, and the parts of the output
-- that follow it.
use dyod_so_se.Chunk
use dyod_so_se.Chunk.{Chunk}
use dyod_so_se.Outcome.{Outcome, ok, Build, subscript}
use dyod_so_se.Prelude.Text.{Text, text}
use dyod_so_se.Prelude.{
  ℕ, suc, ◌+◌, ◌^◌, ◌%◌, ◌≡◌, refl, sym, ap, ◌∙◌, Bool, false, List, [], ◌∷◌, ◌++◌, some, length,
  get_elem?, arith, if◌then◌else◌, ◌==◌,
}
use dyod_so_se.Print.Widths.{cell}
use dyod_so_se.Print.{print_headers, print_cells, print_rows, print_chunk}
use dyod_so_se.Reference.{Store}
use dyod_so_se.Stream.{endl, padded, show_ℕ, show}
use dyod_so_se.Table.Contents.{Row}
use dyod_so_se.Types.{Platform}

-- `|` and a text in the width of the column, for each column
abbrev pub headers_text : List ℕ → List Text → Text
headers_text [] ss = []
headers_text (w ∷ ws) [] = []
headers_text (w ∷ ws) (s ∷ ss) = text "|" ++ (padded w s ++ headers_text ws ss)

module _ (P : Platform) where
  abbrev pub cells_text : List ℕ → Row P → Text
  cells_text [] row = []
  cells_text (w ∷ ws) [] = []
  cells_text (w ∷ ws) (v ∷ row) = padded w (show P v) ++ (text "|" ++ cells_text ws row)

  abbrev pub rows_text : List ℕ → List (Row P) → Text
  rows_text ws [] = []
  rows_text ws (row ∷ rows) = text "|" ++ (cells_text ws row ++ (endl ++ rows_text ws rows))

  abbrev pub part_text : List ℕ → List (Row P) → Text
  part_text ws [] = text "Empty chunk." ++ endl
  part_text ws (row ∷ rows) = rows_text ws (row ∷ rows)

  abbrev pub chunk_text : List ℕ → ℕ → List (Row P) → Text
  chunk_text ws chunk_id part =
      text "=== Chunk " ++ (show_ℕ chunk_id ++ (text " === " ++ (endl ++ part_text ws part)))

  abbrev pub chunks_text : List ℕ → ℕ → List (List (Row P)) → Text
  chunks_text ws chunk_id [] = []
  chunks_text ws chunk_id (part ∷ parts) =
      chunk_text ws chunk_id part ++ chunks_text ws (suc chunk_id) parts

-- what a list has from an index on
abbrev pub From {ℓ} : {A : Type ℓ} → (ℕ → Outcome A) → ℕ → List A → Type ℓ
From {A = A} read k xs = (j : ℕ) (x : A) → get_elem? xs j ≡ some x → read (k + j) ≡ ok x

module _ {ℓ} {A : Type ℓ} (read : ℕ → Outcome A) (k : ℕ) (x : A) (xs : List A)
    (h : From read k (x ∷ xs)) where
  pub From-here : read k ≡ ok x
  From-here = ap read (omega arith) ∙ h 0 x refl

  pub From-next : From read (suc k) xs
  From-next j y e = ap read (omega arith) ∙ h (suc j) y e

pub whole_there : (xs : List ℕ) → From (subscript xs) 0 xs
whole_there xs j x e = let zero_add : 0 + j ≡ j = omega arith in rw (zero_add, e) refl

module _ {P : Platform} (build : Build) (store : Store P) (depth : ℕ) where
  pub print_headers-text :
      (header : ℕ → Outcome Text) (widths : List ℕ) (k : ℕ) (us : List ℕ) (ss : List Text)
      → From (subscript widths) k us
      → From header k ss
      → length us ≡ length ss
      → print_headers build store depth header widths (length ss) k ≡ (ok tt, headers_text us ss)
  unfolding print_headers
  print_headers-text header widths k [] [] hu hs e = refl
  print_headers-text header widths k [] (s ∷ ss) hu hs e = absurd (omega (arith, e))
  print_headers-text header widths k (u ∷ us) [] hu hs e = absurd (omega (arith, e))
  print_headers-text header widths k (u ∷ us) (s ∷ ss) hu hs e = rw (
    From-here (subscript widths) k u us hu,
    print_headers,
    From-here header k s ss hs,
    print_headers-text header widths (suc k) us ss (From-next (subscript widths) k u us hu)
        (From-next header k s ss hs) (omega (arith, e)),
  )

  pub print_cells-text :
      (widths : List ℕ) (c : Chunk P) (i k : ℕ) (us : List ℕ) (row : Row P)
      → From (subscript widths) k us
      → From (λ j. cell build store depth c j i) k row
      → length us ≡ length row
      → print_cells build store depth widths c i (length row) k ≡ (ok tt, cells_text P us row)
  unfolding print_cells
  print_cells-text widths c i k [] [] hu hv e = refl
  print_cells-text widths c i k [] (v ∷ row) hu hv e = absurd (omega (arith, e))
  print_cells-text widths c i k (u ∷ us) [] hu hv e = absurd (omega (arith, e))
  print_cells-text widths c i k (u ∷ us) (v ∷ row) hu hv e = rw (
    From-here (subscript widths) k u us hu,
    print_cells,
    From-here (λ j. cell build store depth c j i) k v row hv,
    print_cells-text widths c i (suc k) us row (From-next (subscript widths) k u us hu)
        (From-next (λ j. cell build store depth c j i) k v row hv) (omega (arith, e)),
  )

  -- the rows of a chunk from `i` on, each of which reads from the chunk
  abbrev pub RowsFrom : List ℕ → Chunk P → ℕ → List (Row P) → Type 0
  RowsFrom widths c i part =
      (j : ℕ) (row : Row P)
      → get_elem? part j ≡ some row
      → From (λ k. cell build store depth c k (i + j)) 0 row
        × (length row ≡ length widths)
        × (length c.columns % 2 ^ 16 ≡ length row)

  abbrev pub AreWidths : List ℕ → Type 0
  AreWidths widths = From (subscript widths) 0 widths

  pub print_rows-text :
      (widths : List ℕ) (c : Chunk P) (i : ℕ) (part : List (Row P))
      → AreWidths widths
      → RowsFrom widths c i part
      → print_rows build store depth widths c (length part) i ≡ (ok tt, rows_text P widths part)
  unfolding print_rows Chunk.column_count
  print_rows-text widths c i [] all rows = refl
  print_rows-text widths c i (row ∷ part) all rows =
      let (cells, wide, counted) = rows 0 row refl in
      let here : From (λ k. cell build store depth c k i) 0 row =
        λ j v e. ap (cell build store depth c (0 + j)) (omega arith) ∙ cells j v e in
      rw (
        counted,
        print_cells-text widths c i 0 widths row all here (sym wide),
        print_rows,
        print_rows-text widths c (suc i) part all (λ j z e.
            let (cells', wide', counted') = rows (suc j) z e in
            (
              λ k v e'. ap (cell build store depth c (0 + k)) (omega arith) ∙ cells' k v e',
              wide',
              counted',
            )),
      )

  print_chunk-step :
      (widths : List ℕ) (chunk_id : ℕ) (c : Chunk P) (n : ℕ) (out : Text)
      → Chunk.size c ≡ ok n
      → (n == 0) ≡ false
      → print_rows build store depth widths c n 0 ≡ (ok tt, out)
      → print_chunk build store depth widths chunk_id c
        ≡ (ok tt, text "=== Chunk " ++ (show_ℕ chunk_id ++ (text " === " ++ (endl ++ out))))
  unfolding print_chunk
  print_chunk-step widths chunk_id c n out size filled run = rw (size, filled, run) refl

  pub print_chunk-text :
      (widths : List ℕ) (chunk_id : ℕ) (c : Chunk P) (part : List (Row P))
      → AreWidths widths
      → RowsFrom widths c 0 part
      → Chunk.size c ≡ ok (length part)
      → print_chunk build store depth widths chunk_id c ≡ (ok tt, chunk_text P widths chunk_id part)
  unfolding print_chunk
  print_chunk-text widths chunk_id c [] all rows size = rw size refl
  print_chunk-text widths chunk_id c (row ∷ part) all rows size =
      print_chunk-step widths chunk_id c (length (row ∷ part)) (rows_text P widths (row ∷ part))
        size (ground arith) (print_rows-text widths c 0 (row ∷ part) all rows)

-- the texts of the second header line
abbrev pub type_texts : List Text → List Bool → List Text
type_texts [] bs = []
type_texts (type ∷ types) [] = []
type_texts (type ∷ types) (b ∷ bs) =
    (if b then type ++ text "_null" else type) ∷ type_texts types bs

-- A printed table: two lines of headers, and the chunks.
abbrev pub table_text :
    (P : Platform) → List ℕ → List Text → List Text → List Bool → List (List (Row P)) → Text
table_text P ws names types nullable parts =
    text "=== Columns"
    ++ (endl
        ++ (headers_text ws names
            ++ (text "|"
                ++ (endl
                    ++ (headers_text ws (type_texts types nullable)
                        ++ (text "|" ++ (endl ++ chunks_text P ws 0 parts)))))))
