-- ===== src/TableScan/Execute/Passing.antt =====
-- The rows that pass a scan, and the positions that a segment's scan selects.

use dyod_so_se.Prelude.{
  ℕ, suc, ◌+◌, ◌≡◌, refl, ap, ◌∙◌, Bool, false, inl, inr, List, [], ◌∷◌, ◌++◌, Option, none, some,
  map, get_elem?, if◌then◌else◌, arith, Bool-cases,
}
use dyod_so_se.Table.Contents.Columns.{column}
use dyod_so_se.Table.Contents.{Row, column_of}
use dyod_so_se.TableScan.Selection.{select}
use dyod_so_se.Types.{
  Platform, DataType, Variant, Value, to_variant, held, RowId, null, int, long, float, double,
  string,
}

module _ {ℓ} {A : Type ℓ} where
  abbrev pub filter : (A → Bool) → List A → List A
  filter p [] = []
  filter p (x ∷ xs) = if p x then x ∷ filter p xs else filter p xs

  pub filter-append :
      (p : A → Bool) (xs ys : List A) → filter p (xs ++ ys) ≡ filter p xs ++ filter p ys
  filter-append p [] ys = refl
  filter-append p (x ∷ xs) ys = elim (Bool-cases (p x)) [
    | inl h ↦ rw h (ap (◌∷◌ x) (filter-append p xs ys))
    | inr h ↦ rw h (filter-append p xs ys)
  ]

module _ (P : Platform) where
  pub held-to_variant : (d : DataType) (v : Value P d) → held P d (to_variant P d v) ≡ some v
  held-to_variant int v = refl
  held-to_variant long v = refl
  held-to_variant float v = refl
  held-to_variant double v = refl
  held-to_variant string v = refl

  pub held-null : (d : DataType) → held P d null ≡ none
  held-null int = refl
  held-null long = refl
  held-null float = refl
  held-null double = refl
  held-null string = refl

  pub moved :
      (look : RowId → Option (Row P)) {c c' j j' : ℕ}
      → c ≡ c'
      → j ≡ j'
      → look (record { chunk_id = c; chunk_offset = j })
        ≡ look (record { chunk_id = c'; chunk_offset = j' })
  moved look {c' = c'} {j = j} e e' =
      ap (λ i. look (record { chunk_id = i; chunk_offset = j })) e
      ∙ ap (λ i. look (record { chunk_id = c'; chunk_offset = i })) e'

  module _ (d : DataType) (k : ℕ) where
    -- the columns of the parts, chunk by chunk
    abbrev pub Columns : List (List (Row P)) → List (List (Option (Value P d))) → Type 0
    Columns [] [] = Unit
    Columns [] (r ∷ rs) = ⊥
    Columns (part ∷ parts) [] = ⊥
    Columns (part ∷ parts) (r ∷ rs) = (column P k part ≡ column_of P d r) × Columns parts rs

  module _ (d : DataType) (k : ℕ) (passes : Value P d → Bool) where
    abbrev pub held_passes : Option (Value P d) → Bool
    held_passes none = false
    held_passes (some x) = passes x

    abbrev pub value_passes : Option (Variant P) → Bool
    value_passes none = false
    value_passes (some v) = held_passes (held P d v)

    -- whether the value of a row in column `k` passes; null does not
    abbrev pub row_passes : Row P → Bool
    row_passes row = value_passes (get_elem? row k)

    -- what the positions from offset `i` on name
    abbrev pub Looks : (RowId → Option (Row P)) → ℕ → ℕ → List (Row P) → Type 0
    Looks look chunk_id i part =
        (j : ℕ) (row : Row P)
        → get_elem? part j ≡ some row
        → look (record { chunk_id = chunk_id; chunk_offset = i + j }) ≡ some row

    pub shift_look :
        (look : RowId → Option (Row P)) (chunk_id i : ℕ) (row : Row P) (part : List (Row P))
        → Looks look chunk_id i (row ∷ part)
        → Looks look chunk_id (suc i) part
    shift_look look chunk_id i row part h j z e = moved look refl (omega arith) ∙ h (suc j) z e

    -- The positions that are selected name the rows that pass.
    pub select-names :
        (look : RowId → Option (Row P)) (chunk_id i : ℕ) (part : List (Row P))
        (cs : List (Option (Value P d)))
        → column P k part ≡ column_of P d cs
        → Looks look chunk_id i part
        → map look (select passes chunk_id i cs) ≡ map some (filter row_passes part)
    unfolding select
    select-names look chunk_id i [] [] e h = refl
    select-names look chunk_id i [] (c ∷ cs) e h = cc
    select-names look chunk_id i (row ∷ part) [] e h = cc
    select-names look chunk_id i (row ∷ part) (none ∷ cs) e h =
        let here : get_elem? row k ≡ some null = cc in
        let fails : row_passes row ≡ false = ap value_passes here ∙ ap held_passes (held-null d) in
        rw fails
          (select-names look chunk_id (suc i) part cs (cc) (shift_look look chunk_id i row part h))
    select-names look chunk_id i (row ∷ part) (some v ∷ cs) e h =
        let here : get_elem? row k ≡ some (to_variant P d v) = cc in
        let same : row_passes row ≡ passes v =
          ap value_passes here ∙ ap held_passes (held-to_variant d v) in
        let others =
          select-names look chunk_id (suc i) part cs (cc) (shift_look look chunk_id i row part h) in
        elim (Bool-cases (passes v)) [
          | inl good ↦
              let found : look (record { chunk_id = chunk_id; chunk_offset = i }) ≡ some row =
                moved look refl (omega arith) ∙ h 0 row refl in
              rw (same, good)
                (ap (◌∷◌ (look (record { chunk_id = chunk_id; chunk_offset = i }))) others
                  ∙ ap (λ o. o ∷ map some (filter row_passes part)) found)
          | inr bad ↦ rw (same, bad) others
        ]
