-- ===== src/Print/Fitted.antt =====
-- How `_column_string_widths` widens the columns over the cells of a chunk.
use dyod_so_se.Chunk
use dyod_so_se.Chunk.{Chunk}
use dyod_so_se.Outcome.{ok, ◌>>=◌, Build}
use dyod_so_se.Prelude.{
  ℕ, zero, suc, ◌+◌, ◌<◌, ◌≤◌, ◌≡◌, refl, sym, List, length, get_elem?-lt, arith, inl, inr,
  Bool-cases, ◌==◌, ==_iff,
}
use dyod_so_se.Print.Readings.{ReadsAs}
use dyod_so_se.Print.Widened.{
  Grown, AtLeast, Grown-refl, Grown-trans, Grown-AtLeast, length-Grown, Covers-Grown, CoversFrom,
  CellsAt, widen_rows-Grown,
}
use dyod_so_se.Print.Widths.{widen_rows, widen_columns}
use dyod_so_se.Reference.{Store}
use dyod_so_se.Table.Contents.{Row}
use dyod_so_se.Types.{Platform}
use mathlib.Core.Path.{subst}

module _ {P : Platform} (build : Build) (store : Store P) (depth : ℕ) where
  cells_at :
      (least most n : ℕ) (c : Chunk P) (part : List (Row P)) (k : ℕ)
      → ReadsAs build store depth n c part
      → k < n
      → CellsAt least most P build store depth c part k
  cells_at least most n c part k r inside i below =
      let (row, there) = get_elem?-lt part i below in
      let (v, value) = get_elem?-lt row k (omega (arith, r.wide i row there, inside)) in
      (row, v, there, value, r.reads i k row v there value)

  module _ (least most : ℕ) where
    -- the values of every column from `k` on are covered
    abbrev pub CoversColumns : List ℕ → ℕ → ℕ → List (Row P) → Type 0
    CoversColumns ws k count part =
        (j : ℕ) → k ≤ j → j < count → CoversFrom least most P ws j 0 part

    widen_columns-step :
        (c : Chunk P) (n k size : ℕ) (ws next ws' : List ℕ)
        → Chunk.size c ≡ ok size
        → widen_rows build store depth least most c k size 0 ws ≡ ok next
        → widen_columns build store depth least most c n (suc k) next ≡ ok ws'
        → widen_columns build store depth least most c (suc n) k ws ≡ ok ws'
    unfolding widen_columns
    widen_columns-step c n k size ws next ws' counted run run' = rw (counted, ◌>>=◌, run) run'

    pub widen_columns-Grown :
        (count : ℕ) (part : List (Row P)) (c : Chunk P) (n k : ℕ) (ws : List ℕ)
        → ReadsAs build store depth count c part
        → k + n ≡ count
        → count ≤ length ws
        → AtLeast least ws
        → (ws' : List ℕ) × (widen_columns build store depth least most c n k ws ≡ ok ws')
          × Grown least most ws ws'
          × CoversColumns ws' k count part
    unfolding widen_columns
    widen_columns-Grown count part c zero k ws r end wide above =
        (ws, refl, Grown-refl least most ws above, λ j le lt. absurd (omega (arith, end, le, lt)))
    widen_columns-Grown count part c (suc n) k ws r end wide above =
        let inside : k < count = omega (arith, end) in
        let (next, run, g, covers) =
          widen_rows-Grown least most P build store depth c part k (length part) 0 ws
            (cells_at least most count c part k r inside) (omega arith)
            (omega (arith, inside, wide)) above in
        let (ws', run', g', covers') =
          widen_columns-Grown count part c n (suc k) next r (omega (arith, end))
            (omega (arith, wide, length-Grown least most ws next g))
            (Grown-AtLeast least most ws next g) in
        (
          ws',
          widen_columns-step c n k (length part) ws next ws' (r.sized (omega (arith, inside))) run
              run',
          Grown-trans least most ws next ws' g g',
          from_column ws' k count part
              (λ i row v le e e'.
                Covers-Grown least most P next ws' k v g' (covers i row v le e e'))
              covers',
        )
      where
        from_column :
            (ws : List ℕ) (k count : ℕ) (part : List (Row P))
            → CoversFrom least most P ws k 0 part
            → CoversColumns ws (suc k) count part
            → CoversColumns ws k count part
        from_column ws k count part now later j le lt = elim (Bool-cases (j == k)) [
          | inl same ↦
              let one : j ≡ k = (==_iff _ _).0 same in
              subst (λ i. CoversFrom least most P ws i 0 part) (sym one) now
          | inr other ↦ later j (ground (arith, other, le)) lt
        ]
