-- ===== src/Print/Widened.antt =====
-- The widths of the columns: how they grow over the cells, and what they cover.

use dyod_so_se.Chunk.{Chunk}
use dyod_so_se.Outcome.{ok, ◌>>=◌, Build}
use dyod_so_se.Prelude.{
  ℕ, zero, suc, ◌+◌, ◌<◌, ◌≤◌, ◌≡◌, refl, sym, ap, List, [], ◌∷◌, some, length, get_elem?,
  get_elem?-lt, set, get_elem?-set_self, All, min, max, lt→ltb, arith, inl, inr, Bool-cases, ◌==◌,
  ==_iff,
}
use dyod_so_se.Print.Widths.{cell_length, cell, widen_rows}
use dyod_so_se.Reference.{Store}
use dyod_so_se.Table.Contents.{Row}
use dyod_so_se.Types.{Platform, Variant}
use mathlib.Core.Path.{subst}
use dyod_so_se.ValueSegment.Reads.{get_elem?-below}

-- Widths that are not smaller, and not above `most` unless they were before
abbrev pub Grown : ℕ → ℕ → List ℕ → List ℕ → Type 0
Grown least most [] [] = Unit
Grown least most [] (w ∷ ws) = ⊥
Grown least most (b ∷ bs) [] = ⊥
Grown least most (b ∷ bs) (w ∷ ws) =
    (least ≤ b) × (b ≤ w) × (w ≤ max b most) × Grown least most bs ws

abbrev pub AtLeast : ℕ → List ℕ → Type 0
AtLeast least ws = All (λ w. least ≤ w) ws

module _ (least most : ℕ) where
  pub Grown-refl : (ws : List ℕ) → AtLeast least ws → Grown least most ws ws
  Grown-refl [] h = tt
  Grown-refl (w ∷ ws) h = (h.0, omega arith, omega arith, Grown-refl ws h.1)

  pub Grown-trans :
      (as_ bs cs : List ℕ)
      → Grown least most as_ bs
      → Grown least most bs cs
      → Grown least most as_ cs
  Grown-trans [] [] [] g h = tt
  Grown-trans [] [] (c ∷ cs) g h = absurd h
  Grown-trans [] (b ∷ bs) cs g h = absurd g
  Grown-trans (a ∷ as_) [] cs g h = absurd g
  Grown-trans (a ∷ as_) (b ∷ bs) [] g h = absurd h
  Grown-trans (a ∷ as_) (b ∷ bs) (c ∷ cs) (g0, g1, g2, g3) (h0, h1, h2, h3) =
      (g0, omega (arith, g1, h1), omega (arith, g2, h2), Grown-trans as_ bs cs g3 h3)

  pub Grown-AtLeast : (bs ws : List ℕ) → Grown least most bs ws → AtLeast least ws
  Grown-AtLeast [] [] g = tt
  Grown-AtLeast [] (w ∷ ws) g = absurd g
  Grown-AtLeast (b ∷ bs) [] g = absurd g
  Grown-AtLeast (b ∷ bs) (w ∷ ws) (g0, g1, g2, g3) = (omega (arith, g0, g1), Grown-AtLeast bs ws g3)

  pub length-Grown : (bs ws : List ℕ) → Grown least most bs ws → length ws ≡ length bs
  length-Grown [] [] g = refl
  length-Grown [] (w ∷ ws) g = absurd g
  length-Grown (b ∷ bs) [] g = absurd g
  length-Grown (b ∷ bs) (w ∷ ws) g = ap suc (length-Grown bs ws g.3)

  Grown-set :
      (ws : List ℕ) (k w n : ℕ)
      → AtLeast least ws
      → get_elem? ws k ≡ some w
      → Grown least most ws (set ws k (max (max least w) (min most n)))
  Grown-set [] k w n h e = cc
  Grown-set (x ∷ ws) zero w n h e =
      let same : x ≡ w = cc in
      (h.0, omega (arith, same), omega (arith, same, h.0), Grown-refl ws h.1)
  Grown-set (x ∷ ws) (suc k) w n h e = (h.0, omega arith, omega arith, Grown-set ws k w n h.1 e)

  Grown-get :
      (bs ws : List ℕ) (k b : ℕ)
      → Grown least most bs ws
      → get_elem? bs k ≡ some b
      → (w : ℕ) × (get_elem? ws k ≡ some w) × (b ≤ w)
  Grown-get [] ws k b g e = cc
  Grown-get (x ∷ bs) [] k b g e = absurd g
  Grown-get (x ∷ bs) (w ∷ ws) zero b g e =
      let same : x ≡ b = cc in (w, refl, omega (arith, same, g.1))
  Grown-get (x ∷ bs) (w ∷ ws) (suc k) b g e = Grown-get bs ws k b g.3 e

  module _ (P : Platform) where
    -- the column is as wide as the value, up to `most`
    abbrev pub Covers : List ℕ → ℕ → Variant P → Type 0
    Covers ws k v = (w : ℕ) × (get_elem? ws k ≡ some w) × (min most (cell_length P v) ≤ w)

    pub Covers-Grown :
        (bs ws : List ℕ) (k : ℕ) (v : Variant P)
        → Grown least most bs ws
        → Covers bs k v
        → Covers ws k v
    Covers-Grown bs ws k v g (b, there, covered) =
        let (w, found, above) = Grown-get bs ws k b g there in
        (w, found, omega (arith, covered, above))

    covered_now :
        (ws : List ℕ) (k n w : ℕ) (v : Variant P)
        → k < length ws
        → n ≡ cell_length P v
        → Covers (set ws k (max (max least w) (min most n))) k v
    covered_now ws k n w v here same =
        (max (max least w) (min most n), get_elem?-set_self ws k _ here, omega (arith, same))

    -- the values of column `k` in the rows from `i` on are covered
    abbrev pub CoversFrom : List ℕ → ℕ → ℕ → List (Row P) → Type 0
    CoversFrom ws k i part =
        (j : ℕ) (row : Row P) (v : Variant P)
        → i ≤ j
        → get_elem? part j ≡ some row
        → get_elem? row k ≡ some v
        → Covers ws k v

    from_row :
        (ws : List ℕ) (k i : ℕ) (part : List (Row P)) (row : Row P) (v : Variant P)
        → get_elem? part i ≡ some row
        → get_elem? row k ≡ some v
        → Covers ws k v
        → CoversFrom ws k (suc i) part
        → CoversFrom ws k i part
    from_row ws k i part row v e e' now later j row' v' le h h' = elim (Bool-cases (j == i)) [
      | inl same ↦
          let one : j ≡ i = (==_iff _ _).0 same in
          let row_same : row' ≡ row = cc in
          let value_same : v' ≡ v = cc in subst (Covers ws k) (sym value_same) now
      | inr other ↦ later j row' v' (ground (arith, other, le)) h h'
    ]

    module _ (build : Build) (store : Store P) (depth : ℕ) where
      -- each row of a part has a value in the column, which reads from the chunk
      abbrev pub CellsAt : Chunk P → List (Row P) → ℕ → Type 0
      CellsAt c part k =
          (i : ℕ)
          → i < length part
          → (row : Row P) × (v : Variant P) × (get_elem? part i ≡ some row)
            × (get_elem? row k ≡ some v)
            × (cell build store depth c k i ≡ ok v)

      pub widen_rows-Grown :
          (c : Chunk P) (part : List (Row P)) (k n i : ℕ) (ws : List ℕ)
          → CellsAt c part k
          → i + n ≡ length part
          → k < length ws
          → AtLeast least ws
          → (ws' : List ℕ) × (widen_rows build store depth least most c k n i ws ≡ ok ws')
            × Grown least most ws ws'
            × CoversFrom ws' k i part
      unfolding widen_rows
      widen_rows-Grown c part k zero i ws cells end here above = (
        ws,
        refl,
        Grown-refl ws above,
        λ j row v le e e'. absurd (omega (arith, get_elem?-below part j row e, end, le)),
      )
      widen_rows-Grown c part k (suc n) i ws cells end here above =
          let (row, v, row_there, value_there, read) = cells i (omega (arith, end)) in
          let (w, width_there) = get_elem?-lt ws k here in
          let next = set ws k (max (max least w) (min most (cell_length P v))) in
          let grown = Grown-set ws k w (cell_length P v) above width_there in
          let (ws', run, g, covers) =
            widen_rows-Grown c part k n (suc i) next cells (omega (arith, end))
              (omega (arith, here, length-Grown ws next grown)) (Grown-AtLeast ws next grown) in
          (
            ws',
            rw (read, ◌>>=◌, width_there, lt→ltb k (length ws) here) run,
            Grown-trans ws next ws' grown g,
            from_row ws' k i part row v row_there value_there
                (Covers-Grown next ws' k v g (covered_now ws k (cell_length P v) w v here refl))
                covers,
          )
