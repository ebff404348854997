-- ===== src/TableScan/Selection.antt =====
-- The specification of a scan: the offsets of the rows that are not null and pass the test.
use dyod_so_se.Algorithm.Order.{In, All-In, All-mono}
use dyod_so_se.Prelude.{
  ℕ, zero, suc, ◌+◌, ◌≡◌, refl, Bool, true, List, [], ◌∷◌, Option, none, some, if◌then◌else◌, All,
  arith, get_elem?, ap, ◌∙◌, Bool-cases, inl, inr, ◌↔◌,
}
use dyod_so_se.Types.{RowId, PosList}

module _ {T : Type 0} where
  -- the positions from offset `i` on
  unfoldable pub select : (T → Bool) → ℕ → ℕ → List (Option T) → PosList
  select passes chunk_id i [] = []
  select passes chunk_id i (none ∷ cs) = select passes chunk_id (suc i) cs
  select passes chunk_id i (some v ∷ cs) =
      let rest = select passes chunk_id (suc i) cs in
      if passes v then record { chunk_id = chunk_id; chunk_offset = i } ∷ rest else rest

  -- what a position of the result says of its row
  abbrev pub Selected : (T → Bool) → ℕ → ℕ → List (Option T) → RowId → Type 0
  Selected passes chunk_id i cs r =
      (j : ℕ) × (v : T) × (r ≡ record { chunk_id = chunk_id; chunk_offset = i + j })
      × (get_elem? cs j ≡ some (some v))
      × (passes v ≡ true)

module _ {T : Type 0} (passes : T → Bool) (chunk_id : ℕ) where
  shifted :
      (i : ℕ) (c : Option T) (cs : List (Option T)) (r : RowId)
      → Selected passes chunk_id (suc i) cs r
      → Selected passes chunk_id i (c ∷ cs) r
  shifted i c cs r (j, v, e, there, p) =
      let same : suc i + j ≡ i + suc j = omega arith in
      (suc j, v, e ∙ ap (λ k. record { chunk_id = chunk_id; chunk_offset = k }) same, there, p)

  shift-All :
      (i : ℕ) (c : Option T) (cs : List (Option T)) (rs : PosList)
      → All (Selected passes chunk_id (suc i) cs) rs
      → All (Selected passes chunk_id i (c ∷ cs)) rs
  shift-All i c cs rs = All-mono _ _ rs (λ r. shifted i c cs r)

  select-Selected :
      (i : ℕ) (cs : List (Option T))
      → All (Selected passes chunk_id i cs) (select passes chunk_id i cs)
  unfolding select
  select-Selected i [] = tt
  select-Selected i (none ∷ cs) = shift-All i none cs _ (select-Selected (suc i) cs)
  select-Selected i (some v ∷ cs) = elim (Bool-cases (passes v)) [
    | inl p ↦
        let same : i ≡ i + 0 = omega arith in
        rw p (
          (0, v, ap (λ k. record { chunk_id = chunk_id; chunk_offset = k }) same, refl, p),
          shift-All i (some v) cs _ (select-Selected (suc i) cs),
        )
    | inr f ↦ rw f (shift-All i (some v) cs _ (select-Selected (suc i) cs))
  ]

  moved :
      (i j : ℕ) (rs : PosList)
      → In (record { chunk_id = chunk_id; chunk_offset = suc i + j }) rs
      → In (record { chunk_id = chunk_id; chunk_offset = i + suc j }) rs
  moved i j rs h = let same : i + suc j ≡ suc i + j = omega arith in rw same h

  Selected-select :
      (i j : ℕ) (v : T) (cs : List (Option T))
      → get_elem? cs j ≡ some (some v)
      → passes v ≡ true
      → In (record { chunk_id = chunk_id; chunk_offset = i + j }) (select passes chunk_id i cs)
  unfolding select
  Selected-select i j v [] e p = cc
  Selected-select i zero v (none ∷ cs) e p = cc
  Selected-select i zero v (some w ∷ cs) e p =
      let same : i + 0 ≡ i = omega arith in
      let taken : passes w ≡ true = cc in
      rw taken (inl (ap (λ k. record { chunk_id = chunk_id; chunk_offset = k }) same))
  Selected-select i (suc j) v (none ∷ cs) e p = moved i j _ (Selected-select (suc i) j v cs e p)
  Selected-select i (suc j) v (some w ∷ cs) e p =
      let there = moved i j _ (Selected-select (suc i) j v cs e p) in
      elim (Bool-cases (passes w)) [ inl t ↦ rw t (inr there) | inr f ↦ rw f there ]

  -- A position is in the result of a scan exactly if it names a row of the chunk that is not null
  -- and whose value passes.
  pub select_iff :
      (cs : List (Option T)) (r : RowId)
      → In r (select passes chunk_id 0 cs) ↔ Selected passes chunk_id 0 cs r
  select_iff cs r = (
    All-In (Selected passes chunk_id 0 cs) r _ (select-Selected 0 cs),
    λ h. rw h.2 (Selected-select 0 h.0 h.1 cs h.3 h.4),
  )
