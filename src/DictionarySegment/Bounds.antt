-- ===== src/DictionarySegment/Bounds.antt =====
-- The two searches of a dictionary segment by value id.
use dyod_so_se.Algorithm.Bounds.{
  lower_bound-le-length, upper_bound-le-length, lt-lower_bound, lt-upper_bound,
}
use dyod_so_se.Algorithm.{lower_bound, upper_bound}
use dyod_so_se.DictionarySegment.Invariant.{IsDictionary}
use dyod_so_se.DictionarySegment.{DictionarySegment, lower_bound_id, upper_bound_id}
use dyod_so_se.Prelude.{
  ℕ, ◌^◌, ◌<◌, ◌≤◌, ◌≡◌, ◌⊎◌, inl, inr, Bool, true, false, not, some, length, arith, get_elem?,
  get_elem?-lt, ltb, ◌==◌, Bool-cases,
}
use dyod_so_se.Scalar.{Scalar, IsLawful}
use dyod_so_se.Types.{invalid_value_id}
use dyod_so_se.ValueSegment.Reads.{get_elem?-below}

module _ {T : Type 0} (o : Scalar T) (ds : DictionarySegment T) (v : T) where
  -- The id is the first whose value passes a test that the values below fail, or it is invalid and
  -- no value passes.
  abbrev pub IsFirst : (T → Bool) → ℕ → Type 0
  IsFirst fails id =
      ((id ≡ invalid_value_id)
        × ((j : ℕ) (x : T) → get_elem? ds.dictionary j ≡ some x → fails x ≡ true))
      ⊎ ((x : T) × (get_elem? ds.dictionary id ≡ some x)
          × (fails x ≡ false)
          × ((j : ℕ) (y : T) → j < id → get_elem? ds.dictionary j ≡ some y → fails y ≡ true))

  -- an id of the dictionary is below the id of a bound exactly if it is below the bound
  pub lt-lower_bound_id :
      (id : ℕ)
      → length ds.dictionary < 2 ^ 32
      → id < length ds.dictionary
      → ltb id (lower_bound_id o ds v) ≡ ltb id (lower_bound o ds.dictionary v)
  unfolding lower_bound_id
  lt-lower_bound_id id small h = ground (arith, lower_bound-le-length o ds.dictionary v)

  pub lt-upper_bound_id :
      (id : ℕ)
      → length ds.dictionary < 2 ^ 32
      → id < length ds.dictionary
      → ltb id (upper_bound_id o ds v) ≡ ltb id (upper_bound o ds.dictionary v)
  unfolding upper_bound_id
  lt-upper_bound_id id small h = ground (arith, upper_bound-le-length o ds.dictionary v)

  bound-IsFirst :
      (fails : T → Bool) (i id : ℕ)
      → i ≤ length ds.dictionary
      → ((j : ℕ) (x : T) → get_elem? ds.dictionary j ≡ some x → ltb j i ≡ fails x)
      → (i ≡ length ds.dictionary → id ≡ invalid_value_id)
      → (i < length ds.dictionary → id ≡ i)
      → IsFirst fails id
  bound-IsFirst fails i id le split at_end inside = elim (Bool-cases (i == length ds.dictionary)) [
    | inl e ↦ inl (
      at_end (ground arith),
      λ j x there. ground (arith, split j x there, get_elem?-below ds.dictionary j x there),
    )
    | inr ne ↦
        let below : i < length ds.dictionary = ground arith in
        let (x, there) = get_elem?-lt ds.dictionary i below in
        let same = inside below in
        inr (
          x,
          rw same there,
          ground (arith, split i x there),
          λ j y lt here. ground (arith, split j y here),
        )
  ]

  module _ (laws : IsLawful o) (w : IsDictionary o ds) where
    -- In a well-formed dictionary segment of a type with a lawful order, `lower_bound` returns the
    -- first value id whose value is not below the search value, or the invalid id, and then every
    -- value is below it.
    pub lower_bound_id-IsFirst : IsFirst (λ x. o.less x v) (lower_bound_id o ds v)
    unfolding lower_bound_id
    lower_bound_id-IsFirst =
        let i = lower_bound o ds.dictionary v in
        bound-IsFirst (λ x. o.less x v) i _ (lower_bound-le-length o ds.dictionary v)
          (λ j x e. lt-lower_bound o laws ds.dictionary j x v w.ascending e) (λ h. ground arith)
          (λ h. ground (arith, w.small))

    -- In a well-formed dictionary segment of a type with a lawful order, `upper_bound` returns the
    -- first value id whose value is above the search value, or the invalid id, and then no value is
    -- above it.
    pub upper_bound_id-IsFirst : IsFirst (λ x. not (o.less v x)) (upper_bound_id o ds v)
    unfolding upper_bound_id
    upper_bound_id-IsFirst =
        let i = upper_bound o ds.dictionary v in
        bound-IsFirst (λ x. not (o.less v x)) i _ (upper_bound-le-length o ds.dictionary v)
          (λ j x e. lt-upper_bound o laws ds.dictionary j x v w.ascending e) (λ h. ground arith)
          (λ h. ground (arith, w.small))

    -- In a well-formed dictionary segment of a type with a lawful order, `lower_bound` returns the
    -- first value id whose value is not below the search value, and `upper_bound` the first whose
    -- value is above it, or the invalid id where there is none.
    pub bound_ids-AreFirst :
        IsFirst (λ x. o.less x v) (lower_bound_id o ds v)
        × IsFirst (λ x. not (o.less v x)) (upper_bound_id o ds v)
    bound_ids-AreFirst = (lower_bound_id-IsFirst, upper_bound_id-IsFirst)
