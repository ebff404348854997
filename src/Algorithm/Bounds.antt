-- ===== src/Algorithm/Bounds.antt =====
-- `lower_bound` and `upper_bound` in a strictly ascending list: how an index that holds a value
-- stands to the two bounds of a search value.
use dyod_so_se.Algorithm.Order.{All-In, In-get_elem?, IsStrict, less_asymm}
use dyod_so_se.Algorithm.{lower_bound, upper_bound}
use dyod_so_se.Prelude.{
  ℕ, zero, suc, ◌+◌, ◌≤◌, ◌≡◌, refl, true, not, List, [], ◌∷◌, All, Bool-cases, inl, inr, some,
  arith, length, get_elem?, ltb,
}
use dyod_so_se.Scalar.{Scalar, IsLawful}

module _ {T : Type 0} (o : Scalar T) where
  pub lower_bound-le-length : (xs : List T) (v : T) → lower_bound o xs v ≤ length xs
  unfolding lower_bound
  lower_bound-le-length [] v = omega arith
  lower_bound-le-length (x ∷ xs) v = ground (arith, lower_bound-le-length xs v)

  pub upper_bound-le-length : (xs : List T) (v : T) → upper_bound o xs v ≤ length xs
  unfolding upper_bound
  upper_bound-le-length [] v = omega arith
  upper_bound-le-length (x ∷ xs) v = ground (arith, upper_bound-le-length xs v)

  module _ (laws : IsLawful o) where
    pub head_less :
        (x : T) (xs : List T) (i : ℕ) (y : T)
        → All (λ z. o.less x z ≡ true) xs
        → get_elem? xs i ≡ some y
        → o.less x y ≡ true
    head_less x xs i y a e = All-In (λ z. o.less x z ≡ true) y xs a (In-get_elem? xs i y e)

    -- an index lies below the lower bound exactly if its value is below the search value
    pub lt-lower_bound :
        (xs : List T) (i : ℕ) (x v : T)
        → IsStrict o xs
        → get_elem? xs i ≡ some x
        → ltb i (lower_bound o xs v) ≡ o.less x v
    unfolding lower_bound
    lt-lower_bound [] i x v s e = cc
    lt-lower_bound (y ∷ ys) zero x v s e = ground arith
    lt-lower_bound (y ∷ ys) (suc i) x v s e =
        ground
          (arith, lt-lower_bound ys i x v s.1 e, head_less y ys i x s.0 e, laws.less_trans y x v)

    -- an index lies below the upper bound exactly if its value is not above the search value
    pub lt-upper_bound :
        (xs : List T) (i : ℕ) (x v : T)
        → IsStrict o xs
        → get_elem? xs i ≡ some x
        → ltb i (upper_bound o xs v) ≡ not (o.less v x)
    unfolding upper_bound
    lt-upper_bound [] i x v s e = cc
    lt-upper_bound (y ∷ ys) zero x v s e = ground arith
    lt-upper_bound (y ∷ ys) (suc i) x v s e =
        ground
          (arith, lt-upper_bound ys i x v s.1 e, head_less y ys i x s.0 e, laws.less_trans v y x)

    upper_bound_of_above :
        (xs : List T) (v : T) → All (λ y. o.less v y ≡ true) xs → upper_bound o xs v ≡ 0
    unfolding upper_bound
    upper_bound_of_above [] v a = refl
    upper_bound_of_above (x ∷ xs) v a = ground arith

    -- at most one value equals the search value
    pub bounds_apart :
        (xs : List T) (v : T)
        → IsStrict o xs
        → (lower_bound o xs v ≤ upper_bound o xs v) × (upper_bound o xs v ≤ lower_bound o xs v + 1)
    unfolding lower_bound upper_bound
    bounds_apart [] v s = omega arith
    bounds_apart (x ∷ xs) v s = elim (Bool-cases (o.less x v)) [
      | inl lt ↦ ground (arith, bounds_apart xs v s.1, less_asymm o laws x v lt)
      | inr ge ↦ elim (Bool-cases (o.less v x)) [
        | inl gt ↦ ground arith
        | inr le ↦
            let same = laws.less_total x v ge le in ground (arith, upper_bound_of_above xs x s.0)
      ]
    ]
