-- ===== src/Algorithm/Sort.antt =====
-- Sorting and `unique`: order, and the elements that stay.
use dyod_so_se.Algorithm.Order.{
  In, All-In, In-All, All-mono, IsStrict, IsSorted, less_asymm, not_less_trans,
}
use dyod_so_se.Algorithm.{insert_sorted, sort, unique_after, unique}
use dyod_so_se.Prelude.{
  ◌≡◌, refl, true, false, List, [], ◌∷◌, ◌⊎◌, inl, inr, All, Bool-cases, arith, suc, ◌≤◌, length,
}
use dyod_so_se.Scalar.{Scalar, IsLawful}

module _ {T : Type 0} (o : Scalar T) where
  length-insert_sorted : (x : T) (xs : List T) → length (insert_sorted o x xs) ≡ suc (length xs)
  unfolding insert_sorted
  length-insert_sorted x [] = refl
  length-insert_sorted x (y ∷ ys) = ground (arith, length-insert_sorted x ys)

  pub length-sort : (xs : List T) → length (sort o xs) ≡ length xs
  unfolding sort
  length-sort [] = refl
  length-sort (x ∷ xs) = omega (arith, length-insert_sorted x (sort o xs), length-sort xs)

  length-unique_after-le : (p : T) (xs : List T) → length (unique_after o p xs) ≤ length xs
  unfolding unique_after
  length-unique_after-le p [] = omega arith
  length-unique_after-le p (y ∷ ys) =
      ground (arith, length-unique_after-le p ys, length-unique_after-le y ys)

  pub length-unique-le : (xs : List T) → length (unique o xs) ≤ length xs
  unfolding unique
  length-unique-le [] = omega arith
  length-unique-le (x ∷ xs) = omega (arith, length-unique_after-le x xs)

  In-insert_sorted : (x z : T) (xs : List T) → (z ≡ x) ⊎ In z xs → In z (insert_sorted o x xs)
  unfolding insert_sorted
  In-insert_sorted x z [] (inl e) = inl e
  In-insert_sorted x z [] (inr i) = absurd i
  In-insert_sorted x z (y ∷ ys) (inl e) = ground (arith, In-insert_sorted x z ys (inl e))
  In-insert_sorted x z (y ∷ ys) (inr (inl e)) = ground arith
  In-insert_sorted x z (y ∷ ys) (inr (inr i)) = ground (arith, In-insert_sorted x z ys (inr i))

  insert_sorted-In : (x z : T) (xs : List T) → In z (insert_sorted o x xs) → (z ≡ x) ⊎ In z xs
  unfolding insert_sorted
  insert_sorted-In x z [] (inl e) = inl e
  insert_sorted-In x z [] (inr i) = absurd i
  insert_sorted-In x z (y ∷ ys) i = ground (arith, insert_sorted-In x z ys)

  -- the sorted list has the same elements
  pub In-sort : (z : T) (xs : List T) → In z xs → In z (sort o xs)
  unfolding sort
  In-sort z [] i = i
  In-sort z (x ∷ xs) (inl e) = In-insert_sorted x z (sort o xs) (inl e)
  In-sort z (x ∷ xs) (inr i) = In-insert_sorted x z (sort o xs) (inr (In-sort z xs i))

  pub sort-In : (z : T) (xs : List T) → In z (sort o xs) → In z xs
  unfolding sort
  sort-In z [] i = i
  sort-In z (x ∷ xs) i = ground (arith, insert_sorted-In x z (sort o xs) i, sort-In z xs)

  unique_after-In : (p z : T) (xs : List T) → In z (unique_after o p xs) → In z xs
  unfolding unique_after
  unique_after-In p z [] i = i
  unique_after-In p z (y ∷ ys) i = ground (arith, unique_after-In p z ys, unique_after-In y z ys)

  pub unique-In : (z : T) (xs : List T) → In z (unique o xs) → In z xs
  unfolding unique
  unique-In z [] i = i
  unique-In z (x ∷ xs) i = ground (arith, unique_after-In x z xs)

  module _ (laws : IsLawful o) where
    In-unique_after :
        (p z : T) (xs : List T) → (z ≡ p) ⊎ In z xs → (z ≡ p) ⊎ In z (unique_after o p xs)
    unfolding unique_after
    In-unique_after p z [] i = i
    In-unique_after p z (y ∷ ys) i =
        ground (arith, In-unique_after p z ys, In-unique_after y z ys, (laws.equal_iff p y).0)

    pub In-unique : (z : T) (xs : List T) → In z xs → In z (unique o xs)
    unfolding unique
    In-unique z [] i = i
    In-unique z (x ∷ xs) i = In-unique_after x z xs i

    insert_sorted-IsSorted :
        (x : T) (xs : List T) → IsSorted o xs → IsSorted o (insert_sorted o x xs)
    unfolding insert_sorted
    insert_sorted-IsSorted x [] s = (tt, tt)
    insert_sorted-IsSorted x (y ∷ ys) s = elim (Bool-cases (o.less x y)) [
      | inl lt ↦ rw lt (
        (
          less_asymm o laws x y lt,
          All-mono (λ z. o.less z y ≡ false) (λ z. o.less z x ≡ false) ys
              (λ z h. not_less_trans o laws x y z (less_asymm o laws x y lt) h) s.0,
        ),
        s,
      )
      | inr ge ↦ rw ge (
        In-All (λ z. o.less z y ≡ false) (insert_sorted o x ys)
            (λ z i. above ge z (insert_sorted-In x z ys i)),
        insert_sorted-IsSorted x ys s.1,
      )
    ]
      where
        above : o.less x y ≡ false → (z : T) → (z ≡ x) ⊎ In z ys → o.less z y ≡ false
        above ge z (inl e) = rw e ge
        above ge z (inr i) = All-In (λ z. o.less z y ≡ false) z ys s.0 i

    pub sort-IsSorted : (xs : List T) → IsSorted o (sort o xs)
    unfolding sort
    sort-IsSorted [] = tt
    sort-IsSorted (x ∷ xs) = insert_sorted-IsSorted x (sort o xs) (sort-IsSorted xs)

    unique_after-IsStrict :
        (p : T) (xs : List T)
        → IsSorted o (p ∷ xs)
        → All (λ y. o.less p y ≡ true) (unique_after o p xs) × IsStrict o (unique_after o p xs)
    unfolding unique_after
    unique_after-IsStrict p [] s = (tt, tt)
    unique_after-IsStrict p (y ∷ ys) s = elim (Bool-cases (o.equal p y)) [
      | inl e ↦ rw (e, All, unique_after) (unique_after-IsStrict p ys (s.0.1, s.1.1))
      | inr ne ↦
          let (above, strict) = unique_after-IsStrict y ys s.1 in
          let lt : o.less p y ≡ true =
            ground (arith, laws.less_total p y, (laws.equal_iff p y).1) in
          rw (ne, unique_after)
            (
              (
                lt,
                All-mono (λ z. o.less y z ≡ true) (λ z. o.less p z ≡ true) (unique_after o y ys)
                    (λ z h. laws.less_trans p y z lt h) above,
              ),
              (above, strict),
            )
    ]

    -- what is left of a sorted list ascends strictly
    pub unique-IsStrict : (xs : List T) → IsSorted o xs → IsStrict o (unique o xs)
    unfolding unique
    unique-IsStrict [] s = tt
    unique-IsStrict (x ∷ xs) s = unique_after-IsStrict x xs s
