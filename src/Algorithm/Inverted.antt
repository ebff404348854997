-- ===== src/Algorithm/Inverted.antt =====
-- The inverted dictionary finds each value of the dictionary at an index that holds it.
use dyod_so_se.Algorithm.Order.{In, IsStrict}
use dyod_so_se.Algorithm.{Inverted, find, insert, invert, get_or_insert}
use dyod_so_se.Prelude.{
  ℕ, suc, ◌+◌, ◌≡◌, refl, sym, true, false, List, [], ◌∷◌, ◌++◌, All, inl, inr, Option, none, some,
  arith, length, length-append, get_elem?, if◌then◌else◌, Option-cases, Bool-cases,
}
use dyod_so_se.Scalar.{Scalar, IsLawful}

module _ {T : Type 0} (o : Scalar T) where
  -- the first index that holds a key, counted from `key`
  index_from : ℕ → List T → T → Option ℕ
  index_from key [] v = none
  index_from key (x ∷ xs) v = if o.equal x v then some key else index_from (suc key) xs v

  or_else : Option ℕ → Option ℕ → Option ℕ
  or_else none b = b
  or_else (some a) b = some a

  find-append : (k : T) (m n : Inverted o) → find o k (m ++ n) ≡ or_else (find o k m) (find o k n)
  unfolding find or_else
  find-append k [] n = refl
  find-append k ((j, id) ∷ m) n = ground (arith, find-append k m n)

  find_single :
      (k v : T) (id : ℕ) → find o v ((k, id) ∷ []) ≡ (if o.equal k v then some id else none)
  unfolding find
  find_single k v id = refl

  -- `m[k]` changes nothing where the key is there
  pub get_or_insert-found :
      (v : T) (m : Inverted o) (i : ℕ) → find o v m ≡ some i → get_or_insert o v m ≡ (i, m)
  unfolding get_or_insert
  get_or_insert-found v m i e = rw (e, get_or_insert)

  module _ (laws : IsLawful o) where
    find-insert :
        (k v : T) (id : ℕ) (m : Inverted o)
        → find o v (insert o k id m) ≡ or_else (find o v m) (if o.equal k v then some id else none)
    unfolding insert or_else
    find-insert k v id m = elim (Option-cases (find o k m)) [
      | inl miss ↦
          rw (miss, insert) (ground (arith, find-append v m ((k, id) ∷ []), find_single k v id))
      | inr (x, hit) ↦ rw (hit, insert) (ground (arith, (laws.equal_iff k v).0))
    ]

    find-invert :
        (v : T) (key : ℕ) (xs : List T) (m : Inverted o)
        → find o v (invert o key xs m) ≡ or_else (find o v m) (index_from key xs v)
    unfolding invert or_else index_from
    find-invert v key [] m = ground arith
    find-invert v key (x ∷ xs) m =
        ground (arith, find-invert v (suc key) xs (insert o x key m), find-insert x v key m)

    index_from-In :
        (key : ℕ) (xs : List T) (v : T)
        → In v xs
        → (i : ℕ) × (index_from key xs v ≡ some (key + i)) × (get_elem? xs i ≡ some v)
    unfolding index_from
    index_from-In key [] v h = absurd h
    index_from-In key (x ∷ xs) v h = elim (Bool-cases (o.equal x v)) [
      | inl e ↦ (0, rw e (ground arith), ground (arith, (laws.equal_iff x v).0))
      | inr ne ↦
          let (i, found, holds) = index_from-In (suc key) xs v (rest h ne) in
          (suc i, rw ne (ground arith), holds)
    ]
      where
        rest : In v (x ∷ xs) → o.equal x v ≡ false → In v xs
        rest (inl e) ne = ground (arith, (laws.equal_iff x v).1)
        rest (inr i) ne = i

    -- a value of the dictionary is found, under an id that holds it
    pub find-inverted :
        (xs : List T) (v : T)
        → In v xs
        → (i : ℕ) × (find o v (invert o 0 xs []) ≡ some i) × (get_elem? xs i ≡ some v)
    unfolding find or_else
    find-inverted xs v h =
        let (i, found, holds) = index_from-In 0 xs v h in
        (i, ground (arith, find-invert v 0 xs []), holds)

    -- a value that the dictionary lacks is not found
    index_from-not_In : (key : ℕ) (xs : List T) (v : T) → ¬ In v xs → index_from key xs v ≡ none
    unfolding index_from
    index_from-not_In key [] v h = refl
    index_from-not_In key (x ∷ xs) v h = elim (Bool-cases (o.equal x v)) [
      | inl e ↦ absurd (h (inl (sym ((laws.equal_iff x v).0 e))))
      | inr ne ↦ rw ne (index_from-not_In (suc key) xs v (λ i. h (inr i)))
    ]

    pub find-not_inverted : (xs : List T) (v : T) → ¬ In v xs → find o v (invert o 0 xs []) ≡ none
    unfolding find or_else
    find-not_inverted xs v h = ground (arith, find-invert v 0 xs [], index_from-not_In 0 xs v h)

    length-insert :
        (k : T) (id : ℕ) (m : Inverted o)
        → find o k m ≡ none
        → length (insert o k id m) ≡ length m + 1
    unfolding insert
    length-insert k id m e = rw (e, length, insert) (omega (arith, length-append m ((k, id) ∷ [])))

    find-insert_fresh :
        (x y : T) (id : ℕ) (m : Inverted o)
        → o.less x y ≡ true
        → find o y m ≡ none
        → find o y (insert o x id m) ≡ none
    unfolding or_else
    find-insert_fresh x y id m lt miss =
        let ne : o.equal x y ≡ false = ground (arith, laws.less_irrefl x, (laws.equal_iff x y).0) in
        ground (arith, find-insert x y id m)

    length-invert-from :
        (key : ℕ) (xs : List T) (m : Inverted o)
        → IsStrict o xs
        → All (λ x. find o x m ≡ none) xs
        → length (invert o key xs m) ≡ length m + length xs
    unfolding invert
    length-invert-from key [] m s a = omega arith
    length-invert-from key (x ∷ xs) m s a = omega (
      arith,
      length-invert-from (suc key) xs (insert o x key m) s.1 (fresh xs s.0 a.1),
      length-insert x key m a.0,
    )
      where
        fresh :
            (ys : List T)
            → All (λ y. o.less x y ≡ true) ys
            → All (λ y. find o y m ≡ none) ys
            → All (λ y. find o y (insert o x key m) ≡ none) ys
        fresh [] l f = tt
        fresh (y ∷ ys) l f = (find-insert_fresh x y key m l.0 f.0, fresh ys l.1 f.1)

    -- the size that the debug assertion compares
    pub length-invert : (xs : List T) → IsStrict o xs → length (invert o 0 xs []) ≡ length xs
    unfolding find
    length-invert xs s = omega (arith, length-invert-from 0 xs [] s (none_found xs))
      where
        none_found : (ys : List T) → All (λ y. find o y [] ≡ none) ys
        none_found [] = tt
        none_found (y ∷ ys) = (refl, none_found ys)
