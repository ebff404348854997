-- ===== src/Algorithm.antt =====
-- The algorithms of the standard library that the dictionary is built and searched with: sorting,
-- `std::unique`, `std::lower_bound` and `std::upper_bound` on a sorted range, and an
-- `std::unordered_map` from values to value ids.
pub mod Order
pub mod Sort
pub mod Bounds
pub mod Inverted
use dyod_so_se.Prelude.{
  ℕ, suc, ◌+◌, Bool, true, false, ◌||◌, List, [], ◌∷◌, ◌++◌, Option, none, some, if◌then◌else◌,
}
use dyod_so_se.Scalar.{Scalar}

module _ {T : Type 0} (o : Scalar T) where
  -- `std::sort`: the values in ascending order
  unfoldable pub insert_sorted : T → List T → List T
  insert_sorted x [] = x ∷ []
  insert_sorted x (y ∷ ys) = if o.less x y then x ∷ y ∷ ys else y ∷ insert_sorted x ys

  unfoldable pub sort : List T → List T
  unfolding insert_sorted
  sort [] = []
  sort (x ∷ xs) = insert_sorted x (sort xs)

  -- `std::unique` and the `erase` behind it: an element equal to the last one kept is dropped
  unfoldable pub unique_after : T → List T → List T
  unique_after last [] = []
  unique_after last (y ∷ ys) = elim (o.equal last y) [
    | true ↦ unique_after last ys
    | false ↦ y ∷ unique_after y ys
  ]

  unfoldable pub unique : List T → List T
  unfolding unique_after
  unique [] = []
  unique (x ∷ xs) = x ∷ unique_after x xs

  -- the index of the first element that is not below `v`, and of the first that is above it
  unfoldable pub lower_bound : List T → T → ℕ
  lower_bound [] v = 0
  lower_bound (x ∷ xs) v = if o.less x v then suc (lower_bound xs v) else 0

  unfoldable pub upper_bound : List T → T → ℕ
  upper_bound [] v = 0
  upper_bound (x ∷ xs) v = if o.less v x then 0 else suc (upper_bound xs v)

  -- the map, with keys in the order of insertion
  abbrev pub Inverted : Type 0
  Inverted = List (T × ℕ)

  unfoldable pub find : T → Inverted → Option ℕ
  find k [] = none
  find k ((j, id) ∷ m) = if o.equal j k then some id else find k m

  -- `insert`, which leaves an entry that is there
  unfoldable pub insert : T → ℕ → Inverted → Inverted
  unfolding find
  insert k id m = elim (find k m) [ none ↦ m ++ (k, id) ∷ [] | some _ ↦ m ]

  -- `m[k]`, which inserts `ValueID{}`, that is 0, for a key that is not there
  unfoldable pub get_or_insert : T → Inverted → ℕ × Inverted
  unfolding find
  get_or_insert k m = elim (find k m) [ none ↦ (0, m ++ (k, 0) ∷ []) | some id ↦ (id, m) ]

  -- the loop that inverts the dictionary
  unfoldable pub invert : ℕ → List T → Inverted → Inverted
  unfolding insert
  invert key [] m = m
  invert key (x ∷ xs) m = invert (suc key) xs (insert x key m)

-- `std::find(…, true) != end`
abbrev pub contains_true : List Bool → Bool
contains_true [] = false
contains_true (b ∷ bs) = b || contains_true bs
