-- ===== src/DictionarySegment/Invariant.antt =====
-- The rows that a dictionary segment stands for, and what holds of every segment that is built from
-- a value segment.
use dyod_so_se.Algorithm.Order.{IsStrict}
use dyod_so_se.Algorithm.{contains_true}
use dyod_so_se.DictionarySegment.{DictionarySegment}
use dyod_so_se.Prelude.{
  ℕ, suc, ◌^◌, ◌<◌, ◌≤◌, ◌≡◌, Bool, true, false, List, [], ◌∷◌, Option, none, some, map, length,
  All, get_elem?,
}
use dyod_so_se.Outcome.{Outcome, ok}
use dyod_so_se.Scalar.{Scalar}
use dyod_so_se.ValueSegment.Invariant.{cells}
use dyod_so_se.ValueSegment.{ValueSegment}

module _ {T : Type 0} where
  -- the id past the end of the dictionary decodes to `none`
  abbrev pub decoded : DictionarySegment T → List (Option T)
  decoded ds = map (get_elem? ds.dictionary) ds.attribute_vector.ids

  pub record IsDictionary (o : Scalar T) (ds : DictionarySegment T) : Type 0 where
    pub ascending : IsStrict o ds.dictionary
    pub small : length ds.dictionary < 2 ^ 32
    pub in_range : All (λ id. id ≤ length ds.dictionary) ds.attribute_vector.ids
    pub rows : length ds.attribute_vector.ids < 2 ^ 32

  abbrev pub has_null : ValueSegment T → Bool
  has_null s = elim s.null_values [ none ↦ false | some flags ↦ contains_true flags ]

  abbrev pub IsAboveDefault : Scalar T → Option T → Type 0
  IsAboveDefault o none = Unit
  IsAboveDefault o (some v) = o.less o.default_value v ≡ true

  -- What `fill_dictionary` relies on where a row is null: that `T{}`, which stands for null among
  -- the values, is below every value of a row that is not.
  abbrev pub IsNullSafe : Scalar T → ValueSegment T → Type 0
  IsNullSafe o s = has_null s ≡ true → All (IsAboveDefault o) (cells s)

  -- A vector of values, with a test for null by index, that spells the rows from `i` on
  abbrev pub Aligned : (ℕ → Outcome Bool) → ℕ → List T → List (Option T) → Type 0
  Aligned f i [] [] = Unit
  Aligned f i [] (c ∷ cs) = ⊥
  Aligned f i (v ∷ vs) [] = ⊥
  Aligned f i (v ∷ vs) (none ∷ cs) = (f i ≡ ok true) × Aligned f (suc i) vs cs
  Aligned f i (v ∷ vs) (some w ∷ cs) = (f i ≡ ok false) × (v ≡ w) × Aligned f (suc i) vs cs
