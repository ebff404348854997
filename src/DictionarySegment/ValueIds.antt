-- ===== src/DictionarySegment/ValueIds.antt =====
-- The value ids of a dictionary segment and the values that they stand for.
use dyod_so_se.Algorithm.Bounds.{head_less, lt-lower_bound}
use dyod_so_se.Algorithm.Order.{IsStrict}
use dyod_so_se.Algorithm.{lower_bound}
use dyod_so_se.DictionarySegment.Invariant.{IsDictionary}
use dyod_so_se.DictionarySegment.{
  DictionarySegment, null_value_id, value_of_value_id, lower_bound_id, lower_bound_variant,
}
use dyod_so_se.Outcome.{ok, ◌>>=◌, Build, debug, release, Error, debug_assert, value_id_is_null}
use dyod_so_se.Prelude.{
  ℕ, zero, suc, ◌^◌, ◌%◌, ◌<◌, ◌≡◌, refl, sym, ◌∙◌, true, false, inl, inr, List, [], ◌∷◌, some,
  length, get_elem?, get_elem?-lt, ltb, ◌==◌, Bool-cases, arith,
}
use dyod_so_se.Scalar.{Scalar, IsLawful}
use dyod_so_se.ValueSegment.Reads.{get_elem?-below}
use dyod_so_se.Types.{
  Platform, DataType, Value, scalar, to_variant, type_cast, type_cast?, variant_is_null, int, long,
  float, double, string,
}

module _ {T : Type 0} (o : Scalar T) (laws : IsLawful o) where
  less_at :
      (xs : List T) (i j : ℕ) (x y : T)
      → IsStrict o xs
      → i < j
      → get_elem? xs i ≡ some x
      → get_elem? xs j ≡ some y
      → o.less x y ≡ true
  less_at [] i j x y s h e e' = cc
  less_at (z ∷ zs) i zero x y s h e e' = absurd (omega (arith, h))
  less_at (z ∷ zs) zero (suc j) x y s h e e' =
      let same : z ≡ x = cc in rw (sym same) (head_less o laws z zs j y s.0 e')
  less_at (z ∷ zs) (suc i) (suc j) x y s h e e' = less_at zs i j x y s.1 (omega (arith, h)) e e'

  -- the lower bound of an element is its index
  lower_bound-get_elem? :
      (xs : List T) (i : ℕ) (x : T)
      → IsStrict o xs
      → get_elem? xs i ≡ some x
      → lower_bound o xs x ≡ i
  lower_bound-get_elem? xs i x s e =
      let k = lower_bound o xs x in
      let not_above : ltb i k ≡ false = lt-lower_bound o laws xs i x x s e ∙ laws.less_irrefl x in
      elim (Bool-cases (ltb k i)) [
        | inl below ↦
            let lt : k < i = ground (arith, below) in
            let (y, there) = get_elem?-lt xs k (omega (arith, lt, get_elem?-below xs i x e)) in
            let above : ltb k k ≡ true =
              lt-lower_bound o laws xs k y x s there ∙ less_at xs k i y x s lt there e in
            ground (arith, above)
        | inr other ↦ ground (arith, other, not_above)
      ]

asserted : (build : Build) (e : Error) → debug_assert build true e ≡ ok tt
asserted debug e = refl
asserted release e = refl

own_type :
    (P : Platform) (d : DataType) (v : Value P d)
    → (variant_is_null P (to_variant P d v) ≡ false) × (type_cast P d (to_variant P d v) ≡ ok v)
unfolding type_cast type_cast?
own_type P int v = (refl, refl)
own_type P long v = (refl, refl)
own_type P float v = (refl, refl)
own_type P double v = (refl, refl)
own_type P string v = (refl, refl)

module _ (P : Platform) (d : DataType) where
  -- In a well-formed dictionary segment of a type with a lawful order, `value_of_value_id` returns
  -- a value for each id below the size of the dictionary, and both overloads of `lower_bound` take
  -- the value, or the variant that holds it, back to the id.
  pub value_of_value_id-lower_bound_id :
      (build : Build) (ds : DictionarySegment (Value P d))
      → IsLawful (scalar P d)
      → IsDictionary (scalar P d) ds
      → (id : ℕ) → id < length ds.dictionary
      → (v : Value P d) × (value_of_value_id build ds id ≡ ok v)
        × (lower_bound_id (scalar P d) ds v ≡ id)
        × (lower_bound_variant P d ds (to_variant P d v) ≡ ok id)
  unfolding value_of_value_id null_value_id lower_bound_id lower_bound_variant
  value_of_value_id-lower_bound_id build ds laws w id inside =
      let (v, there) = get_elem?-lt ds.dictionary id inside in
      let known : (id == length ds.dictionary % 2 ^ 32) ≡ false = ground (arith, inside, w.small) in
      let index = lower_bound-get_elem? (scalar P d) laws ds.dictionary id v w.ascending there in
      let found : lower_bound_id (scalar P d) ds v ≡ id = ground (arith, index, inside, w.small) in
      let (there_is, cast) = own_type P d v in
      (
        v,
        rw (known, asserted build value_id_is_null, ◌>>=◌, there) refl,
        found,
        rw (there_is, cast, ◌>>=◌, found) refl,
      )
