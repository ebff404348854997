-- ===== src/DictionarySegment/Dictionary.antt =====
-- `fill_dictionary`: the dictionary holds the value of every row that is not null.
use dyod_so_se.Algorithm.Order.{In, All-In, IsStrict}
use dyod_so_se.Algorithm.Sort.{
  length-sort, length-unique-le, In-sort, sort-In, unique-In, In-unique, sort-IsSorted,
  unique-IsStrict,
}
use dyod_so_se.Algorithm.{sort, unique, contains_true}
use dyod_so_se.DictionarySegment.Flags.{
  masked_default, masked_above, IsFrom, mask-IsFrom, map-IsFrom,
}
use dyod_so_se.DictionarySegment.Invariant.{IsAboveDefault, IsNullSafe}
use dyod_so_se.DictionarySegment.{fill_dictionary}
use dyod_so_se.Outcome.{ok}
use dyod_so_se.Prelude.{
  ℕ, suc, ◌+◌, ◌≤◌, ◌≡◌, refl, sym, ap, Bool, true, false, ◌⊎◌, inl, inr, List, [], ◌∷◌, Option,
  none, some, length, All, arith, Bool-cases,
}
use dyod_so_se.Scalar.{Scalar, IsLawful}
use dyod_so_se.ValueSegment.Invariant.{mask, cells, cells_of, IsMasked, FlagsFit, IsValid}
use dyod_so_se.ValueSegment.{ValueSegment}

module _ {T : Type 0} (o : Scalar T) where
  -- a row has an entry: its value, or room for one id more
  abbrev pub HasEntry : List T → ℕ → Option T → Type 0
  HasEntry dictionary distinct none = length dictionary + 1 ≡ distinct
  HasEntry dictionary distinct (some v) = In v dictionary

  pub record FilledDictionary (s : ValueSegment T) (dictionary : List T) (distinct : ℕ)
      : Type 0 where
    pub ascending : IsStrict o dictionary
    pub size : length dictionary ≤ distinct
    pub bounded : distinct ≤ length s.values
    pub entries : All (HasEntry dictionary distinct) (cells s)

module _ {T : Type 0} (o : Scalar T) (laws : IsLawful o) where
  abbrev pub distinct_values : List T → List T
  distinct_values vs = unique o (sort o vs)

  pub distinct-IsStrict : (vs : List T) → IsStrict o (distinct_values vs)
  distinct-IsStrict vs = unique-IsStrict o laws (sort o vs) (sort-IsSorted o laws vs)

  pub In-distinct : (v : T) (vs : List T) → In v vs → In v (distinct_values vs)
  In-distinct v vs i = In-unique o laws v (sort o vs) (In-sort o v vs i)

  pub distinct-In : (v : T) (vs : List T) → In v (distinct_values vs) → In v vs
  distinct-In v vs i = sort-In o v vs (unique-In o v (sort o vs) i)

  pub length-distinct-le : (vs : List T) → length (distinct_values vs) ≤ length vs
  length-distinct-le vs = omega (arith, length-unique-le o (sort o vs), length-sort o vs)

  -- `erase(begin())` takes the default value away, and nothing else that a row holds
  erase-default :
      (ds : List T) (z : T)
      → IsStrict o ds
      → In z ds
      → ((v : T) → In v ds → (v ≡ z) ⊎ (o.less z v ≡ true))
      → (rest : List T) × (ds ≡ z ∷ rest)
  erase-default [] z s i h = absurd i
  erase-default (x ∷ xs) z s i h = (xs, ap (λ y. y ∷ xs) (head i (h x (inl refl))))
    where
      head : (z ≡ x) ⊎ In z xs → (x ≡ z) ⊎ (o.less z x ≡ true) → x ≡ z
      head (inl e) k = sym e
      head (inr i) (inl e) = e
      head (inr i) (inr lt) =
          let up : o.less x z ≡ true = All-In (λ y. o.less x y ≡ true) z xs s.0 i in
          ground (arith, laws.less_trans x z x, laws.less_irrefl x)

  entries_of :
      (G : Option T → Type 0) (b : Bool) (vs : List T) (dictionary : List T) (distinct : ℕ)
      (cs : List (Option T))
      → (b ≡ true → length dictionary + 1 ≡ distinct)
      → ((v : T) → In v vs → G (some v) → In v dictionary)
      → All (IsFrom b vs) cs
      → All G cs
      → All (HasEntry o dictionary distinct) cs
  entries_of G b vs dictionary distinct [] n e a g = tt
  entries_of G b vs dictionary distinct (none ∷ cs) n e a g =
      (n a.0, entries_of G b vs dictionary distinct cs n e a.1 g.1)
  entries_of G b vs dictionary distinct (some v ∷ cs) n e a g =
      (e v a.0 g.0, entries_of G b vs dictionary distinct cs n e a.1 g.1)

  All-unit : (cs : List (Option T)) → All (λ _. Unit {0}) cs
  All-unit [] = tt
  All-unit (c ∷ cs) = (tt, All-unit cs)

  abbrev Fills : ValueSegment T → Type 0
  Fills s =
      (dictionary : List T) × (distinct : ℕ) × (fill_dictionary o s ≡ ok (dictionary, distinct))
      × FilledDictionary o s dictionary distinct

  fill_whole :
      (flags : Option (List Bool)) (vs : List T)
      → All (IsFrom false vs) (cells_of flags vs)
      → FilledDictionary o
          (record { values = vs; null_values = flags })
          (distinct_values vs)
          (length (distinct_values vs))
  fill_whole flags vs from = record {
    ascending = distinct-IsStrict vs;
    size = omega arith;
    bounded = length-distinct-le vs;
    entries =
        entries_of (λ _. Unit {0}) false vs (distinct_values vs) (length (distinct_values vs))
          (cells_of flags vs) (λ e. cc) (λ v i _. In-distinct v vs i) from (All-unit _);
  }

  fill_erased :
      (fs : List Bool) (vs rest : List T)
      → IsMasked o.default_value fs vs
      → All (IsAboveDefault o) (mask fs vs)
      → distinct_values vs ≡ o.default_value ∷ rest
      → FilledDictionary o
          (record { values = vs; null_values = some fs })
          rest
          (length (distinct_values vs))
  fill_erased fs vs rest m above e =
      let z = o.default_value in
      let len : length (distinct_values vs) ≡ suc (length rest) = ap length e in
      let strict : IsStrict o (z ∷ rest) = rw e at (distinct-IsStrict vs) in
      let left : (v : T) → In v vs → o.less z v ≡ true → In v rest =
        λ v i lt. not_default v rest lt (rw e at (In-distinct v vs i)) in
      record {
        ascending = strict.1;
        size = omega arith;
        bounded = length-distinct-le vs;
        entries =
            entries_of (IsAboveDefault o) (contains_true fs) vs rest (length (distinct_values vs))
              (mask fs vs) (λ _. omega arith) left (mask-IsFrom z fs vs m) above;
      }
    where
      not_default :
          (v : T) (xs : List T)
          → o.less o.default_value v ≡ true
          → In v (o.default_value ∷ xs)
          → In v xs
      not_default v xs lt (inl e) = ground (arith, laws.less_irrefl v)
      not_default v xs lt (inr i) = i

  fill_flags :
      (fs : List Bool) (vs : List T)
      → IsMasked o.default_value fs vs
      → (contains_true fs ≡ true → All (IsAboveDefault o) (mask fs vs))
      → Fills (record { values = vs; null_values = some fs })
  unfolding fill_dictionary
  fill_flags fs vs m safe = elim (Bool-cases (contains_true fs)) [
    | inl t ↦
        let z = o.default_value in
        let (rest, e) =
          erase-default (distinct_values vs) z (distinct-IsStrict vs)
            (In-distinct z vs (masked_default z fs vs m t))
            (λ v i. masked_above o fs vs v m (safe t) (distinct-In v vs i)) in
        (rest, length (distinct_values vs), rw (t, e), fill_erased fs vs rest m (safe t) e)
    | inr f ↦ (
      distinct_values vs,
      length (distinct_values vs),
      rw f,
      fill_whole (some fs) vs (rw f at (mask-IsFrom o.default_value fs vs m)),
    )
  ]

  -- On a valid, null-safe segment `fill_dictionary` does not fail.
  fill_fields :
      (flags : Option (List Bool)) (vs : List T)
      → FlagsFit o.default_value flags vs
      → IsNullSafe o (record { values = vs; null_values = flags })
      → Fills (record { values = vs; null_values = flags })
  unfolding fill_dictionary
  fill_fields none vs f safe =
      (distinct_values vs, length (distinct_values vs), refl, fill_whole none vs (map-IsFrom vs))
  fill_fields (some fs) vs f safe = fill_flags fs vs f safe

  pub fill_dictionary-Fills : (s : ValueSegment T) → IsValid o s → IsNullSafe o s → Fills s
  fill_dictionary-Fills s v safe = fill_fields s.null_values s.values v safe
