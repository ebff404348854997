-- ===== src/DictionarySegment/Flags.antt =====
-- What the null flags of a value segment say of its values and of its rows.
use dyod_so_se.Algorithm.Order.{In}
use dyod_so_se.Algorithm.{contains_true}
use dyod_so_se.DictionarySegment.Invariant.{IsAboveDefault}
use dyod_so_se.Prelude.{
  ◌≡◌, refl, sym, ◌∙◌, Bool, true, false, ◌⊎◌, inl, inr, List, [], ◌∷◌, Option, none, some, map,
  All,
}
use dyod_so_se.Scalar.{Scalar}
use dyod_so_se.ValueSegment.Invariant.{mask, IsMasked}

module _ {T : Type 0} where
  pub masked_default :
      (z : T) (bs : List Bool) (vs : List T) → IsMasked z bs vs → contains_true bs ≡ true → In z vs
  masked_default z [] [] m h = cc
  masked_default z [] (v ∷ vs) m h = absurd m
  masked_default z (b ∷ bs) [] m h = absurd m
  masked_default z (true ∷ bs) (v ∷ vs) m h = inl (sym (m.0 refl))
  masked_default z (false ∷ bs) (v ∷ vs) m h = inr (masked_default z bs vs m.1 h)

  pub masked_above :
      (o : Scalar T) (bs : List Bool) (vs : List T) (v : T)
      → IsMasked o.default_value bs vs
      → All (IsAboveDefault o) (mask bs vs)
      → In v vs
      → (v ≡ o.default_value) ⊎ (o.less o.default_value v ≡ true)
  masked_above o [] [] v m a i = absurd i
  masked_above o [] (x ∷ vs) v m a i = absurd m
  masked_above o (b ∷ bs) [] v m a i = absurd m
  masked_above o (true ∷ bs) (x ∷ vs) v m a (inl e) = inl (e ∙ m.0 refl)
  masked_above o (false ∷ bs) (x ∷ vs) v m a (inl e) = inr (rw e a.0)
  masked_above o (b ∷ bs) (x ∷ vs) v m a (inr i) = masked_above o bs vs v m.1 a.1 i

  -- the cells are values of the segment, and one is null only if a flag says so
  abbrev pub IsFrom : Bool → List T → Option T → Type 0
  IsFrom b vs none = b ≡ true
  IsFrom b vs (some v) = In v vs

  pub IsFrom-grow :
      (b c : Bool) (x : T) (vs : List T) (cs : List (Option T))
      → (b ≡ true → c ≡ true)
      → All (IsFrom b vs) cs
      → All (IsFrom c (x ∷ vs)) cs
  IsFrom-grow b c x vs [] h a = tt
  IsFrom-grow b c x vs (none ∷ cs) h a = (h a.0, IsFrom-grow b c x vs cs h a.1)
  IsFrom-grow b c x vs (some v ∷ cs) h a = (inr a.0, IsFrom-grow b c x vs cs h a.1)

  pub mask-IsFrom :
      (z : T) (bs : List Bool) (vs : List T)
      → IsMasked z bs vs
      → All (IsFrom (contains_true bs) vs) (mask bs vs)
  mask-IsFrom z [] [] m = tt
  mask-IsFrom z [] (v ∷ vs) m = absurd m
  mask-IsFrom z (b ∷ bs) [] m = absurd m
  mask-IsFrom z (true ∷ bs) (v ∷ vs) m = (
    refl,
    IsFrom-grow (contains_true bs) true v vs (mask bs vs) (λ _. refl) (mask-IsFrom z bs vs m.1),
  )
  mask-IsFrom z (false ∷ bs) (v ∷ vs) m = (
    inl refl,
    IsFrom-grow (contains_true bs) (contains_true bs) v vs (mask bs vs) (λ h. h)
        (mask-IsFrom z bs vs m.1),
  )

  pub map-IsFrom : (vs : List T) → All (IsFrom false vs) (map some vs)
  map-IsFrom [] = tt
  map-IsFrom (v ∷ vs) =
      (inl refl, IsFrom-grow false false v vs (map some vs) (λ h. h) (map-IsFrom vs))
