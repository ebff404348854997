-- ===== src/ValueSegment/Invariant.antt =====
-- The rows that a value segment stands for, what holds of every segment that `append` builds, and
-- what `append` does to the rows.
use dyod_so_se.Outcome.{Outcome, ok, throw, null_in_non_nullable, could_not_cast}
use dyod_so_se.Prelude.{
  suc, ◌≡◌, refl, ap, Bool, true, false, List, [], ◌∷◌, ◌++◌, Option, none, some, map,
  if◌then◌else◌, length, arith, ◌⊎◌, inl, inr, Bool-cases, Option-cases,
}
use dyod_so_se.Scalar.{Scalar}
use dyod_so_se.Types.{Platform, DataType, Variant, Value, scalar, type_cast?, variant_is_null}
use dyod_so_se.ValueSegment.{ValueSegment, append, is_nullable}

module _ {T : Type 0} where
  -- a row is `none` where its flag is set
  abbrev pub mask : List Bool → List T → List (Option T)
  mask [] vs = map some vs
  mask (b ∷ bs) [] = []
  mask (b ∷ bs) (v ∷ vs) = (if b then none else some v) ∷ mask bs vs

  abbrev pub cells_of : Option (List Bool) → List T → List (Option T)
  cells_of none vs = map some vs
  cells_of (some flags) vs = mask flags vs

  abbrev pub cells : ValueSegment T → List (Option T)
  cells s = cells_of s.null_values s.values

  -- as many flags as values, and `T{}` where a flag is set
  abbrev pub IsMasked : T → List Bool → List T → Type 0
  IsMasked z [] [] = Unit
  IsMasked z [] (v ∷ vs) = ⊥
  IsMasked z (b ∷ bs) [] = ⊥
  IsMasked z (b ∷ bs) (v ∷ vs) = (b ≡ true → v ≡ z) × IsMasked z bs vs

  abbrev pub FlagsFit : T → Option (List Bool) → List T → Type 0
  FlagsFit z none vs = Unit
  FlagsFit z (some flags) vs = IsMasked z flags vs

  IsMasked-append :
      (z : T) (bs : List Bool) (vs : List T) (b : Bool) (v : T)
      → IsMasked z bs vs
      → (b ≡ true → v ≡ z)
      → IsMasked z (bs ++ b ∷ []) (vs ++ v ∷ [])
  IsMasked-append z [] [] b v m h = (h, tt)
  IsMasked-append z [] (w ∷ vs) b v m h = absurd m
  IsMasked-append z (c ∷ bs) [] b v m h = absurd m
  IsMasked-append z (c ∷ bs) (w ∷ vs) b v m h = (m.0, IsMasked-append z bs vs b v m.1 h)

  mask-append :
      (z : T) (bs : List Bool) (vs : List T) (b : Bool) (v : T)
      → IsMasked z bs vs
      → mask (bs ++ b ∷ []) (vs ++ v ∷ []) ≡ mask bs vs ++ (if b then none else some v) ∷ []
  mask-append z [] [] b v m = refl
  mask-append z [] (w ∷ vs) b v m = absurd m
  mask-append z (c ∷ bs) [] b v m = absurd m
  mask-append z (c ∷ bs) (w ∷ vs) b v m =
      ap (◌∷◌ (if c then none else some w)) (mask-append z bs vs b v m.1)

  map-some-append : (vs : List T) (v : T) → map some (vs ++ v ∷ []) ≡ map some vs ++ some v ∷ []
  map-some-append [] v = refl
  map-some-append (w ∷ vs) v = ap (◌∷◌ (some w)) (map-some-append vs v)

  pub length-mask :
      (z : T) (bs : List Bool) (vs : List T) → IsMasked z bs vs → length (mask bs vs) ≡ length vs
  length-mask z [] [] m = refl
  length-mask z [] (v ∷ vs) m = absurd m
  length-mask z (b ∷ bs) [] m = absurd m
  length-mask z (b ∷ bs) (v ∷ vs) m = ap suc (length-mask z bs vs m.1)

  length-map-some : (vs : List T) → length (map some vs) ≡ length vs
  length-map-some [] = refl
  length-map-some (v ∷ vs) = ap suc (length-map-some vs)

  abbrev pub IsValid : Scalar T → ValueSegment T → Type 0
  IsValid o s = FlagsFit o.default_value s.null_values s.values

  length-cells_of :
      (z : T) (flags : Option (List Bool)) (vs : List T)
      → FlagsFit z flags vs
      → length (cells_of flags vs) ≡ length vs
  length-cells_of z none vs f = length-map-some vs
  length-cells_of z (some flags) vs f = length-mask z flags vs f

  pub length-cells :
      (o : Scalar T) (s : ValueSegment T) → IsValid o s → length (cells s) ≡ length s.values
  length-cells o s v = length-cells_of o.default_value s.null_values s.values v

  FlagsFit-append_value :
      (z : T) (flags : Option (List Bool)) (vs : List T) (v : T)
      → FlagsFit z flags vs
      → FlagsFit z (elim flags [ none ↦ none | some fs ↦ some (fs ++ false ∷ []) ]) (vs ++ v ∷ [])
        × (cells_of (elim flags [ none ↦ none | some fs ↦ some (fs ++ false ∷ []) ]) (vs ++ v ∷ [])
            ≡ cells_of flags vs ++ some v ∷ [])
  FlagsFit-append_value z none vs v f = (tt, map-some-append vs v)
  FlagsFit-append_value z (some fs) vs v f =
      (IsMasked-append z fs vs false v f (λ e. cc), mask-append z fs vs false v f)

module _ (P : Platform) (d : DataType) where
  -- what a value becomes in the segment; `none` where it is refused
  abbrev pub accepted : Bool → Variant P → Option (Option (Value P d))
  accepted nullable value =
      if variant_is_null P value
      then (if nullable then some none else none)
      else elim (type_cast? P d value) [ none ↦ none | some v ↦ some (some v) ]

  pub record Appended (s : ValueSegment (Value P d)) (c : Option (Value P d))
      (s' : ValueSegment (Value P d)) : Type 0 where
    pub valid : IsValid (scalar P d) s'
    pub rows : cells s' ≡ cells s ++ c ∷ []
    pub nullable : is_nullable s' ≡ is_nullable s

  abbrev pub Appends :
      ValueSegment (Value P d)
      → Option (Option (Value P d))
      → Outcome (ValueSegment (Value P d))
      → Type 0
  Appends s (some c) r = (s' : ValueSegment (Value P d)) × (r ≡ ok s') × Appended s c s'
  Appends s none r = (r ≡ throw null_in_non_nullable) ⊎ (r ≡ throw could_not_cast)

  -- the segment with these fields, and its rows
  abbrev segment : Option (List Bool) → List (Value P d) → ValueSegment (Value P d)
  segment flags vs = record { values = vs; null_values = flags }

  append_null :
      (flags : Option (List Bool)) (vs : List (Value P d)) (value : Variant P)
      → IsValid (scalar P d) (segment flags vs)
      → variant_is_null P value ≡ true
      → Appends
          (segment flags vs)
          (if is_nullable (segment flags vs) then some none else none)
          (append P d value (segment flags vs))
  unfolding is_nullable append
  append_null none vs value v h = rw h (inl refl)
  append_null (some fs) vs value v h =
      let z = (scalar P d).default_value in
      (
        segment (some (fs ++ true ∷ [])) (vs ++ z ∷ []),
        rw h,
        record {
          valid = IsMasked-append z fs vs true z v (λ _. refl);
          rows = mask-append z fs vs true z v;
          nullable = refl;
        },
      )

  append_value :
      (flags : Option (List Bool)) (vs : List (Value P d)) (value : Variant P) (x : Value P d)
      → IsValid (scalar P d) (segment flags vs)
      → variant_is_null P value ≡ false
      → type_cast? P d value ≡ some x
      → Appends (segment flags vs) (some (some x)) (append P d value (segment flags vs))
  unfolding append is_nullable
  append_value flags vs value x v h e =
      let fit = FlagsFit-append_value (scalar P d).default_value flags vs x v in
      (
        segment (elim flags [ none ↦ none | some fs ↦ some (fs ++ false ∷ []) ]) (vs ++ x ∷ []),
        rw (h, e),
        record { valid = fit.0; rows = fit.1; nullable = ground arith },
      )

  append_refused :
      (s : ValueSegment (Value P d)) (value : Variant P)
      → variant_is_null P value ≡ false
      → type_cast? P d value ≡ none
      → append P d value s ≡ throw could_not_cast
  unfolding append
  append_refused s value h e = rw (h, e)

  -- On a valid value segment `append` adds one row, for the value that the column accepts, and
  -- keeps the segment valid and its nullability; where the column accepts none, it throws.
  pub append-Appends :
      (value : Variant P) (s : ValueSegment (Value P d))
      → IsValid (scalar P d) s
      → Appends s (accepted (is_nullable s) value) (append P d value s)
  append-Appends value s v = elim (Bool-cases (variant_is_null P value)) [
    | inl h ↦ rw h (append_null s.null_values s.values value v h)
    | inr h ↦ elim (Option-cases (type_cast? P d value)) [
      | inl e ↦ rw (h, e) (inr (append_refused s value h e))
      | inr (x, e) ↦ rw (h, e) (append_value s.null_values s.values value x v h e)
    ]
  ]
