-- ===== src/DictionarySegment/Rows.antt =====
-- The loop of `fill_attributes_vector`: with an inverted dictionary that finds every value, it
-- writes ids that decode to the rows.
use dyod_so_se.Algorithm.{Inverted, find, get_or_insert}
use dyod_so_se.Algorithm.Inverted.{get_or_insert-found}
use dyod_so_se.AttributeVector.Laws.{set_in_range}
use dyod_so_se.AttributeVector.{AttributeVector, Width, modulus}
use dyod_so_se.AttributeVector
use dyod_so_se.DictionarySegment.Invariant.{Aligned}
use dyod_so_se.DictionarySegment.{fill_rows, flag_at}
use dyod_so_se.Outcome.{Outcome, ok, ◌>>=◌, Build, subscript}
use dyod_so_se.Prelude.{
  ℕ, suc, ◌+◌, ◌<◌, ◌≤◌, ◌≡◌, refl, ap, Bool, true, false, List, [], ◌∷◌, ◌++◌, Option, none, some,
  map, if◌then◌else◌, length, All, get_elem?, set, replicate, arith, length-append, ◌∙◌,
  get_elem?-ge,
}
use dyod_so_se.Scalar.{Scalar}
use dyod_so_se.ValueSegment.Invariant.{mask, cells_of, IsMasked, FlagsFit}
use dyod_so_se.ValueSegment.Reads.{get_elem?-below}
use mathlib.Core.List.{append_assoc}
use mathlib.Core.Path.{ap₂}

module _ {T : Type 0} where
  Aligned-map :
      (f : ℕ → Outcome Bool) (i : ℕ) (vs : List T)
      → ((j : ℕ) → f j ≡ ok false)
      → Aligned f i vs (map some vs)
  Aligned-map f i [] h = tt
  Aligned-map f i (v ∷ vs) h = (h i, refl, Aligned-map f (suc i) vs h)

  Aligned-mask :
      (z : T) (f : ℕ → Outcome Bool) (i : ℕ) (bs : List Bool) (vs : List T)
      → IsMasked z bs vs
      → ((j : ℕ) → f (i + j) ≡ subscript bs j)
      → Aligned f i vs (mask bs vs)
  Aligned-mask z f i [] [] m h = tt
  Aligned-mask z f i [] (v ∷ vs) m h = absurd m
  Aligned-mask z f i (b ∷ bs) [] m h = absurd m
  Aligned-mask z f i (true ∷ bs) (v ∷ vs) m h =
      (here, Aligned-mask z f (suc i) bs vs m.1 (λ j. ap f (omega arith) ∙ h (suc j)))
    where
      here : f i ≡ ok true
      here = ap f (omega arith) ∙ h 0
  Aligned-mask z f i (false ∷ bs) (v ∷ vs) m h =
      (here, refl, Aligned-mask z f (suc i) bs vs m.1 (λ j. ap f (omega arith) ∙ h (suc j)))
    where
      here : f i ≡ ok false
      here = ap f (omega arith) ∙ h 0

  pub Aligned-congr :
      (f g : ℕ → Outcome Bool) (n i : ℕ) (vs : List T) (cs : List (Option T))
      → ((j : ℕ) → j < n → g j ≡ f j)
      → i + length vs ≤ n
      → Aligned f i vs cs
      → Aligned g i vs cs
  Aligned-congr f g n i [] [] h le a = tt
  Aligned-congr f g n i [] (c ∷ cs) h le a = absurd a
  Aligned-congr f g n i (v ∷ vs) [] h le a = absurd a
  Aligned-congr f g n i (v ∷ vs) (none ∷ cs) h le a =
      (h i (omega arith) ∙ a.0, Aligned-congr f g n (suc i) vs cs h (omega arith) a.1)
  Aligned-congr f g n i (v ∷ vs) (some w ∷ cs) h le a =
      (h i (omega arith) ∙ a.0, a.1, Aligned-congr f g n (suc i) vs cs h (omega arith) a.2)

  -- the flags and the values of a valid value segment spell its rows
  pub flag_at-Aligned :
      (z : T) (flags : Option (List Bool)) (vs : List T)
      → FlagsFit z flags vs
      → Aligned (flag_at (record { values = vs; null_values = flags })) 0 vs (cells_of flags vs)
  unfolding flag_at
  flag_at-Aligned z none vs f = Aligned-map _ 0 vs (λ j. refl)
  flag_at-Aligned z (some fs) vs f =
      Aligned-mask z _ 0 fs vs f (λ j. ap (subscript fs) (omega arith))

module _ {T : Type 0} where
  -- an id for the row exists, and the width holds it
  abbrev pub Fits : (o : Scalar T) → List T → Inverted o → Width → Option T → Type 0
  Fits o dictionary m w none = length dictionary < modulus w
  Fits o dictionary m w (some v) =
      (i : ℕ) × (find o v m ≡ some i) × (get_elem? dictionary i ≡ some v)

set_at_end :
    (done : List ℕ) (n id : ℕ)
    → set (done ++ replicate (suc n) 0) (length done) id ≡ (done ++ id ∷ []) ++ replicate n 0
set_at_end [] n id = refl
set_at_end (x ∷ xs) n id = ap (◌∷◌ x) (set_at_end xs n id)

module _ {T : Type 0} (o : Scalar T) (build : Build) (is_null : ℕ → Outcome Bool)
    (dictionary : List T) (m : Inverted o) (w : Width) where
  abbrev vector : List ℕ → AttributeVector
  vector ids = record { width_of = w; ids = ids }

  abbrev pub Filled : ℕ → List T → List (Option T) → List ℕ → Type 0
  Filled i vs cs done =
      (ids : List ℕ) × (fill_rows o build is_null (length dictionary) i vs m
          (vector (done ++ replicate (length vs) 0))
        ≡ ok (vector (done ++ ids)))
      × (map (get_elem? dictionary) ids ≡ cs)
      × All (λ id. id ≤ length dictionary) ids
      × (length ids ≡ length vs)

  write :
      (i : ℕ) (done : List ℕ) (n id : ℕ)
      → length done ≡ i
      → id < modulus w
      → AttributeVector.set_id build (vector (done ++ replicate (suc n) 0)) i id
        ≡ ok (vector ((done ++ id ∷ []) ++ replicate n 0))
  write i done n id e fits =
      let below : i < length (done ++ replicate (suc n) 0) =
        omega (arith, length-append done (replicate (suc n) 0)) in
      let at_i : set (done ++ replicate (suc n) 0) i id ≡ (done ++ id ∷ []) ++ replicate n 0 =
        rw (← e) (set_at_end done n id) in
      rw (set_in_range build (vector (done ++ replicate (suc n) 0)) i id below fits, at_i)

  -- one round, for a row whose id is `id` and that leaves the map as it is
  round :
      (i : ℕ) (v : T) (vs : List T) (done : List ℕ) (b : Bool) (id : ℕ)
      → is_null i ≡ ok b
      → (if b then length dictionary else (get_or_insert o v m).0) ≡ id
      → (if b then m else (get_or_insert o v m).1) ≡ m
      → length done ≡ i
      → id < modulus w
      → fill_rows o build is_null
          (length dictionary)
          i
          (v ∷ vs)
          m
          (vector (done ++ replicate (suc (length vs)) 0))
        ≡ fill_rows o build is_null
            (length dictionary)
            (suc i)
            vs
            m
            (vector ((done ++ id ∷ []) ++ replicate (length vs) 0))
  unfolding fill_rows
  round i v vs done b id flag eid em e fits =
      rw (flag, ◌>>=◌, eid, em, write i done (length vs) id e fits)

  extend :
      (i : ℕ) (v : T) (vs : List T) (c : Option T) (cs : List (Option T)) (done : List ℕ) (id : ℕ)
      → fill_rows o build is_null
          (length dictionary)
          i
          (v ∷ vs)
          m
          (vector (done ++ replicate (suc (length vs)) 0))
        ≡ fill_rows o build is_null
            (length dictionary)
            (suc i)
            vs
            m
            (vector ((done ++ id ∷ []) ++ replicate (length vs) 0))
      → get_elem? dictionary id ≡ c
      → id ≤ length dictionary
      → Filled (suc i) vs cs (done ++ id ∷ [])
      → Filled i (v ∷ vs) (c ∷ cs) done
  extend i v vs c cs done id step decodes le (ids, run, rows, range, len) = (
    id ∷ ids,
    step ∙ run ∙ ap (λ l. ok (vector l)) (append_assoc done (id ∷ []) ids),
    ap₂ {A = Option T} {B = List (Option T)} {C = List (Option T)} (λ x xs. x ∷ xs) decodes rows,
    (le, range),
    ap suc len,
  )

  -- The loop ends, and the ids that it writes decode to the rows.
  pub fill_rows-Filled :
      (i : ℕ) (vs : List T) (cs : List (Option T)) (done : List ℕ)
      → length dictionary ≤ modulus w
      → length done ≡ i
      → Aligned is_null i vs cs
      → All (Fits o dictionary m w) cs
      → Filled i vs cs done
  unfolding fill_rows
  fill_rows-Filled i [] [] done room e a f = ([], refl, refl, tt, refl)
  fill_rows-Filled i [] (c ∷ cs) done room e a f = absurd a
  fill_rows-Filled i (v ∷ vs) [] done room e a f = absurd a
  fill_rows-Filled i (v ∷ vs) (none ∷ cs) done room e a f =
      let id = length dictionary in
      extend i v vs none cs done id (round i v vs done true id a.0 refl refl e f.0)
        (get_elem?-ge dictionary id (omega arith)) (omega arith)
        (fill_rows-Filled (suc i) vs cs (done ++ id ∷ []) room
          (omega (arith, length-append done (id ∷ []))) a.1 f.1)
  fill_rows-Filled i (v ∷ vs) (some x ∷ cs) done room e a f =
      let (id, found, holds) = f.0 in
      let entry : get_or_insert o v m ≡ (id, m) = rw a.1 (get_or_insert-found o x m id found) in
      let below : id < length dictionary = get_elem?-below dictionary id x holds in
      extend i v vs (some x) cs done id
        (round i v vs done false id a.0 (ap (λ p. p.0) entry) (ap (λ p. p.1) entry) e (omega arith))
        holds (omega arith)
        (fill_rows-Filled (suc i) vs cs (done ++ id ∷ []) room
          (omega (arith, length-append done (id ∷ []))) a.2 f.1)
