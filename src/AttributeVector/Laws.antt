-- ===== src/AttributeVector/Laws.antt =====
-- Reading and writing an attribute vector.
use dyod_so_se.AttributeVector.{AttributeVector, modulus, get, set_id}
use dyod_so_se.Outcome.Laws.{debug_assert-true}
use dyod_so_se.Outcome.{ok, ◌>>=◌, Build, index_out_of_bounds}
use dyod_so_se.Prelude.{ℕ, ◌%◌, ◌<◌, ◌≡◌, some, length, lt→ltb, set, get_elem?, length-set}
use native.Mathlib.Nat.{mod-eq_of_lt}

module _ (build : Build) (v : AttributeVector) (i : ℕ) where
  pub get_in_range :
      (id : ℕ) → i < length v.ids → get_elem? v.ids i ≡ some id → get build v i ≡ ok id
  unfolding get
  get_in_range id h e = rw (debug_assert-true build _ index_out_of_bounds (lt→ltb _ _ h), ◌>>=◌, e)

  pub set_in_range :
      (id : ℕ)
      → i < length v.ids
      → id < modulus v.width_of
      → set_id build v i id ≡ ok (record v { ids = set v.ids i id })
  unfolding set_id
  set_in_range id h fits = rw (
    debug_assert-true build _ index_out_of_bounds (lt→ltb _ _ h),
    ◌>>=◌,
    mod-eq_of_lt fits,
    lt→ltb i (length v.ids) h,
  )

  -- a write keeps the low bits, and the length
  pub set_in_range_low :
      (id : ℕ)
      → i < length v.ids
      → (v' : AttributeVector) × (set_id build v i id ≡ ok v') × (length v'.ids ≡ length v.ids)
  unfolding set_id
  set_in_range_low id h = (
    record v { ids = set v.ids i (id % modulus v.width_of) },
    rw (
      debug_assert-true build _ index_out_of_bounds (lt→ltb _ _ h),
      ◌>>=◌,
      lt→ltb i (length v.ids) h,
    ),
    length-set v.ids i _,
  )
