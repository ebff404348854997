-- ===== src/DictionarySegment/Widths.antt =====
-- The width that `initialize_attributes_vector` picks.
use dyod_so_se.AttributeVector.{Width, size_of, modulus, uint8, uint16, uint32}
use dyod_so_se.DictionarySegment.{pred64, chosen_width}
use dyod_so_se.Prelude.{
  ℕ, ◌-◌, ◌^◌, ◌≤◌, ◌<◌, refl, ◌≡◌, ◌||◌, ◌==◌, leb, inl, inr, some, arith, Bool-cases,
}

-- a width that has an id for each of `n` values, and the narrowest such
abbrev pub IsNarrowest : ℕ → Width → Type 0
IsNarrowest n w = (n ≤ modulus w) × ((v : Width) → n ≤ modulus v → size_of w ≤ size_of v)

narrowest8 : (n : ℕ) → n ≤ 2 ^ 8 → IsNarrowest n uint8
narrowest8 n h = (h, least)
  where
    least : (v : Width) → n ≤ modulus v → 1 ≤ size_of v
    least uint8 k = omega arith
    least uint16 k = omega arith
    least uint32 k = omega arith

narrowest16 : (n : ℕ) → n ≤ 2 ^ 16 → 2 ^ 8 < n → IsNarrowest n uint16
narrowest16 n h above = (h, least)
  where
    least : (v : Width) → n ≤ modulus v → 2 ≤ size_of v
    least uint8 k = absurd (omega (arith, k, above))
    least uint16 k = omega arith
    least uint32 k = omega arith

narrowest32 : (n : ℕ) → n ≤ 2 ^ 32 → 2 ^ 16 < n → IsNarrowest n uint32
narrowest32 n h above = (h, least)
  where
    least : (v : Width) → n ≤ modulus v → 4 ≤ size_of v
    least uint8 k = absurd (omega (arith, k, above))
    least uint16 k = absurd (omega (arith, k, above))
    least uint32 k = omega arith

-- For every number of distinct values up to 2 ^ 32, `initialize_attributes_vector` finds a width;
-- it has at least as many ids, and no narrower width has.
pub chosen_width-IsNarrowest :
    (n : ℕ) → n ≤ 2 ^ 32 → (w : Width) × (chosen_width n ≡ some w) × IsNarrowest n w
unfolding chosen_width
chosen_width-IsNarrowest n h = elim (Bool-cases (leb (pred64 n) (2 ^ 8 - 1) || n == 0)) [
  | inl t ↦ (uint8, rw t refl, narrowest8 n (ground arith))
  | inr f ↦ elim (Bool-cases (leb (pred64 n) (2 ^ 16 - 1))) [
    | inl t ↦ (uint16, rw (f, t) refl, narrowest16 n (ground arith) (ground arith))
    | inr g ↦ (uint32, ground arith, narrowest32 n h (ground arith))
  ]
]
