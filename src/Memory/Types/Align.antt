-- ===== src/Memory/Types/Align.antt =====
-- Rounding to an alignment is the nearest multiple, and fails exactly where the sum overflows.
use genrt.Prelude.{ℕ, ◌+◌, ◌-◌, ◌*◌, ◌/◌, ◌%◌, ◌≤◌, ◌<◌, ◌≡◌, none, some, arith, usize_max}
use native.Mathlib.Nat.{div-lt_iff_lt-mul, mul-mod_left, lt-div-mul-add, div-mul-le_self}
use genrt.Memory.Types.{align_up, align_down}

least-multiple : (v a k : ℕ) → 0 < a → v ≤ k * a → (v + (a - 1)) / a * a ≤ k * a
least-multiple v a k pos h =
    let q-le : (v + (a - 1)) / a < k + 1 = (div-lt_iff_lt-mul pos).1 (grind arith) in grind arith

-- For a nonzero alignment, the result is a multiple of it, not below the value, and not above any
-- other multiple that is not below the value.
pub align_up-least :
    (value align r : ℕ)
    → 0 < align
    → align_up value align ≡ some r
    → (r % align ≡ 0) × (value ≤ r) × ((k : ℕ) → value ≤ k * align → r ≤ k * align)
unfolding align_up
align_up-least value align r pos h = (
  ground (arith, mul-mod_left ((value + (align - 1)) / align) align),
  ground (arith, lt-div-mul-add {a = value + (align - 1)} {b = align}),
  λ k above. ground (arith, least-multiple value align k pos above),
)

-- For a nonzero alignment, rounding up fails only where the sum that it rounds overflows.
pub align_up-none :
    (value align : ℕ) → 0 < align → align_up value align ≡ none → usize_max < value + (align - 1)
unfolding align_up
align_up-none value align pos h = ground arith

-- For a nonzero alignment, the result is a multiple of it, not above the value, and less than one
-- alignment below it.
pub align_down-greatest :
    (value align : ℕ)
    → 0 < align
    → (align_down value align % align ≡ 0)
      × (align_down value align ≤ value)
      × (value < align_down value align + align)
unfolding align_down
align_down-greatest value align pos = (
  ground (arith, mul-mod_left (value / align) align),
  ground (arith, div-mul-le_self value align),
  ground (arith, lt-div-mul-add {a = value} {b = align}),
)
