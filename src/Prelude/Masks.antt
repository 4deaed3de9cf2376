-- ===== src/Prelude/Masks.antt =====
-- A mask of low ones: `x & (2^k - 1)` is the remainder by `2^k`.
use Prim.Native.Nat.{
  ℕ, zero, suc, ◌+◌, ◌-◌, ◌*◌, ◌/◌, ◌%◌, ◌^◌, ◌≤◌, ◌<◌, min, bit_and, bit_and-bitwise, digits,
}
use mathlib.Core.Path.{◌≡◌, refl, ap, ◌∙◌}
use native.Mathlib.Nat.{pow-suc, mul-add-mod_self_right, mod-eq_of_lt, mod-lt, div-add-mod'}
use native.Mathlib.Omega.{arith}

-- The conjunction of the digits, by a count of digits that is at least the number.
abbrev conj : ℕ → ℕ → ℕ → ℕ
conj = digits (λ _. zero) min

-- Any two counts that are large enough agree.
conj-counts : (a b k m : ℕ) → a ≤ k → a ≤ m → conj k a b ≡ conj m a b
conj-counts zero b zero zero h j = refl
conj-counts zero b zero (suc m) h j = refl
conj-counts zero b (suc k) zero h j = refl
conj-counts zero b (suc k) (suc m) h j = refl
conj-counts (suc a) b zero m h j = absurd (omega arith)
conj-counts (suc a) b (suc k) zero h j = absurd (omega arith)
conj-counts (suc a) b (suc k) (suc m) h j =
    omega (arith, conj-counts (suc a / 2) (b / 2) k m (omega arith) (omega arith))

-- The lowest digit, and the conjunction of the rest.
bit_and-halves : (a b : ℕ) → bit_and a b ≡ bit_and (a / 2) (b / 2) * 2 + min (a % 2) (b % 2)
bit_and-halves zero b = omega (arith, bit_and-bitwise 0 b, bit_and-bitwise 0 (b / 2))
bit_and-halves (suc a) b = omega (
  arith,
  bit_and-bitwise (suc a) b,
  bit_and-bitwise (suc a / 2) (b / 2),
  conj-counts (suc a / 2) (b / 2) a (suc a / 2) (omega arith) (omega arith),
)

bit_and-nothing : (k a : ℕ) → a ≤ k → bit_and a 0 ≡ 0
bit_and-nothing zero zero h = refl
bit_and-nothing zero (suc a) h = absurd (omega arith)
bit_and-nothing (suc k) a h =
    omega (arith, bit_and-halves a 0, bit_and-nothing k (a / 2) (omega arith))

pow_pos : (k : ℕ) → 0 < 2 ^ k
pow_pos zero = omega arith
pow_pos (suc k) = omega (arith, pow-suc 2 k, pow_pos k)

-- Halving a mask of ones and the remainder go together.
mod-double : (a m : ℕ) → 0 < m → a % (m * 2) ≡ (a / 2 % m) * 2 + a % 2
mod-double a m pos =
    ap (λ n. n % (m * 2)) split
    ∙ mul-add-mod_self_right (a / 2 / m) (m * 2) (a / 2 % m * 2 + a % 2)
    ∙ mod-eq_of_lt small
  where
    split : a ≡ a / 2 / m * (m * 2) + (a / 2 % m * 2 + a % 2)
    split = omega (arith, ap (λ n. n * 2) (div-add-mod' (a / 2) m))

    small : a / 2 % m * 2 + a % 2 < m * 2
    small = omega (arith, mod-lt (a / 2) pos)

mask-half : (m : ℕ) → 0 < m → (m * 2 - 1) / 2 ≡ m - 1
mask-half m pos = omega arith

pub bit_and-mask : (k a : ℕ) → bit_and a (2 ^ k - 1) ≡ a % 2 ^ k
bit_and-mask zero a = omega (arith, bit_and-nothing a a (omega arith))
bit_and-mask (suc k) a = rw (pow-suc 2 k) (
    omega (
      arith,
      bit_and-halves a (2 ^ k * 2 - 1),
      ap (bit_and (a / 2)) (mask-half (2 ^ k) (pow_pos k)),
      bit_and-mask k (a / 2),
      mod-double a (2 ^ k) (pow_pos k),
      pow_pos k,
    ))
