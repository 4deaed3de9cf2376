-- ===== src/Prelude/Disjoint.antt =====
-- Setting low bits below a shifted number: the disjunction is the sum.
use Prim.Native.Nat.{
  ℕ, zero, suc, ◌+◌, ◌*◌, ◌/◌, ◌%◌, ◌≤◌, ◌<◌, max, bit_or, bit_or-bitwise, digits,
}
use mathlib.Core.Path.{◌≡◌, refl, ap, ◌∙◌}
use native.Mathlib.Omega.{arith}

abbrev disj : ℕ → ℕ → ℕ → ℕ
disj = digits (λ b. b) max

disj-counts : (a b k m : ℕ) → a ≤ k → a ≤ m → disj k a b ≡ disj m a b
disj-counts zero b zero zero h j = refl
disj-counts zero b zero (suc m) h j = refl
disj-counts zero b (suc k) zero h j = refl
disj-counts zero b (suc k) (suc m) h j = refl
disj-counts (suc a) b zero m h j = absurd (omega arith)
disj-counts (suc a) b (suc k) zero h j = absurd (omega arith)
disj-counts (suc a) b (suc k) (suc m) h j =
    omega (arith, disj-counts (suc a / 2) (b / 2) k m (omega arith) (omega arith))

bit_or-halves : (a b : ℕ) → bit_or a b ≡ bit_or (a / 2) (b / 2) * 2 + max (a % 2) (b % 2)
bit_or-halves zero b = omega (arith, bit_or-bitwise 0 b, bit_or-bitwise 0 (b / 2))
bit_or-halves (suc a) b = omega (
  arith,
  bit_or-bitwise (suc a) b,
  bit_or-bitwise (suc a / 2) (b / 2),
  disj-counts (suc a / 2) (b / 2) a (suc a / 2) (omega arith) (omega arith),
)

bit_or-nothing : (k a : ℕ) → a ≤ k → bit_or a 0 ≡ a
bit_or-nothing zero zero h = refl
bit_or-nothing zero (suc a) h = absurd (omega arith)
bit_or-nothing (suc k) a h =
    omega (arith, bit_or-halves a 0, bit_or-nothing k (a / 2) (omega arith))

-- With two low bits free.
pub bit_or-quarter : (g i : ℕ) → i < 4 → bit_or (g * 4) i ≡ g * 4 + i
bit_or-quarter g i h = omega (
  arith,
  bit_or-halves (g * 4) i,
  bit_or-halves (g * 4 / 2) (i / 2),
  bit_or-nothing g g (omega arith),
  (ap (λ z. bit_or z (i / 2 / 2)) quarter ∙ ap (bit_or g) nothing),
)
  where
    quarter : g * 4 / 2 / 2 ≡ g
    quarter = omega arith

    nothing : i / 2 / 2 ≡ 0
    nothing = omega arith
