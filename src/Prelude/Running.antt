-- ===== src/Prelude/Running.antt =====
-- Code with loops on fuel: it ends in a value, in a panic, or without fuel.
use mathlib.Core.Path.{◌≡◌, refl, subst}
use native.Mathlib.Omega.{arith}
use mathlib.Core.Bool.{Bool, true, false}
use mathlib.Core.Option.{Option, none, some}
use genrt.Prelude.Bools.{if◌then◌else◌}

pub data Run {ℓ} (A : Type ℓ) : Type ℓ where
  done : A → Run A
  panic : Run A
  out_of_fuel : Run A

infixl 5 ◌>>=◌
abbrev pub ◌>>=◌ {ℓ κ} : {A : Type ℓ} {B : Type κ} → Run A → (A → Run B) → Run B
done a >>= f = f a
panic >>= f = panic
out_of_fuel >>= f = out_of_fuel

-- `unwrap_or_else(|| panic!(…))`, and the index operator.
abbrev pub expect {ℓ} : {A : Type ℓ} → Option A → Run A
expect none = panic
expect (some a) = done a

-- The code ends in a value, of which `P` holds.
pub data Ends {ℓ κ} {A : Type ℓ} (P : A → Type κ) : Run A → Type (ℓ ⊔ κ) where
  ends : {a : A} → P a → Ends P (done a)

module _ {ℓ κ} {A : Type ℓ} {P : A → Type κ} where
  pub Ends-map {μ} : {Q : A → Type μ} {m : Run A} → Ends P m → ((a : A) → P a → Q a) → Ends Q m
  Ends-map (ends p) k = ends (k _ p)

  pub Ends-then {μ ν} :
      {B : Type μ} {Q : B → Type ν} {m : Run A} {f : A → Run B}
      → Ends P m
      → ((a : A) → P a → Ends Q (f a))
      → Ends Q (m >>= f)
  Ends-then (ends p) k = k _ p

  pub Ends-done : {m : Run A} → Ends P m → (a : A) × (m ≡ done a) × P a
  Ends-done (ends p) = (_, refl, p)

  -- Both ways of a test.
  pub Ends-test :
      (b : Bool) {m n : Run A}
      → (b ≡ true → Ends P m)
      → (b ≡ false → Ends P n)
      → Ends P (if b then m else n)
  Ends-test true pass fail = pass refl
  Ends-test false pass fail = fail refl

-- Where the code ends in a value, `P` holds of it.
pub data Safe {ℓ κ} {A : Type ℓ} (P : A → Type κ) : Run A → Type (ℓ ⊔ κ) where
  value : {a : A} → P a → Safe P (done a)
  panicked : Safe P panic
  unfuelled : Safe P out_of_fuel

module _ {ℓ κ} {A : Type ℓ} {P : A → Type κ} where
  pub Ends-Safe : {m : Run A} → Ends P m → Safe P m
  Ends-Safe (ends p) = value p

  pub Safe-then {μ ν} :
      {B : Type μ} {Q : B → Type ν} {m : Run A} {f : A → Run B}
      → Safe P m
      → ((a : A) → P a → Safe Q (f a))
      → Safe Q (m >>= f)
  Safe-then (value p) k = k _ p
  Safe-then panicked k = panicked
  Safe-then unfuelled k = unfuelled

  pub Safe-test :
      (b : Bool) {m n : Run A}
      → (b ≡ true → Safe P m)
      → (b ≡ false → Safe P n)
      → Safe P (if b then m else n)
  Safe-test true pass fail = pass refl
  Safe-test false pass fail = fail refl

done_injective {ℓ} : {A : Type ℓ} {a b : A} → done a ≡ done b → a ≡ b
done_injective h = ground (arith, h)

pub Safe-value {ℓ κ} :
    {A : Type ℓ} {P : A → Type κ} {m : Run A} {a : A} → Safe P m → m ≡ done a → P a
Safe-value {P} {a} (value p) h = subst P (done_injective h) p
Safe-value panicked h = ground arith
Safe-value unfuelled h = ground arith

pub Safe-any {ℓ} : {A : Type ℓ} (m : Run A) → Safe (λ _. A) m
Safe-any (done a) = value a
Safe-any panic = panicked
Safe-any out_of_fuel = unfuelled

pub Ends-value {ℓ κ} :
    {A : Type ℓ} {P : A → Type κ} {m : Run A} {a : A} → Ends P m → m ≡ done a → P a
Ends-value e h = Safe-value (Ends-Safe e) h
