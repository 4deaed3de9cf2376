-- ===== src/Prelude/Checked.antt =====
-- What holds of a Result where it is a value.
use mathlib.Core.Path.{◌≡◌, refl, subst}
use mathlib.Core.Bool.{Bool, true, false}
use mathlib.Core.Option.{Option, none, some}
use native.Mathlib.Omega.{arith}
use genrt.Prelude.Bools.{if◌then◌else◌}
use genrt.Prelude.Outcomes.{Result, ok, err, ok_or, ◌>>=◌, ◌>>◌, ok_injective}

pub data WhenOk {ℓ κ μ} {A : Type ℓ} {E : Type κ} (P : A → Type μ)
    : Result A E → Type (ℓ ⊔ κ ⊔ μ) where
  returned : {a : A} → P a → WhenOk P (ok a)
  failed : {e : E} → WhenOk P (err e)

module _ {ℓ κ μ} {A : Type ℓ} {E : Type κ} {P : A → Type μ} where
  pub WhenOk-then {ν ξ} :
      {B : Type ν} {Q : B → Type ξ} {r : Result A E} {f : A → Result B E}
      → WhenOk P r
      → ((a : A) → P a → WhenOk Q (f a))
      → WhenOk Q (r >>= f)
  WhenOk-then (returned p) k = k _ p
  WhenOk-then failed k = failed

  pub WhenOk-seq {ν ξ} :
      {B : Type ν} {Q : B → Type ξ} {r : Result A E} {s : Result B E}
      → WhenOk P r
      → ((a : A) → P a → WhenOk Q s)
      → WhenOk Q (r >> s)
  WhenOk-seq (returned p) k = k _ p
  WhenOk-seq failed k = failed

  pub WhenOk-map {ν} :
      {Q : A → Type ν} {r : Result A E} → WhenOk P r → ((a : A) → P a → Q a) → WhenOk Q r
  WhenOk-map (returned p) k = returned (k _ p)
  WhenOk-map failed k = failed

  pub WhenOk-test :
      (b : Bool) {r s : Result A E}
      → (b ≡ true → WhenOk P r)
      → (b ≡ false → WhenOk P s)
      → WhenOk P (if b then r else s)
  WhenOk-test true pass fail = pass refl
  WhenOk-test false pass fail = fail refl

  pub WhenOk-ok_or : (o : Option A) (e : E) → ((a : A) → o ≡ some a → P a) → WhenOk P (ok_or o e)
  WhenOk-ok_or none e k = failed
  WhenOk-ok_or (some a) e k = returned (k a refl)

  pub WhenOk-value : {r : Result A E} {a : A} → WhenOk P r → r ≡ ok a → P a
  WhenOk-value (returned p) h = subst P (ok_injective _ _ h) p
  WhenOk-value failed h = ground arith

pub WhenOk-some {ℓ κ μ ν} :
    {A : Type ℓ} {B : Type κ} {E : Type μ} {Q : B → Type ν} (o : Option A) (e : E)
    {f : A → Result B E}
    → ((a : A) → o ≡ some a → WhenOk Q (f a))
    → WhenOk Q (ok_or o e >>= f)
WhenOk-some none e k = failed
WhenOk-some (some a) e k = k a refl

pub WhenOk-any {ℓ κ} : {A : Type ℓ} {E : Type κ} (r : Result A E) → WhenOk (λ _. A) r
WhenOk-any (ok a) = returned a
WhenOk-any (err e) = failed
