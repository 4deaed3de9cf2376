-- ===== src/Ipc/Mailbox/Wrap.antt =====
-- Places in a ring.
use genrt.Prelude.{
  ℕ, suc, ◌+◌, ◌-◌, ◌%◌, ◌≤◌, ◌<◌, ◌≡◌, ◌≢◌, ◌⊎◌, inl, inr, refl, sym, ap, ◌∙◌, Bool-cases, List,
  [], ◌∷◌, arith, ltb,
}
use native.Mathlib.Nat.{mod-eq_of_lt, add-mod_right}

-- Where an index lands in a ring of `c` places.
pub wrap-cases : (x c : ℕ) → x < c + c → ((x < c) × (x % c ≡ x)) ⊎ ((c ≤ x) × (x % c ≡ x - c))
wrap-cases x c h = elim (Bool-cases (ltb x c)) [
  | inl e ↦ let low : x < c = ground arith in inl (low, mod-eq_of_lt low)
  | inr e ↦
      let high : c ≤ x = ground arith in
      let split : x ≡ (x - c) + c = omega arith in
      inr (high, ap (λ z. z % c) split ∙ add-mod_right (x - c) c ∙ mod-eq_of_lt (omega arith))
]

pub wrap-apart : (h i j c : ℕ) → h < c → i < j → j < c → ((h + i) % c) ≢ ((h + j) % c)
wrap-apart h i j c low less bound e = elim (wrap-cases (h + i) c (omega arith)) [
  | inl (a, p) ↦ elim (wrap-cases (h + j) c (omega arith)) [
    | inl (b, q) ↦ omega (arith, e, p, q)
    | inr (b, q) ↦ omega (arith, e, p, q)
  ]
  | inr (a, p) ↦ elim (wrap-cases (h + j) c (omega arith)) [
    | inl (b, q) ↦ omega (arith, e, p, q)
    | inr (b, q) ↦ omega (arith, e, p, q)
  ]
]

-- Going on from the next place.
pub wrap-next : (h i c : ℕ) → h < c → i < c → ((h + 1) % c + i) % c ≡ (h + suc i) % c
wrap-next h i c low bound = elim (wrap-cases (h + 1) c (omega arith)) [
  | inl (a, p) ↦ ap (λ z. (z + i) % c) p ∙ ap (λ z. z % c) (omega arith)
  | inr (a, p) ↦
      ap (λ z. (z + i) % c) p
      ∙ sym (add-mod_right (h + 1 - c + i) c)
      ∙ ap (λ z. z % c) (omega arith)
]

pub wrap-lt : (x c : ℕ) → x < c + c → x % c < c
wrap-lt x c h = elim (wrap-cases x c h) [
  | inl (a, p) ↦ omega (arith, p)
  | inr (a, p) ↦ omega (arith, p)
]

pub List-cases {ℓ} : {B : Type ℓ} (q : List B) → (q ≡ []) ⊎ ((x : B) × (r : List B) × (q ≡ x ∷ r))
List-cases [] = inl refl
List-cases (x ∷ r) = inr (x, r, refl)

-- One step on from a place that is already wrapped.
pub wrap-step : (x c : ℕ) → x < c + c → (x % c + 1) % c ≡ (x + 1) % c
wrap-step x c h = elim (wrap-cases x c h) [
  | inl (a, p) ↦ ap (λ z. (z + 1) % c) p
  | inr (a, p) ↦
      ap (λ z. (z + 1) % c) p ∙ sym (add-mod_right (x - c + 1) c) ∙ ap (λ z. z % c) (omega arith)
]

pub wrap-here : (h c : ℕ) → h < c → (h + 0) % c ≡ h
wrap-here h c low = ap (λ z. z % c) (omega arith) ∙ mod-eq_of_lt low
