-- ===== src/Prelude/Sorting.antt =====
-- A stable insertion sort, `dedup` and the properties of ascending lists, for any Boolean order.
use mathlib.Core.Path.{◌≡◌}
use mathlib.Core.Logic.{◌⊎◌, inl, inr}
use mathlib.Core.Bool.{Bool, true, false}
use mathlib.Core.List.{List, [], ◌∷◌}
use genrt.Prelude.Bools.{if◌then◌else◌, Bool-cases}

module _ {ℓ} {A : Type ℓ} where
  abbrev pub All {κ} : (A → Type κ) → List A → Type κ
  All P [] = Unit
  All P (x ∷ xs) = P x × All P xs

  abbrev pub Any : (A → Type 0) → List A → Type 0
  Any P [] = ⊥
  Any P (x ∷ xs) = P x ⊎ Any P xs

  -- What holds of all elements holds of the one that is there.
  pub All-Any :
      {P Q : A → Type 0} {R : Type 0} (xs : List A)
      → All P xs
      → Any Q xs
      → ((x : A) → P x → Q x → R)
      → R
  All-Any [] a q f = absurd q
  All-Any (x ∷ xs) a (inl q) f = f x a.0 q
  All-Any (x ∷ xs) a (inr q) f = All-Any xs a.1 q f

  pub All-map {κ μ} :
      {P : A → Type κ} {Q : A → Type μ} (xs : List A) → ((x : A) → P x → Q x) → All P xs → All Q xs
  All-map [] f a = tt
  All-map (x ∷ xs) f a = (f x a.0, All-map xs f a.1)

module _ {ℓ} {A : Type ℓ} (le : A → A → Bool) where
  unfoldable pub insert_by : A → List A → List A
  insert_by x [] = x ∷ []
  insert_by x (y ∷ ys) = let rest = insert_by x ys in if le x y then x ∷ y ∷ ys else y ∷ rest

  -- `sort_by`: equal elements keep their order.
  unfoldable pub sort_by : List A → List A
  unfolding insert_by
  sort_by [] = []
  sort_by (x ∷ xs) = insert_by x (sort_by xs)

  -- Every element is at most each of the later ones.
  abbrev pub Ascending : List A → Type 0
  Ascending [] = Unit
  Ascending (x ∷ xs) = All (λ y. le x y ≡ true) xs × Ascending xs

  insert_by-All : (P : A → Type 0) (x : A) (xs : List A) → P x → All P xs → All P (insert_by x xs)
  unfolding insert_by
  insert_by-All P x [] p a = (p, tt)
  insert_by-All P x (y ∷ ys) p a = elim (Bool-cases (le x y)) [
    | inl e ↦ rw e (p, a)
    | inr e ↦ rw e (a.0, insert_by-All P x ys p a.1)
  ]

  sort_by-All : (P : A → Type 0) (xs : List A) → All P xs → All P (sort_by xs)
  unfolding sort_by
  sort_by-All P [] a = tt
  sort_by-All P (x ∷ xs) a = insert_by-All P x (sort_by xs) a.0 (sort_by-All P xs a.1)

  insert_by-Any : (P : A → Type 0) (x : A) (xs : List A) → P x ⊎ Any P xs → Any P (insert_by x xs)
  unfolding insert_by
  insert_by-Any P x [] p = p
  insert_by-Any P x (y ∷ ys) p = elim (Bool-cases (le x y)) [
    | inl e ↦ rw e p
    | inr e ↦ rw e (elim p [
      | inl here ↦ inr (insert_by-Any P x ys (inl here))
      | inr (inl head) ↦ inl head
      | inr (inr later) ↦ inr (insert_by-Any P x ys (inr later))
    ])
  ]

  pub sort_by-Any : (P : A → Type 0) (xs : List A) → Any P xs → Any P (sort_by xs)
  unfolding sort_by
  sort_by-Any P [] p = p
  sort_by-Any P (x ∷ xs) (inl p) = insert_by-Any P x (sort_by xs) (inl p)
  sort_by-Any P (x ∷ xs) (inr p) = insert_by-Any P x (sort_by xs) (inr (sort_by-Any P xs p))

  module _ (total : (x y : A) → le x y ≡ false → le y x ≡ true)
      (trans : (x y z : A) → le x y ≡ true → le y z ≡ true → le x z ≡ true) where
    insert_by-Ascending : (x : A) (xs : List A) → Ascending xs → Ascending (insert_by x xs)
    unfolding insert_by
    insert_by-Ascending x [] s = (tt, tt)
    insert_by-Ascending x (y ∷ ys) s = elim (Bool-cases (le x y)) [
      | inl e ↦ rw e ((e, All-map ys (λ z above. trans x y z e above) s.0), s)
      | inr e ↦ rw e (insert_by-All _ x ys (total x y e) s.0, insert_by-Ascending x ys s.1)
    ]

    pub sort_by-Ascending : (xs : List A) → Ascending (sort_by xs)
    unfolding sort_by
    sort_by-Ascending [] = tt
    sort_by-Ascending (x ∷ xs) = insert_by-Ascending x (sort_by xs) (sort_by-Ascending xs)
