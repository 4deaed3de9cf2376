-- ===== src/Memory/FrameAlloc/Pages.antt =====
-- Runs of page frames.
use mathlib.Core.List.{append_assoc, append-nil}
use genrt.Prelude.{
  ℕ, zero, suc, ◌+◌, ◌*◌, ◌<◌, ◌≡◌, refl, ap, sym, ◌∙◌, Option, some, none, List, [], ◌∷◌, ◌++◌,
  arith, length,
}
use genrt.Memory.FrameAlloc.Chain.{Above, Above-mono, last_or}

-- The `n` frames from `start` on.
abbrev pub pages : ℕ → ℕ → ℕ → List ℕ
pages page start zero = []
pages page start (suc n) = start ∷ pages page (start + page) n

pub pages-snoc :
    (page start n : ℕ) (ys : List ℕ)
    → pages page start (suc n) ++ ys ≡ pages page start n ++ (start + n * page) ∷ ys
pages-snoc page start zero ys = ap (λ f. f ∷ ys) (omega arith)
pages-snoc page start (suc n) ys =
    let shift : start + page + n * page ≡ start + suc n * page = omega arith in
    rw (← shift) (ap (λ r. start ∷ r) (pages-snoc page (start + page) n ys))

pub pages-Above :
    (page start n : ℕ) (ys : List ℕ)
    → 0 < page
    → Above (start + n * page) ys
    → Above start (pages page start n ++ ys)
pages-Above page start zero ys pos s = Above-mono start (start + 0 * page) ys (omega arith) s
pages-Above page start (suc n) ys pos s = (
  omega arith,
  Above-mono (suc start) (start + page) _ (omega arith) (
      pages-Above page (start + page) n ys pos
        (Above-mono (start + page + n * page) (start + suc n * page) ys (omega arith) s)),
)

pub length-pages : (page start n : ℕ) → length (pages page start n) ≡ n
length-pages page start zero = refl
length-pages page start (suc n) = ap suc (length-pages page (start + page) n)

pub last_or-snoc : (p : Option ℕ) (xs : List ℕ) (f : ℕ) → last_or p (xs ++ f ∷ []) ≡ some f
last_or-snoc p [] f = refl
last_or-snoc p (x ∷ []) f = refl
last_or-snoc p (x ∷ y ∷ ys) f = last_or-snoc none (y ∷ ys) f

pub pages-grow :
    (page st k : ℕ)
    → pages page st (suc k) ++ (st + suc k * page) ∷ [] ≡ pages page st (suc (suc k))
pages-grow page st k = sym (pages-snoc page st (suc k) []) ∙ append-nil _

pub pages-end : (page st k : ℕ) → pages page st (suc k) ≡ pages page st k ++ (st + k * page) ∷ []
pages-end page st k = sym (append-nil _) ∙ pages-snoc page st k []

pub pages-last :
    (pre : List ℕ) (page st k : ℕ)
    → last_or none (pre ++ pages page st (suc k)) ≡ some (st + k * page)
pages-last pre page st k =
    ap (λ r. last_or none (pre ++ r)) (pages-end page st k)
    ∙ ap (last_or none) (sym (append_assoc pre (pages page st k) _))
    ∙ last_or-snoc none (pre ++ pages page st k) _
