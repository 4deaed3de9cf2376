-- ===== src/Memory/FrameAlloc/Chain.antt =====
-- The free list that the links in memory spell out, and the allocator's invariant.
use genrt.Prelude.{
  ℕ, suc, ◌≤◌, ◌<◌, ◌≡◌, ◌≢◌, Option, none, some, List, ◌++◌, refl, [], ◌∷◌, arith, length,
  usize_max,
}
use genrt.Memory.FrameAlloc.{Links, write, next_of, raw, FrameAllocator}

-- From `h` the links lead through the frames `xs` to the end of the list.
abbrev pub Chain : Links → Option ℕ → List ℕ → Type 0
Chain links h [] = h ≡ none
Chain links h (x ∷ xs) = (h ≡ some x) × (x < usize_max) × Chain links (next_of links x) xs

-- Strictly ascending, from `lo` on.
abbrev pub Above : ℕ → List ℕ → Type 0
Above lo [] = Unit {0}
Above lo (x ∷ xs) = (lo ≤ x) × Above (suc x) xs

abbrev pub Absent : ℕ → List ℕ → Type 0
Absent f [] = Unit {0}
Absent f (x ∷ xs) = (x ≢ f) × Absent f xs

-- The allocator's free list is `xs`: ascending by address, and counted.
pub record Owns (a : FrameAllocator) (xs : List ℕ) : Type 0 where
  pub chain : Chain a.links a.head xs
  pub sorted : Above 0 xs
  pub count : a.free_frames ≡ length xs

pub Above-mono : (m n : ℕ) (xs : List ℕ) → m ≤ n → Above n xs → Above m xs
Above-mono m n [] h s = tt
Above-mono m n (x ∷ xs) h s = (omega arith, s.1)

pub Absent-of_Above : (f lo : ℕ) (xs : List ℕ) → f < lo → Above lo xs → Absent f xs
Absent-of_Above f lo [] h s = tt
Absent-of_Above f lo (x ∷ xs) h s = (omega arith, Absent-of_Above f (suc x) xs (omega arith) s.1)

-- A chain survives any change that spares its own frames.
pub Chain-same :
    (l l' : Links) (h : Option ℕ) (xs : List ℕ) (lo : ℕ)
    → Above lo xs
    → ((g : ℕ) → lo ≤ g → l' g ≡ l g)
    → Chain l h xs
    → Chain l' h xs
Chain-same l l' h [] lo s same c = c
Chain-same l l' h (x ∷ xs) lo s same c = (
  c.0,
  c.1,
  rw (same x s.0)
      (Chain-same l l' (next_of l x) xs (suc x) s.1 (λ g above. same g (omega arith)) c.2),
)

pub Chain-write :
    (l : Links) (f v : ℕ) (h : Option ℕ) (xs : List ℕ)
    → Absent f xs
    → Chain l h xs
    → Chain (write l f v) h xs
Chain-write l f v h [] out c = c
Chain-write l f v h (x ∷ xs) out c = (c.0, c.1, ground (arith, Chain-write l f v (next_of l x) xs))

abbrev pub Under : ℕ → List ℕ → Type 0
Under b [] = Unit {0}
Under b (x ∷ xs) = (x < b) × Under b xs

abbrev pub head? : List ℕ → Option ℕ
head? [] = none
head? (x ∷ xs) = some x

abbrev pub tail : List ℕ → List ℕ
tail [] = []
tail (x ∷ xs) = xs

-- The last of `x ∷ xs`.
abbrev pub last : ℕ → List ℕ → ℕ
last x [] = x
last x (y ∷ ys) = last y ys

abbrev pub last_or : Option ℕ → List ℕ → Option ℕ
last_or p [] = p
last_or p (x ∷ xs) = some (last x xs)

pub Chain-head : (l : Links) (h : Option ℕ) (xs : List ℕ) → Chain l h xs → h ≡ head? xs
Chain-head l h [] c = c
Chain-head l h (x ∷ xs) c = c.0

-- A frame whose word is set to the head of a chain leads into it.
pub Chain-cons :
    (l : Links) (f : ℕ) (h : Option ℕ) (ys : List ℕ)
    → f < usize_max
    → Above (suc f) ys
    → Chain l h ys
    → Chain (write l f (raw h)) (some f) (f ∷ ys)
Chain-cons l f h [] m s c = (refl, m, rw c (ground arith))
Chain-cons l f h (y ∷ ys) m s c =
    let d =
      Chain-write l f (raw h) h (y ∷ ys) (Absent-of_Above f (suc f) (y ∷ ys) (omega arith) s) c in
    (refl, m, (rw c.0 (ground arith), d.1, d.2))

le-last : (k x : ℕ) (xs : List ℕ) → Above k (x ∷ xs) → x ≤ last x xs
le-last k x [] s = omega arith
le-last k x (y ∷ ys) s = omega (arith, le-last (suc x) y ys s.1)

-- A list cut behind its first frames, which are below `b`, and led on into another chain.
pub relink :
    (b k : ℕ) (l l' : Links) (h n : Option ℕ) (x : ℕ) (lo old ys : List ℕ)
    → ((g : ℕ) → g < b → l' g ≡ l g)
    → Under b (x ∷ lo)
    → Above k (x ∷ lo)
    → Above b ys
    → Chain l h ((x ∷ lo) ++ old)
    → Chain l' n ys
    → Chain (write l' (last x lo) (raw n)) h ((x ∷ lo) ++ ys)
relink b k l l' h n x [] old ys same u s s' c d =
    (c.0, c.1, (Chain-cons l' x n ys c.1 (Above-mono (suc x) b ys u.0 s') d).2)
relink b k l l' h n x (y ∷ lo) old ys same u s s' c d =
    let r = relink b (suc x) l l' (next_of l x) n y lo old ys same u.1 s.1 s' c.2 d in
    (c.0, c.1, (ground (arith, same x u.0, le-last (suc x) y lo s.1, c.2.0), r.1, r.2))

pub Above-append :
    (k b : ℕ) (xs ys : List ℕ) → k ≤ b → Under b xs → Above b ys → Above k xs → Above k (xs ++ ys)
Above-append k b [] ys h u s t = Above-mono k b ys h s
Above-append k b (x ∷ xs) ys h u s t = (t.0, Above-append (suc x) b xs ys (omega arith) u.1 s t.1)

pub Above-left : (k : ℕ) (xs ys : List ℕ) → Above k (xs ++ ys) → Above k xs
Above-left k [] ys s = tt
Above-left k (x ∷ xs) ys s = (s.0, Above-left (suc x) xs ys s.1)

pub Above-right : (k : ℕ) (xs ys : List ℕ) → Above k (xs ++ ys) → Above k ys
Above-right k [] ys s = s
Above-right k (x ∷ xs) ys s = Above-mono k (suc x) ys (omega arith) (Above-right (suc x) xs ys s.1)

-- What stands before `y` in an ascending list is below it.
pub Above-split :
    (k : ℕ) (xs : List ℕ) (y : ℕ) (ys : List ℕ)
    → Above k (xs ++ y ∷ ys)
    → Under y xs × Above y (y ∷ ys)
Above-split k [] y ys s = (tt, (omega arith, s.1))
Above-split k (x ∷ xs) y ys s =
    let r = Above-split (suc x) xs y ys s.1 in
    ((omega (arith, (Above-right (suc x) xs (y ∷ ys) s.1).0), r.0), r.1)

pub Chain-own : (l : Links) (h : Option ℕ) (ys : List ℕ) → Chain l h ys → Chain l (head? ys) ys
Chain-own l h [] c = refl
Chain-own l h (y ∷ ys) c = (refl, c.1, c.2)

-- The end of a chain, as a chain.
pub Chain-right :
    (l : Links) (h : Option ℕ) (lo hi : List ℕ) → Chain l h (lo ++ hi) → Chain l (head? hi) hi
Chain-right l h [] hi c = Chain-own l h hi c
Chain-right l h (x ∷ lo) hi c = Chain-right l (next_of l x) lo hi c.2
