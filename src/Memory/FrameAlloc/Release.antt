-- ===== src/Memory/FrameAlloc/Release.antt =====
-- `alloc_frame` and `free_contiguous` against the ascending list.
use genrt.Prelude.{
  ℕ, zero, suc, ◌+◌, ◌-◌, ◌*◌, ◌/◌, ◌≤◌, ◌<◌, ◌≡◌, refl, ap, ◌∙◌, sym, subst, Option, none, some,
  false, List, [], ◌∷◌, ◌++◌, arith, length, length-append, usize_max, leb, lt→ltb,
}
use native.Mathlib.Nat.{mul-div_left}
use genrt.Memory.Types.{range}
use genrt.Memory.FrameAlloc.{
  Links, write, next_of, raw, FrameAllocator, alloc_frame, walk, link_down, splice, release_at,
  free_contiguous,
}
use genrt.Memory.FrameAlloc.Pages.{pages, pages-snoc, pages-Above, length-pages}
use genrt.Memory.FrameAlloc.Chain.{
  Above-append, Above-left, Chain-own, Chain-right, Chain, Above, Under, Owns, head?, tail, last_or,
  Above-mono, Chain-cons, relink,
}

-- Taking a frame answers the lowest free frame, and `none` exactly on the empty list; the rest stay
-- free, ascending and counted.
pub alloc_frame-Owns :
    (a : FrameAllocator) (xs : List ℕ)
    → Owns a xs
    → ((alloc_frame a).1 ≡ head? xs) × Owns (alloc_frame a).0 (tail xs)
unfolding alloc_frame
alloc_frame-Owns a [] o = ground arith
alloc_frame-Owns a (x ∷ xs) o = ground (arith, Above-mono 0 (suc x) xs)

lt-leb : (a b : ℕ) → a < b → leb b a ≡ false
lt-leb a b h = ground arith

walk-stops :
    (fuel : ℕ) (l : Links) (start : ℕ) (prev h : Option ℕ) (lo hi : List ℕ)
    → length (lo ++ hi) < fuel
    → Under start lo
    → Above start hi
    → Chain l h (lo ++ hi)
    → walk fuel l start prev h ≡ some (last_or prev lo, head? hi)
unfolding walk
walk-stops zero l start prev h lo hi len u s c = absurd (omega arith)
walk-stops (suc fuel) l start prev h [] [] len u s c = rw c
walk-stops (suc fuel) l start prev h [] (x ∷ hi) len u s c = ground arith
walk-stops (suc fuel) l start prev h (x ∷ []) hi len u s c =
    ground (arith, walk-stops fuel l start (some x) (next_of l x) [] hi)
walk-stops (suc fuel) l start prev h (x ∷ y ∷ lo) hi len u s c =
    ground (arith, walk-stops fuel l start (some x) (next_of l x) (y ∷ lo) hi)

-- What the loop that links the freed frames leaves behind.
abbrev Linked : Links → Links → ℕ → ℕ → ℕ → List ℕ → Type 0
Linked l l' page start n ys =
    Chain l' (head? (pages page start n ++ ys)) (pages page start n ++ ys)
    × ((g : ℕ) → g < start → l' g ≡ l g)

link_step :
    (fuel page start frame f next : ℕ) (l : Links)
    → start < frame
    → frame - page ≡ f
    → link_down (suc fuel) page start frame next l ≡ link_down fuel page start f f (write l f next)
unfolding link_down
link_step fuel page start frame f next l h e = rw (lt→ltb start frame h, e)

link_down-Linked :
    (fuel page start n : ℕ) (h : Option ℕ) (l : Links) (ys : List ℕ)
    → n < fuel
    → 0 < page
    → start + n * page ≤ usize_max
    → Above (start + n * page) ys
    → Chain l h ys
    → (l' : Links) × (link_down fuel page start (start + n * page) (raw h) l ≡ some l')
      × Linked l l' page start n ys
unfolding link_down
link_down-Linked zero page start n h l ys len pos m s c = absurd (omega arith)
link_down-Linked (suc fuel) page start zero h l ys len pos m s c =
    (l, ground arith, (Chain-own l h ys c, λ g below. refl))
link_down-Linked (suc fuel) page start (suc n) h l ys len pos m s c =
    let f = start + n * page in
    let (l', e, linked) =
      link_down-Linked fuel page start n (some f) (write l f (raw h)) (f ∷ ys) (omega arith) pos
        (omega arith) (omega arith, Above-mono (suc f) (start + suc n * page) ys (omega arith) s)
        (Chain-cons l f h ys (omega arith)
          (Above-mono (suc f) (start + suc n * page) ys (omega arith) s) c) in
    (
      l',
      link_step fuel page start (start + suc n * page) f (raw h) l (omega arith) (omega arith) ∙ e,
      (
        subst (λ zs. Chain l' (head? zs) zs) (sym (pages-snoc page start n ys)) linked.0,
        λ g below. ground (arith, linked.1 g below),
      ),
    )

length-released :
    (lo hi : List ℕ) (page start n : ℕ)
    → length (lo ++ (pages page start n ++ hi)) ≡ length (lo ++ hi) + n
length-released lo hi page start n = omega (
  arith,
  length-append lo (pages page start n ++ hi),
  length-append (pages page start n) hi,
  length-append lo hi,
  length-pages page start n,
)

splice-Chain :
    (a : FrameAllocator) (page start n : ℕ) (lo hi : List ℕ) (l' : Links)
    → 0 < n
    → 0 < page
    → Chain a.links a.head (lo ++ hi)
    → Above 0 lo
    → Under start lo
    → Above (start + n * page) hi
    → Linked a.links l' page start n hi
    → let a' = splice a start n (last_or none lo) l' in
      Chain a'.links a'.head (lo ++ (pages page start n ++ hi))
unfolding splice
splice-Chain a page start zero lo hi l' h pos c s u s' linked = absurd (omega arith)
splice-Chain a page start (suc n) [] hi l' h pos c s u s' linked = linked.0
splice-Chain a page start (suc n) (x ∷ lo) hi l' h pos c s u s' linked =
    relink start 0 a.links l' a.head (some start) x lo hi (pages page start (suc n) ++ hi) linked.1
      u s (pages-Above page start (suc n) hi pos s') c linked.0

splice_fields :
    (a : FrameAllocator) (start n : ℕ) (prev : Option ℕ) (l : Links)
    → ((splice a start n prev l).free_frames ≡ a.free_frames + n)
      × ((splice a start n prev l).page_size ≡ a.page_size)
unfolding splice
splice_fields a start n none l = (refl, refl)
splice_fields a start n (some before) l = (refl, refl)

free_contiguous-run :
    (a : FrameAllocator) (start end page n : ℕ) (p c : Option ℕ) (l' : Links)
    → start < end
    → (end - start) / page ≡ n
    → walk (suc a.free_frames) a.links start none a.head ≡ some (p, c)
    → link_down (suc (end - start)) page start end (raw c) a.links ≡ some l'
    → free_contiguous a (range start end) page ≡ some (splice a start n p l')
unfolding free_contiguous
free_contiguous-run a start end page n p c l' h e w k =
    rw (lt-leb start end h, w) (rw (k, release_at) (ap (λ m. some (splice a start m p l')) e))

page_count : (start page n : ℕ) → 0 < page → (start + n * page - start) / page ≡ n
page_count start page n pos =
    let e : start + n * page - start ≡ n * page = omega arith in rw e (mul-div_left n pos)

page_pos : (start page n : ℕ) → 0 < page → 0 < n → start < start + n * page
page_pos start page n pos h = grind arith

page_fuel : (start page n : ℕ) → 0 < page → n < suc (start + n * page - start)
page_fuel start page n pos = grind arith

-- Freeing `n` pages that lie between two neighbours of the free list never runs out of fuel: the
-- free list afterwards is the ascending list with the pages at their place, counted.
pub free_contiguous-Owns :
    (a : FrameAllocator) (lo hi : List ℕ) (page start n : ℕ)
    → Owns a (lo ++ hi)
    → 0 < page
    → 0 < n
    → start + n * page ≤ usize_max
    → Under start lo
    → Above (start + n * page) hi
    → (a' : FrameAllocator) × (free_contiguous a (range start (start + n * page)) page ≡ some a')
      × Owns a' (lo ++ (pages page start n ++ hi))
      × (a'.page_size ≡ a.page_size)
free_contiguous-Owns a lo hi page start n o pos h m u s =
    let (l', e, linked) =
      link_down-Linked (suc (start + n * page - start)) page start n (head? hi) a.links hi
        (page_fuel start page n pos) pos m s (Chain-right a.links a.head lo hi o.chain) in
    (
      splice a start n (last_or none lo) l',
      free_contiguous-run a start (start + n * page) page n (last_or none lo) (head? hi) l'
          (page_pos start page n pos h) (page_count start page n pos)
          (walk-stops (suc a.free_frames) a.links start none a.head lo hi (omega (arith, o.count)) u
            (Above-mono start (start + n * page) hi (omega arith) s) o.chain)
          e,
      record {
        chain =
            splice-Chain a page start n lo hi l' h pos o.chain (Above-left 0 lo hi o.sorted) u s
              linked;
        sorted =
            Above-append 0 start lo (pages page start n ++ hi) (omega arith) u
              (pages-Above page start n hi pos s) (Above-left 0 lo hi o.sorted);
        count = omega (
          arith,
          (splice_fields a start n (last_or none lo) l').0,
          o.count,
          length-released lo hi page start n,
        );
      },
      (splice_fields a start n (last_or none lo) l').1,
    )
