-- ===== src/Memory/FrameAlloc/Alloc.antt =====
-- `alloc_contiguous_aligned` takes an aligned run out of the ascending list.
use Prim.Native.Nat.{bit_and}
use mathlib.Core.List.{append_assoc}
use genrt.Prelude.Masks.{bit_and-mask}
use genrt.Prelude.{
  ℕ, zero, suc, ◌+◌, ◌-◌, ◌*◌, ◌%◌, ◌^◌, ◌≤◌, ◌<◌, ◌≡◌, refl, ap, sym, ◌∙◌, subst, subst₃, ◌==◌,
  ==_iff, ◌⊎◌, inl, inr, Bool-cases, Bool, Option, none, some, true, false, not, ◌||◌, List, [],
  ◌∷◌, ◌++◌, arith, length, length-append, usize_max, ltb, Fallible, returns,
}
use genrt.Memory.Types.{AddrRange, range}
use genrt.Memory.FrameAlloc.{
  FrameAllocator, Scan, empty_scan, is_aligned, power_below, is_power_of_two, Found, found, unlink,
  run_range, take_run, alloc_contiguous_aligned,
}
use genrt.Memory.FrameAlloc.Chain.{
  Chain, Above, Under, Owns, last_or, head?, relink, Above-left, Above-right, Above-split,
  Above-append, Chain-right,
}
use genrt.Memory.FrameAlloc.Pages.{pages, length-pages}
use genrt.Memory.FrameAlloc.Runs.{idle, running, Searched, nothing, a_run, scan-Searched}

-- Every frame ends within the address space.
abbrev pub Fits : ℕ → List ℕ → Type 0
Fits page [] = Unit {0}
Fits page (x ∷ xs) = (x + page ≤ usize_max) × Fits page xs

Fits-right : (page : ℕ) (xs ys : List ℕ) → Fits page (xs ++ ys) → Fits page ys
Fits-right page [] ys f = f
Fits-right page (x ∷ xs) ys f = Fits-right page xs ys f.1

power_exponent : (k n : ℕ) → power_below k n ≡ true → (e : ℕ) × (n ≡ 2 ^ e)
unfolding power_below
power_exponent zero n h = cc
power_exponent (suc k) n h = elim (Bool-cases (n == 2 ^ k)) [
  | inl hit ↦ (k, (==_iff n (2 ^ k)).0 hit)
  | inr miss ↦ power_exponent k n (rw miss at h)
]

-- The mask test of the code is divisibility.
aligned-mod :
    (align st : ℕ) → is_power_of_two align ≡ true → is_aligned align st ≡ true → st % align ≡ 0
unfolding is_power_of_two
aligned-mod align st p h =
    let (e, q) = power_exponent 64 align p in
    ap (λ a. st % a) q
    ∙ sym (bit_and-mask e st)
    ∙ ap (λ a. bit_and st (a - 1)) (sym q)
    ∙ (==_iff _ _).0 h

run_range-returns :
    (page st k : ℕ)
    → st + k * page + page ≤ usize_max
    → run_range page (some st) (some (st + k * page)) ≡ returns (range st (st + suc k * page))
unfolding run_range
run_range-returns page st k h = ground arith

Fits-last :
    (page st k : ℕ) (rest : List ℕ)
    → Fits page (pages page st (suc k) ++ rest)
    → st + k * page + page ≤ usize_max
Fits-last page st zero rest f = omega (arith, f.0)
Fits-last page st (suc k) rest f = omega (arith, Fits-last page (st + page) k rest f.1)

module _ (page st k : ℕ) (pre post : List ℕ) where
  length-without : length (pre ++ (pages page st (suc k) ++ post)) ≡ length (pre ++ post) + suc k
  length-without = omega (
    arith,
    length-append pre (pages page st (suc k) ++ post),
    length-append (pages page st (suc k)) post,
    length-append pre post,
    length-pages page st (suc k),
  )

  module _ (sorted : Above 0 (pre ++ (pages page st (suc k) ++ post))) where
    Under-pre : Under st pre
    Under-pre = (Above-split 0 pre st (pages page (st + page) k ++ post) sorted).0

    Above-post : Above st post
    Above-post =
        Above-right st (pages page st (suc k)) post
          (Above-split 0 pre st (pages page (st + page) k ++ post) sorted).1

    Above-without : Above 0 (pre ++ post)
    Above-without =
        Above-append 0 st pre post (omega arith) Under-pre Above-post
          (Above-left 0 pre (pages page st (suc k) ++ post) sorted)

unlink-Chain :
    (a : FrameAllocator) (page st k : ℕ) (pre post : List ℕ)
    → Owns a (pre ++ (pages page st (suc k) ++ post))
    → let a' = unlink a (suc k) (last_or none pre) (head? post) in
      Chain a'.links a'.head (pre ++ post)
unfolding unlink
unlink-Chain a page st k [] post o = Chain-right a.links a.head (pages page st (suc k)) post o.chain
unlink-Chain a page st k (x ∷ lo) post o =
    relink st 0 a.links a.links a.head (head? post) x lo (pages page st (suc k) ++ post) post
      (λ g below. refl) (Under-pre page st k (x ∷ lo) post o.sorted)
      (Above-left 0 (x ∷ lo) _ o.sorted) (Above-post page st k (x ∷ lo) post o.sorted) o.chain
      (Chain-right a.links a.head ((x ∷ lo) ++ pages page st (suc k)) post (
        subst (Chain a.links a.head) (sym (append_assoc (x ∷ lo) (pages page st (suc k)) post))
          o.chain))

unlink_count :
    (a : FrameAllocator) (n : ℕ) (before next : Option ℕ)
    → (unlink a n before next).free_frames ≡ a.free_frames - n
unfolding unlink
unlink_count a n none next = refl
unlink_count a n (some before) next = refl

-- The allocator without the run that stood between `pre` and `post`.
unlink-Owns :
    (a : FrameAllocator) (page st k : ℕ) (pre post : List ℕ)
    → Owns a (pre ++ (pages page st (suc k) ++ post))
    → Owns (unlink a (suc k) (last_or none pre) (head? post)) (pre ++ post)
unlink-Owns a page st k pre post o = record {
  chain = unlink-Chain a page st k pre post o;
  sorted = Above-without page st k pre post o.sorted;
  count = omega (
    arith,
    unlink_count a (suc k) (last_or none pre) (head? post),
    o.count,
    length-without page st k pre post,
  );
}

-- The answer that hands out a run of the free list and keeps the rest.
pub record Allocated (a : FrameAllocator) (xs : List ℕ) (page align frames : ℕ)
    (answer : Option (Fallible (FrameAllocator × Option AddrRange))) : Type 0 where
  pub after : FrameAllocator
  pub st : ℕ
  pub pre : List ℕ
  pub post : List ℕ
  pub whole : xs ≡ pre ++ (pages page st frames ++ post)
  pub aligned : st % align ≡ 0
  pub answers : answer ≡ some (returns (after, some (range st (st + frames * page))))
  pub owns : Owns after (pre ++ post)

take_run-found :
    (a : FrameAllocator) (page n st k : ℕ) (s : Scan) (before next : Option ℕ)
    → s.run_start ≡ some st
    → s.run_end ≡ some (st + k * page)
    → s.candidate_prev ≡ before
    → st + k * page + page ≤ usize_max
    → take_run a page n (found s next)
      ≡ some (returns (unlink a n before next, some (range st (st + suc k * page))))
unfolding take_run
take_run-found a page n st k s before next start end cand h =
    rw (start, end, take_run)
      (rw (run_range-returns page st k h)
        (ap (λ c. some (returns (unlink a n c next, some (range st (st + suc k * page))))) cand))

run_taken :
    (a : FrameAllocator) (page align st k : ℕ) (pre rest : List ℕ) (s : Scan)
    → Owns a (pre ++ (pages page st (suc k) ++ rest))
    → Fits page (pre ++ (pages page st (suc k) ++ rest))
    → st % align ≡ 0
    → s.run_start ≡ some st
    → s.run_end ≡ some (st + k * page)
    → s.candidate_prev ≡ last_or none pre
    → Allocated a
        (pre ++ (pages page st (suc k) ++ rest))
        page
        align
        (suc k)
        (take_run a page (suc k) (found s (head? rest)))
run_taken a page align st k pre rest s o f ok start end cand = record {
  after = unlink a (suc k) (last_or none pre) (head? rest);
  st = st;
  pre = pre;
  post = rest;
  whole = refl;
  aligned = ok;
  answers =
      take_run-found a page (suc k) st k s (last_or none pre) (head? rest) start end cand
        (Fits-last page st k rest (Fits-right page pre _ f));
  owns = unlink-Owns a page st k pre rest o;
}

take_run-Allocated :
    (a : FrameAllocator) (xs : List ℕ) (page align frames : ℕ) (r : Found)
    → Owns a xs
    → Fits page xs
    → 0 < frames
    → is_power_of_two align ≡ true
    → Searched page align frames xs r
    → (take_run a page frames r ≡ some (returns (a, none)))
      ⊎ Allocated a xs page align frames (take_run a page frames r)
unfolding take_run
take_run-Allocated a xs page align frames r o f pos p (nothing e) = inl (rw e refl)
take_run-Allocated a xs page align frames r o f pos p
      (a_run pre run rest s e whole (idle q start len) hit) =
    absurd (omega arith)
take_run-Allocated a xs page align frames r o f pos p
      (a_run pre run rest s e whole (running st k q start end len cand ok) hit) =
    inr (
      subst₃ (λ ys n g. Allocated a ys page align n (take_run a page n g)) (sym regrouped)
        (sym len ∙ hit) (sym e)
        (run_taken a page align st k pre rest s (subst (Owns a) regrouped o)
          (subst (Fits page) regrouped f) (aligned-mod align st p ok) start end cand))
  where
    regrouped : xs ≡ pre ++ (pages page st (suc k) ++ rest)
    regrouped = whole ∙ append_assoc pre run rest ∙ ap (λ u. pre ++ (u ++ rest)) q

power_of_test : (t p : Bool) → (t || not p) ≡ false → p ≡ true
power_of_test false true h = refl
power_of_test false false h = cc
power_of_test true p h = cc

-- Asking for a nonzero number of contiguous frames, of an allocator whose frames end within the
-- address space, neither panics nor runs out of fuel: either nothing is handed out and nothing
-- changes, or the answer is a run of free pages of that number that starts at a multiple of the
-- alignment, and exactly those pages leave the free list.
pub alloc_contiguous_aligned-Allocated :
    (a : FrameAllocator) (xs : List ℕ) (frames page align : ℕ)
    → Owns a xs
    → Fits page xs
    → 0 < frames
    → (alloc_contiguous_aligned a frames page align ≡ some (returns (a, none)))
      ⊎ Allocated a xs page align frames (alloc_contiguous_aligned a frames page align)
unfolding alloc_contiguous_aligned
alloc_contiguous_aligned-Allocated a xs frames page align o f pos =
    elim (Bool-cases (ltb align page || not (is_power_of_two align))) [
      | inl bad ↦ inl (rw (nonzero, bad) refl)
      | inr fine ↦
          rw (nonzero, fine)
            (take_run-Allocated a xs page align frames _ o f pos
              (power_of_test (ltb align page) _ fine)
              (scan-Searched (suc a.free_frames) page align frames a.links empty_scan a.head [] []
                xs (omega (arith, o.count)) o.chain
                (record { seen = refl; same = refl; run_ok = idle refl refl refl })))
    ]
  where
    nonzero : (frames == 0) ≡ false
    nonzero = ground arith
