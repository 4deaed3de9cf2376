-- ===== src/Memory/FrameAlloc/Init.antt =====
-- `init_from_ranges` fills the free list with the pages of the ranges.
use mathlib.Core.List.{reverse-cons}
use genrt.Prelude.{
  Option-cases, ℕ, zero, suc, ◌+◌, ◌-◌, ◌*◌, ◌≤◌, ◌<◌, ◌≡◌, refl, ap, sym, ◌∙◌, subst, inl, inr,
  Option, some, List, [], ◌∷◌, ◌++◌, map, reverse, arith, length, usize_max, lt→ltb,
}
use genrt.Memory.Types.{AddrRange, range}
use genrt.Memory.FrameAlloc.{
  FrameAllocator, reset, insert_frame_sorted, insert_down, insert_ranges, init_from_ranges,
}
use genrt.Memory.FrameAlloc.Chain.{Above, Owns, Above-mono, Absent-of_Above}
use genrt.Memory.FrameAlloc.Insert.{insert, insert_frame_sorted-Owns}
use genrt.Memory.FrameAlloc.Pages.{pages, pages-snoc, pages-Above}

-- A range of whole pages: its start, and the number of its pages.
abbrev pub Span : Type 0
Span = ℕ × ℕ

abbrev pub span_end : ℕ → Span → ℕ
span_end page (s, n) = s + n * page

abbrev pub span_range : ℕ → Span → AddrRange
span_range page (s, n) = range s (s + n * page)

-- Ascending, apart from one another, and within the address space.
abbrev pub Apart : ℕ → ℕ → List Span → Type 0
Apart page lo [] = lo ≤ usize_max
Apart page lo ((s, n) ∷ rest) = (lo ≤ s) × Apart page (s + n * page) rest

abbrev pub all_pages : ℕ → List Span → List ℕ
all_pages page [] = []
all_pages page ((s, n) ∷ rest) = pages page s n ++ all_pages page rest

insert-front : (f : ℕ) (xs : List ℕ) → Above (suc f) xs → insert f xs ≡ f ∷ xs
insert-front f [] s = refl
insert-front f (x ∷ xs) s = ground arith

-- What filling the list from a range gives.
Filled : FrameAllocator → List ℕ → Option FrameAllocator → Type 0
Filled a xs r = (a' : FrameAllocator) × (r ≡ some a') × Owns a' xs × (a'.page_size ≡ a.page_size)

down_step :
    (fuel page start frame f : ℕ) (a a' : FrameAllocator)
    → start < frame
    → frame - page ≡ f
    → insert_frame_sorted a f ≡ some a'
    → insert_down (suc fuel) page start frame a ≡ insert_down fuel page start f a'
unfolding insert_down
down_step fuel page start frame f a a' h q e =
    let e' : insert_frame_sorted a (frame - page) ≡ some a' = ap (insert_frame_sorted a) q ∙ e in
    rw (lt→ltb start frame h, e') (ap (λ g. insert_down fuel page start g a') q)

span_fuel : (s page n : ℕ) → 0 < page → n < suc (s + n * page - s)
span_fuel s page n pos = grind arith

insert_down-Filled :
    (fuel page start n : ℕ) (a : FrameAllocator) (xs : List ℕ)
    → n < fuel
    → 0 < page
    → start + n * page ≤ usize_max
    → Above (start + n * page) xs
    → Owns a xs
    → Filled a (pages page start n ++ xs) (insert_down fuel page start (start + n * page) a)
unfolding Filled
insert_down-Filled zero page start n a xs len pos m s o = absurd (omega arith)
insert_down-Filled (suc fuel) page start zero a xs len pos m s o =
    (a, unfold insert_down in (ground arith), o, refl)
insert_down-Filled (suc fuel) page start (suc n) a xs len pos m s o =
    let f = start + n * page in
    let (a₁, e₁, o₁, p₁) =
      insert_frame_sorted-Owns a f xs o (omega arith)
        (Absent-of_Above f (start + suc n * page) xs (omega arith) s) in
    let above = Above-mono (suc f) (start + suc n * page) xs (omega arith) s in
    let (a₂, e₂, o₂, p₂) =
      insert_down-Filled fuel page start n a₁ (f ∷ xs) (omega arith) pos (omega arith)
        (omega arith, above) (subst (Owns a₁) (insert-front f xs above) o₁) in
    (
      a₂,
      down_step fuel page start (start + suc n * page) f a a₁ (omega arith) (omega arith) e₁ ∙ e₂,
      subst (Owns a₂) (sym (pages-snoc page start n xs)) o₂,
      p₂ ∙ p₁,
    )

insert_ranges-append :
    (page : ℕ) (rs ts : List AddrRange) (a a' : FrameAllocator)
    → insert_ranges page rs a ≡ some a'
    → insert_ranges page (rs ++ ts) a ≡ insert_ranges page ts a'
unfolding insert_ranges
insert_ranges-append page [] ts a a' h = cc
insert_ranges-append page (r ∷ rs) ts a a' h =
    elim (Option-cases (insert_down (suc (r.end - r.start)) page r.start r.end a)) [
      | inl e ↦ ground arith
      | inr (b, e) ↦ ground (arith, insert_ranges-append page rs ts b a')
    ]

insert_one :
    (page : ℕ) (r : AddrRange) (a : FrameAllocator)
    → insert_ranges page (r ∷ []) a ≡ insert_down (suc (r.end - r.start)) page r.start r.end a
unfolding insert_ranges
insert_one page r a = ground arith

all_pages-Above :
    (page lo : ℕ) (spans : List Span)
    → 0 < page
    → Apart page lo spans
    → Above lo (all_pages page spans)
all_pages-Above page lo [] pos h = tt
all_pages-Above page lo ((s, n) ∷ rest) pos h =
    Above-mono lo s _ h.0
      (pages-Above page s n _ pos (all_pages-Above page (s + n * page) rest pos h.1))

Apart-le : (page lo : ℕ) (spans : List Span) → Apart page lo spans → lo ≤ usize_max
Apart-le page lo [] h = h
Apart-le page lo ((s, n) ∷ rest) h = omega (arith, Apart-le page (s + n * page) rest h.1)

insert_ranges-Filled :
    (page lo : ℕ) (spans : List Span) (a : FrameAllocator)
    → 0 < page
    → Apart page lo spans
    → Owns a []
    → Filled a (all_pages page spans) (insert_ranges page (reverse (map (span_range page) spans)) a)
unfolding Filled
insert_ranges-Filled page lo [] a pos h o = (a, unfold insert_ranges in refl, o, refl)
insert_ranges-Filled page lo ((s, n) ∷ rest) a pos h o =
    let (a₁, e₁, o₁, p₁) = insert_ranges-Filled page (s + n * page) rest a pos h.1 o in
    let (a₂, e₂, o₂, p₂) =
      insert_down-Filled (suc (s + n * page - s)) page s n a₁ (all_pages page rest)
        (span_fuel s page n pos) pos (Apart-le page (s + n * page) rest h.1)
        (all_pages-Above page (s + n * page) rest pos h.1) o₁ in
    (
      a₂,
      ap (λ rs. insert_ranges page rs a)
            (reverse-cons (span_range page (s, n)) (map (span_range page) rest))
          ∙ insert_ranges-append page (reverse (map (span_range page) rest))
              (span_range page (s, n) ∷ []) a a₁ e₁
          ∙ insert_one page (span_range page (s, n)) a₁
          ∙ e₂,
      o₂,
      p₂ ∙ p₁,
    )

init_run :
    (a b : FrameAllocator) (page : ℕ) (ranges : List AddrRange)
    → insert_ranges page (reverse ranges) (record (reset a) { page_size = page }) ≡ some b
    → init_from_ranges a ranges page ≡ some (record b { total_frames = b.free_frames })
unfolding init_from_ranges
init_run a b page ranges e = rw (e, init_from_ranges)

-- From ranges of whole pages that are ascending, apart and within the address space, whatever the
-- allocator held before, initialisation does not run out of fuel: the free list is every page of
-- every range, in order, and both counters are their number.
pub init_from_ranges-Owns :
    (a : FrameAllocator) (page : ℕ) (spans : List Span)
    → 0 < page
    → Apart page 0 spans
    → (a' : FrameAllocator) × (init_from_ranges a (map (span_range page) spans) page ≡ some a')
      × Owns a' (all_pages page spans)
      × (a'.total_frames ≡ length (all_pages page spans))
      × (a'.page_size ≡ page)
unfolding reset Filled
init_from_ranges-Owns a page spans pos h =
    let (a₁, e₁, o₁, p₁) =
      insert_ranges-Filled page 0 spans (record (reset a) { page_size = page }) pos h
        (record { chain = refl; sorted = tt; count = refl }) in
    (
      record a₁ { total_frames = a₁.free_frames },
      init_run a a₁ page (map (span_range page) spans) e₁,
      record { chain = o₁.chain; sorted = o₁.sorted; count = o₁.count },
      o₁.count,
      p₁,
    )
