-- ===== src/Memory/FrameAlloc/Examples.antt =====
-- An allocator with two free runs: three pages from 0x1000 and two from 0x10000.
use genrt.Prelude.{
  ℕ, ◌≡◌, refl, ◌==◌, if◌then◌else◌, ◌⊎◌, none, some, List, [], ◌∷◌, ◌++◌, arith, usize_max,
  returns, map, length,
}
use genrt.Memory.Types.{range}
use genrt.Memory.FrameAlloc.{
  Links, FrameAllocator, insert_frame_sorted, init_from_ranges, alloc_frame, free_contiguous,
  alloc_contiguous_aligned, is_power_of_two, take_run, scan, visit,
}
use genrt.Memory.FrameAlloc.Chain.{Owns}
use genrt.Memory.FrameAlloc.Insert.{insert, insert_frame_sorted-Owns}
use genrt.Memory.FrameAlloc.Init.{Span, span_range, all_pages, init_from_ranges-Owns}
use genrt.Memory.FrameAlloc.Pages.{pages}
use genrt.Memory.FrameAlloc.Release.{alloc_frame-Owns, free_contiguous-Owns}
use genrt.Memory.FrameAlloc.Alloc.{Allocated, alloc_contiguous_aligned-Allocated}

abbrev chained : Links
chained f =
    if f == 0x1000
    then 0x2000
    else if f == 0x2000
    then 0x3000
    else if f == 0x3000
    then 0x1_0000
    else if f == 0x1_0000
    then 0x1_1000
    else usize_max

abbrev five : FrameAllocator
five = record {
  head = some 0x1000;
  page_size = 0x1000;
  total_frames = 5;
  free_frames = 5;
  links = chained;
}

abbrev five_frames : List ℕ
five_frames = 0x1000 ∷ 0x2000 ∷ 0x3000 ∷ 0x1_0000 ∷ 0x1_1000 ∷ []

abbrev spans : List Span
spans = (0x1000, 3) ∷ (0x1_0000, 2) ∷ []

five-Owns : Owns five five_frames
five-Owns = record {
  chain = (
    refl,
    omega arith,
    (refl, omega arith, (refl, omega arith, (refl, omega arith, (refl, omega arith, refl)))),
  );
  sorted = omega arith;
  count = refl;
}

insert_frame_sorted-Owns_example :
    (a : FrameAllocator) × (insert_frame_sorted five 0x8000 ≡ some a)
    × Owns a (insert 0x8000 five_frames)
    × (a.page_size ≡ 0x1000)
insert_frame_sorted-Owns_example =
    insert_frame_sorted-Owns five 0x8000 five_frames five-Owns (omega arith) (omega arith)

init_from_ranges-Owns_example :
    (a : FrameAllocator) × (init_from_ranges five (map (span_range 0x1000) spans) 0x1000 ≡ some a)
    × Owns a (all_pages 0x1000 spans)
    × (a.total_frames ≡ length (all_pages 0x1000 spans))
    × (a.page_size ≡ 0x1000)
init_from_ranges-Owns_example = init_from_ranges-Owns five 0x1000 spans (omega arith) (omega arith)

alloc_frame-Owns_example :
    ((alloc_frame five).1 ≡ some 0x1000)
    × Owns (alloc_frame five).0 (0x2000 ∷ 0x3000 ∷ 0x1_0000 ∷ 0x1_1000 ∷ [])
alloc_frame-Owns_example = alloc_frame-Owns five five_frames five-Owns

free_contiguous-Owns_example :
    (a : FrameAllocator) × (free_contiguous five (range 0x5000 0x7000) 0x1000 ≡ some a)
    × Owns a
        ((0x1000 ∷ 0x2000 ∷ 0x3000 ∷ []) ++ (pages 0x1000 0x5000 2 ++ 0x1_0000 ∷ 0x1_1000 ∷ []))
    × (a.page_size ≡ 0x1000)
free_contiguous-Owns_example =
    free_contiguous-Owns five (0x1000 ∷ 0x2000 ∷ 0x3000 ∷ []) (0x1_0000 ∷ 0x1_1000 ∷ []) 0x1000
      0x5000 2 five-Owns (omega arith) (omega arith) (omega arith) (omega arith) (omega arith)

-- Two pages at a multiple of two pages: 0x1000 is passed over.
two_aligned :
    (a : FrameAllocator) × (alloc_contiguous_aligned five 2 0x1000 0x2000
      ≡ some (returns (a, some (range 0x2000 0x4000))))
unfolding alloc_contiguous_aligned is_power_of_two take_run scan visit
two_aligned = (_, refl)

alloc_contiguous_aligned-Allocated_example :
    (alloc_contiguous_aligned five 2 0x1000 0x2000 ≡ some (returns (five, none)))
    ⊎ Allocated five five_frames 0x1000 0x2000 2 (alloc_contiguous_aligned five 2 0x1000 0x2000)
alloc_contiguous_aligned-Allocated_example =
    alloc_contiguous_aligned-Allocated five five_frames 2 0x1000 0x2000 five-Owns (omega arith)
      (omega arith)
