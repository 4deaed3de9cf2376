-- ===== src/Memory/FrameAlloc.antt =====
-- kernel/src/memory/frame_alloc.rs: the sorted free list of physical frames. The link to the next
-- free frame is the first word of a free frame, so the storage policy `S` is the function `links`
-- from a frame to its word, with `usize::MAX` as the end of the list (`PhysFrameStorage` in
-- kernel/src/memory/mod.rs). A method on `&mut self` returns the new allocator.
-- A loop that follows the links runs on fuel, one more than the free frames, and answers `none`
-- where the fuel runs out.
pub mod Chain
pub mod Insert
pub mod Init
pub mod Release
pub mod Pages
pub mod Runs
pub mod Alloc
mod Examples
use Prim.Native.Nat.{bit_and}
use genrt.Prelude.{
  ℕ, zero, suc, ◌+◌, ◌-◌, ◌/◌, ◌^◌, Bool, true, false, ◌&&◌, ◌||◌, not, Option, none, some,
  Fallible, returns, panics, ltb, leb, ◌==◌, if◌then◌else◌, List, [], ◌∷◌, reverse, usize_max,
  checked_add,
}
use genrt.Memory.Types.{AddrRange, range}

abbrev pub Links : Type 0
Links = ℕ → ℕ

abbrev pub write : Links → ℕ → ℕ → Links
write links frame v g = if frame == g then v else links g

-- `read_next_free_frame`, with the end of the list taken off.
abbrev pub next_of : Links → ℕ → Option ℕ
next_of links frame = if links frame == usize_max then none else some (links frame)

-- `unwrap_or_else(S::free_list_end)`.
abbrev pub raw : Option ℕ → ℕ
raw none = usize_max
raw (some frame) = frame

pub record FrameAllocator : Type 0 where
  pub head : Option ℕ
  pub page_size : ℕ
  pub total_frames : ℕ
  pub free_frames : ℕ
  pub links : Links

-- `reset`: the links stay as they are in memory.
pub reset : FrameAllocator → FrameAllocator
reset a = record a { head = none; page_size = 0; total_frames = 0; free_frames = 0 }

-- The loop of `insert_frame_sorted`, at a list node below the frame.
pub insert_after : ℕ → Links → ℕ → ℕ → Option Links
insert_after zero links frame prev = none
insert_after (suc fuel) links frame prev = elim (next_of links prev) [
  | none ↦ some (write (write links frame usize_max) prev frame)
  | some c ↦
      let rest = insert_after fuel links frame c in
      if ltb frame c then some (write (write links frame c) prev frame) else rest
]

with_links : FrameAllocator → Option Links → Option FrameAllocator
with_links a none = none
with_links a (some links) = some (record a { links = links; free_frames = a.free_frames + 1 })

pub insert_frame_sorted : FrameAllocator → ℕ → Option FrameAllocator
unfolding with_links
insert_frame_sorted a frame = elim a.head [
  | none ↦ some (record a {
    links = write a.links frame usize_max;
    head = some frame;
    free_frames = a.free_frames + 1;
  })
  | some h ↦
      if ltb frame h
      then some (record a {
        links = write a.links frame h;
        head = some frame;
        free_frames = a.free_frames + 1;
      })
      else with_links a (insert_after (suc a.free_frames) a.links frame h)
]

-- The inner loop of `init_from_ranges`: the frames of one range, from its end down.
pub insert_down : ℕ → ℕ → ℕ → ℕ → FrameAllocator → Option FrameAllocator
insert_down zero page start frame a = none
insert_down (suc fuel) page start frame a =
    let rest : Option FrameAllocator = elim (insert_frame_sorted a (frame - page)) [
      | none ↦ none
      | some a' ↦ insert_down fuel page start (frame - page) a'
    ] in
    if ltb start frame then rest else some a

pub insert_ranges : ℕ → List AddrRange → FrameAllocator → Option FrameAllocator
insert_ranges page [] a = some a
insert_ranges page (r ∷ rs) a = elim (insert_down (suc (r.end - r.start)) page r.start r.end a) [
  | none ↦ none
  | some a' ↦ insert_ranges page rs a'
]

pub init_from_ranges : FrameAllocator → List AddrRange → ℕ → Option FrameAllocator
unfolding reset
init_from_ranges a ranges page =
    elim (insert_ranges page (reverse ranges) (record (reset a) { page_size = page })) [
      | none ↦ none
      | some a' ↦ some (record a' { total_frames = a'.free_frames })
    ]

pub alloc_frame : FrameAllocator → FrameAllocator × Option ℕ
alloc_frame a = elim a.head [
  | none ↦ (a, none)
  | some frame ↦
      (record a { head = next_of a.links frame; free_frames = a.free_frames - 1 }, some frame)
]

-- The walk of `free_contiguous`: the last node below the start, and the node after it.
pub walk : ℕ → Links → ℕ → Option ℕ → Option ℕ → Option (Option ℕ × Option ℕ)
walk zero links start prev current = none
walk (suc fuel) links start prev none = some (prev, none)
walk (suc fuel) links start prev (some frame) =
    let rest = walk fuel links start (some frame) (next_of links frame) in
    if leb start frame then some (prev, some frame) else rest

-- The loop that links the freed frames, from the end down.
pub link_down : ℕ → ℕ → ℕ → ℕ → ℕ → Links → Option Links
link_down zero page start frame next links = none
link_down (suc fuel) page start frame next links =
    let rest =
      link_down fuel page start (frame - page) (frame - page) (write links (frame - page) next) in
    if ltb start frame then rest else some links

-- The splice behind the node before the range, or at the head.
pub splice : FrameAllocator → ℕ → ℕ → Option ℕ → Links → FrameAllocator
splice a start count none links = record a {
  links = links;
  head = some start;
  free_frames = a.free_frames + count;
}
splice a start count (some before) links = record a {
  links = write links before start;
  free_frames = a.free_frames + count;
}

pub release_at : FrameAllocator → AddrRange → ℕ → Option ℕ × Option ℕ → Option FrameAllocator
unfolding splice
release_at a r page (prev, current) =
    elim (link_down (suc (r.end - r.start)) page r.start r.end (raw current) a.links) [
      | none ↦ none
      | some links ↦ some (splice a r.start ((r.end - r.start) / page) prev links)
    ]

pub free_contiguous : FrameAllocator → AddrRange → ℕ → Option FrameAllocator
unfolding release_at
free_contiguous a r page =
    if leb r.end r.start
    then some a
    else elim (walk (suc a.free_frames) a.links r.start none a.head) [
      | none ↦ none
      | some at ↦ release_at a r page at
    ]

-- A frame at the very end of the address space panics.
pub free_frame : FrameAllocator → ℕ → Fallible (Option FrameAllocator)
unfolding checked_add
free_frame a frame = elim (checked_add frame a.page_size) [
  | none ↦ panics
  | some end ↦ returns (free_contiguous a (range frame end) a.page_size)
]

-- `usize::is_power_of_two`: one of the 64 powers.
pub power_below : ℕ → ℕ → Bool
power_below zero n = false
power_below (suc k) n = n == 2 ^ k || power_below k n

pub is_power_of_two : ℕ → Bool
unfolding power_below
is_power_of_two n = power_below 64 n

-- The variables of the loop of `alloc_contiguous_aligned`, but `current`.
pub record Scan : Type 0 where
  pub prev : Option ℕ
  pub previous_frame : Option ℕ
  pub candidate_prev : Option ℕ
  pub run_start : Option ℕ
  pub run_end : Option ℕ
  pub run_len : ℕ

abbrev pub empty_scan : Scan
empty_scan = record {
  prev = none;
  previous_frame = none;
  candidate_prev = none;
  run_start = none;
  run_end = none;
  run_len = 0;
}

abbrev pub is_aligned : ℕ → ℕ → Bool
is_aligned align frame = bit_and frame (align - 1) == 0

abbrev pub contiguous : ℕ → Option ℕ → ℕ → Bool
contiguous page none frame = false
contiguous page (some last) frame = frame == last + page

abbrev pub restart : Scan → Scan
restart s = record s { candidate_prev = none; run_start = none; run_end = none; run_len = 0 }

abbrev pub grow : ℕ → ℕ → Scan → Option ℕ → Scan
grow align frame s none =
    if is_aligned align frame
    then record s {
      candidate_prev = s.prev;
      run_start = some frame;
      run_end = some frame;
      run_len = 1;
    }
    else s
grow align frame s (some _) = record s { run_end = some frame; run_len = s.run_len + 1 }

-- One round of the loop, up to the test of the length.
pub visit : ℕ → ℕ → ℕ → Scan → Scan
visit page align frame s =
    let s' = if contiguous page s.previous_frame frame then s else restart s in
    grow align frame s' s'.run_start

abbrev pub advance : ℕ → Scan → Scan
advance frame s = record s { prev = some frame; previous_frame = some frame }

pub data Found : Type 0 where
  out_of_fuel : Found
  not_found : Found
  found : Scan → Option ℕ → Found

pub scan : ℕ → ℕ → ℕ → ℕ → Links → Scan → Option ℕ → Found
scan zero page align frames links s current = out_of_fuel
scan (suc fuel) page align frames links s none = not_found
scan (suc fuel) page align frames links s (some frame) =
    let s' = visit page align frame s in
    let rest = scan fuel page align frames links (advance frame s') (next_of links frame) in
    if s'.run_len == frames then found s' (next_of links frame) else rest

-- The run is unlinked behind its predecessor, or at the head.
pub unlink : FrameAllocator → ℕ → Option ℕ → Option ℕ → FrameAllocator
unlink a frames none next = record a { head = next; free_frames = a.free_frames - frames }
unlink a frames (some before) next = record a {
  links = write a.links before (raw next);
  free_frames = a.free_frames - frames;
}

-- The two `expect`s and the end of the range.
pub run_range : ℕ → Option ℕ → Option ℕ → Fallible AddrRange
unfolding checked_add
run_range page (some start) (some last) = elim (checked_add last page) [
  | none ↦ panics
  | some end ↦ returns (range start end)
]
run_range page (some start) none = panics
run_range page none last = panics

pub take_run :
    FrameAllocator → ℕ → ℕ → Found → Option (Fallible (FrameAllocator × Option AddrRange))
unfolding unlink run_range
take_run a page frames out_of_fuel = none
take_run a page frames not_found = some (returns (a, none))
take_run a page frames (found s next) = elim (run_range page s.run_start s.run_end) [
  | panics ↦ some panics
  | returns r ↦ some (returns (unlink a frames s.candidate_prev next, some r))
]

pub alloc_contiguous_aligned :
    FrameAllocator → ℕ → ℕ → ℕ → Option (Fallible (FrameAllocator × Option AddrRange))
alloc_contiguous_aligned a frames page align =
    if frames == 0
    then some (returns (a, none))
    else if ltb align page || not (is_power_of_two align)
    then some (returns (a, none))
    else take_run a page frames
        (scan (suc a.free_frames) page align frames a.links empty_scan a.head)

pub alloc_contiguous :
    FrameAllocator → ℕ → ℕ → Option (Fallible (FrameAllocator × Option AddrRange))
alloc_contiguous a frames page = alloc_contiguous_aligned a frames page page
