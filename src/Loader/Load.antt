-- ===== src/Loader/Load.antt =====
-- kernel/src/loader/elf.rs: the load of a checked program into frames and pages. The frame allocator
-- and the mapper are parameters.
use genrt.Prelude.{
  ℕ, zero, suc, ◌+◌, ◌-◌, ◌*◌, ◌/◌, ◌%◌, ◌≡◌, max, min, Bool, true, false, not, ◌&&◌, ◌||◌, Option,
  none, some, List, [], ◌∷◌, ◌++◌, Result, ok, err, length, get_or, ltb, leb, ◌==◌, if◌then◌else◌,
}
use genrt.Memory.Types.{AddrRange, range, page_size}
use genrt.Loader.Elf.{
  ElfLoadError, parse, dynamic_linking_unsupported, invalid_program_header, frame_allocation_failed,
  mapping_failed, ProgramHeader, ElfFile, Placement, writable, executable, check_segment,
  check_file,
}
mod Examples
pub mod Leak

pub data VmError : Type 0 where
  not_initialized invalid_range not_aligned not_kernel_va already_mapped missing_mapping : VmError
  out_of_frames active_address_space wrong_cpu unsupported : VmError

pub record UserElfSegment : Type 0 where
  pub va : ℕ
  pub size : ℕ
  pub frames : AddrRange
  pub flags : ℕ

pub record UserElfImage : Type 0 where
  pub entry : ℕ
  pub segments : List UserElfSegment

-- The bits `WRITE` and `EXECUTE` of the mapping.
unfoldable pub map_flags_from_program_flags : ℕ → ℕ
map_flags_from_program_flags flags =
    (if writable flags then 2 else 0) + (if executable flags then 4 else 0)

unfoldable pub map_vm_error : VmError → ElfLoadError
map_vm_error out_of_frames = frame_allocation_failed
map_vm_error _ = mapping_failed

-- The frames that are allocated and not freed, the pages mapped by this load, and the bytes of
-- physical memory.
pub record World : Type 0 where
  pub live : List AddrRange
  pub mapped : List UserElfSegment
  pub bytes : ℕ → ℕ

-- The frame allocator and the mapper: what they answer in a world.
pub record Kernel : Type 0 where
  pub alloc_contiguous_frames : World → ℕ → Option AddrRange
  pub map_user_page_range : World → UserElfSegment → Option VmError

abbrev pub same_range : AddrRange → AddrRange → Bool
same_range a b = a.start == b.start && a.end == b.end

-- What the frame allocator has given out, without a range that is given back.
unfoldable pub drop_range : AddrRange → List AddrRange → List AddrRange
drop_range r [] = []
drop_range r (x ∷ xs) = let rest = drop_range r xs in if same_range x r then xs else x ∷ rest

unfoldable pub free_contiguous_frames : World → AddrRange → World
unfolding drop_range
free_contiguous_frames w r = record w { live = drop_range r w.live }

unfoldable pub zero_phys_range : World → AddrRange → World
zero_phys_range w r = record w {
  bytes = λ a. if leb r.start a && ltb a r.end then 0 else w.bytes a;
}

-- The bytes of the image from `offset` to `file_end`, written at `dst`.
unfoldable pub copy_bytes_to_phys : World → List ℕ → ℕ → ℕ → ℕ → World
copy_bytes_to_phys w image dst offset file_end = record w {
  bytes = λ a.
      if leb dst a && ltb a (dst + (file_end - offset))
      then get_or image (offset + (a - dst)) 0
      else w.bytes a;
}

abbrev pub is_none : Option ElfLoadError → Bool
is_none none = true
is_none (some e) = false

-- The world, the segments that were loaded, and the error that stopped the load.
pub record Load : Type 0 where
  pub world : World
  pub segments : List UserElfSegment
  pub error : Option ElfLoadError

abbrev pub filled_frames : World → List ℕ → Placement → AddrRange → World
filled_frames w image p frames =
    copy_bytes_to_phys (zero_phys_range w frames) image (frames.start + (p.vaddr - p.map_start))
      p.offset p.file_end

-- `load_segment` from the allocation of its frames on.
unfoldable pub map_segment : Kernel → List ℕ → Load → Placement → ℕ → Load
unfolding free_contiguous_frames zero_phys_range copy_bytes_to_phys map_vm_error
map_segment k image l p flags = elim (k.alloc_contiguous_frames l.world (p.map_size / page_size)) [
  | none ↦ record l { error = some frame_allocation_failed }
  | some frames ↦
      let taken : World = record l.world { live = frames ∷ l.world.live } in
      let w : World = filled_frames taken image p frames in
      let segment : UserElfSegment = record {
        va = p.map_start;
        size = p.map_size;
        frames = frames;
        flags = flags;
      } in
      elim (k.map_user_page_range w segment) [
        | some e ↦ record l {
          world = free_contiguous_frames w frames;
          error = some (map_vm_error e);
        }
        | none ↦ record l {
          world = record w { mapped = segment ∷ w.mapped };
          segments = l.segments ++ segment ∷ [];
        }
      ]
]

unfoldable pub load_segment : Kernel → List ℕ → Load → ProgramHeader → Load
unfolding check_segment map_segment map_flags_from_program_flags
load_segment k image l ph = elim (check_segment (length image) ph) [
  | err e ↦ record l { error = some e }
  | ok none ↦ l
  | ok (some p) ↦ map_segment k image l p (map_flags_from_program_flags ph.p_flags)
]

-- `PT_LOAD`, and `PT_DYNAMIC`, `PT_INTERP` and `PT_TLS`.
unfoldable pub load_header : Kernel → List ℕ → Load → ProgramHeader → Load
unfolding load_segment
load_header k image l ph =
    if ph.p_type == 1
    then load_segment k image l ph
    else if ph.p_type == 2 || ph.p_type == 3 || ph.p_type == 7
    then record l { error = some dynamic_linking_unsupported }
    else l

-- The loop ends at the first error.
unfoldable pub load_headers : Kernel → List ℕ → List ProgramHeader → Load → Load
unfolding load_header
load_headers k image [] l = l
load_headers k image (ph ∷ phs) l =
    let l' = load_header k image l ph in
    let rest = load_headers k image phs l' in elim l'.error [ some e ↦ l' | none ↦ rest ]

unfoldable pub load_segments : (ℕ → Bool) → Kernel → List ℕ → ElfFile → World → Load
unfolding load_headers
load_segments can_reserve k image file w =
    let start : Option ElfLoadError → Load = λ e. record { world = w; segments = []; error = e } in
    elim file.segments [
      | none ↦ start (some invalid_program_header)
      | some phs ↦
          if length phs == 0
          then start (some invalid_program_header)
          else if not (can_reserve (length phs))
          then start (some frame_allocation_failed)
          else (let l = load_headers k image phs (start none) in
              if length l.segments == 0 && is_none l.error
              then record l { error = some invalid_program_header }
              else l)
    ]

unfoldable pub free_loaded_segments : World → List UserElfSegment → World
unfolding free_contiguous_frames
free_loaded_segments w [] = w
free_loaded_segments w (s ∷ ss) =
    free_loaded_segments (if s.frames.start == 0 then w else free_contiguous_frames w s.frames) ss

unfoldable pub load_user_elf :
    (List ℕ → Option ElfFile)
    → (ℕ → Bool)
    → Kernel
    → List ℕ
    → World
    → World × Result UserElfImage ElfLoadError
unfolding check_file load_segments free_loaded_segments
load_user_elf minimal_parse can_reserve k image w = elim (minimal_parse image) [
  | none ↦ (w, err parse)
  | some file ↦ elim (check_file file) [
    | err e ↦ (w, err e)
    | ok entry ↦
        let l = load_segments can_reserve k image file w in
        elim l.error [
          | some e ↦ (free_loaded_segments l.world l.segments, err e)
          | none ↦ (l.world, ok (record { entry = entry; segments = l.segments }))
        ]
  ]
]
