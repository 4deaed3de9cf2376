-- ===== src/Memory/Map.antt =====
-- kernel/src/memory/map.rs, and the start of `init` of kernel/src/memory/mod.rs: which frames of
-- the RAM are usable. `u64` is as wide as `usize`.
use genrt.Prelude.{
  ℕ, zero, suc, ◌+◌, ◌-◌, ◌*◌, ◌%◌, ◌≡◌, max, min, Bool, true, false, ◌&&◌, ◌||◌, Option, none,
  some, List, [], ◌∷◌, Result, ok, err, ok_or, ◌>>=◌, length, ltb, leb, ◌==◌, if◌then◌else◌,
}
use genrt.Memory.Types.{
  AddrRange, AddrRegion, RegionKind, usable, reserved, mmio, range, page_size, from_start_size,
  overlaps, clipped_to, align_up, align_down,
}
mod Examples
pub mod Points
pub mod Sound
pub mod Plan

-- The errors of the heap are passed on without their payload.
pub data MemoryError : Type 0 where
  no_usable_ram no_bootstrap_heap_range too_many_ranges address_out_of_range : MemoryError
  heap_init heap_smoke_test : MemoryError

-- A region that the boot information describes.
pub record MemoryRegion : Type 0 where
  pub start : ℕ
  pub size : ℕ
  pub kind : RegionKind

-- A slice `out` of `limit` slots and its `count`: the slots in use, the last first.
pub record Filled {ℓ} (A : Type ℓ) : Type ℓ where
  pub slots : List A
  pub limit : ℕ

abbrev pub empty {ℓ} : {A : Type ℓ} → ℕ → Filled A
empty limit = record { slots = []; limit = limit }

-- `out[*count] = value; *count += 1`.
abbrev pub append_slot {ℓ} : {A : Type ℓ} → Filled A → A → Result (Filled A) MemoryError
append_slot out value =
    if ltb (length out.slots) out.limit
    then ok (record { slots = value ∷ out.slots; limit = out.limit })
    else err too_many_ranges

abbrev pub Ranges : Type 0
Ranges = Filled AddrRange

pub push_range : Ranges → AddrRange → Result Ranges MemoryError
push_range out r = append_slot out r

pub phys_range_from_u64 : ℕ → ℕ → Result (Option AddrRange) MemoryError
phys_range_from_u64 start size = if size == 0 then ok none else elim (from_start_size start size) [
  | none ↦ err address_out_of_range
  | some r ↦ ok (some r)
]

-- The RAM and the reserved ranges, as `collect_boot_ranges` fills them.
pub record BootRanges : Type 0 where
  pub ram : Ranges
  pub held : Ranges

pub collect_region : BootRanges → RegionKind → AddrRange → Result BootRanges MemoryError
unfolding push_range
collect_region b usable r = do ram ← push_range b.ram r; ok (record b { ram = ram })
collect_region b reserved r = do held ← push_range b.held r; ok (record b { held = held })
collect_region b mmio r = ok b

pub collect_boot_ranges : List MemoryRegion → BootRanges → Result BootRanges MemoryError
unfolding phys_range_from_u64 collect_region
collect_boot_ranges [] b = ok b
collect_boot_ranges (region ∷ regions) b = phys_range_from_u64 region.start region.size >>= λ found.
    elim found [
      | none ↦ collect_boot_ranges regions b
      | some r ↦ collect_region b region.kind r >>= λ b'. collect_boot_ranges regions b'
    ]

pub add_reserved_range : BootRanges → AddrRange → Result BootRanges MemoryError
unfolding push_range
add_reserved_range b r = do held ← push_range b.held r; ok (record b { held = held })

-- `==` on `RegionKind`.
pub same_kind : RegionKind → RegionKind → Bool
same_kind usable usable = true
same_kind reserved reserved = true
same_kind mmio mmio = true
same_kind _ _ = false

pub push_phys_region : Filled AddrRegion → AddrRegion → Result (Filled AddrRegion) MemoryError
unfolding same_kind
push_phys_region out region = elim out.slots [
  | [] ↦ if leb region.range.end region.range.start then ok out else append_slot out region
  | prev ∷ before ↦
      if leb region.range.end region.range.start
      then ok out
      else if same_kind prev.kind region.kind && leb region.range.start prev.range.end
      then ok (record out {
        slots =
            record prev { range = range prev.range.start (max prev.range.end region.range.end) }
            ∷ before;
      })
      else append_slot out region
]

-- The pages of a range put after those in the slots, or joined to the last.
pub place_pages : List AddrRange → ℕ → AddrRange → Result Ranges MemoryError
place_pages slots limit pages =
    let out : Ranges = record { slots = slots; limit = limit } in
    let joined : Result Ranges MemoryError = elim slots [
      | [] ↦ append_slot out pages
      | prev ∷ before ↦
          if leb pages.start prev.end
          then ok (record out { slots = range prev.start (max prev.end pages.end) ∷ before })
          else append_slot out pages
    ] in
    if leb pages.end pages.start then ok out else joined

pub push_usable_frame_range : Ranges → AddrRange → Result Ranges MemoryError
unfolding place_pages
push_usable_frame_range out r = ok_or (align_up r.start page_size) address_out_of_range >>= λ start.
    place_pages out.slots out.limit (range start (align_down r.end page_size))

-- The two tables that `build_memory_map` fills.
pub record MemoryMap : Type 0 where
  pub phys_regions : Filled AddrRegion
  pub usable_ranges : Ranges

pub push_usable : MemoryMap → AddrRange → Result MemoryMap MemoryError
unfolding push_phys_region push_usable_frame_range
push_usable m r = do
  regions ← push_phys_region m.phys_regions (record { range = r; kind = usable })
  frames ← push_usable_frame_range m.usable_ranges r
  ok (record { phys_regions = regions; usable_ranges = frames })

pub push_reserved : MemoryMap → AddrRange → Result MemoryMap MemoryError
unfolding push_phys_region
push_reserved m r = do
  regions ← push_phys_region m.phys_regions (record { range = r; kind = reserved })
  ok (record m { phys_regions = regions })

-- What lies between the cursor and `end`.
pub push_gap : MemoryMap → ℕ → ℕ → Result MemoryMap MemoryError
unfolding push_usable
push_gap m cursor end = if ltb cursor end then push_usable m (range cursor end) else ok m

-- The loop over the reserved ranges for one range of RAM: the cursor and the tables after it.
pub carve : AddrRange → List AddrRange → ℕ → MemoryMap → Result (ℕ × MemoryMap) MemoryError
unfolding push_gap push_reserved
carve ram [] cursor m = ok (cursor, m)
carve ram (r ∷ rest) cursor m =
    let next : ℕ → MemoryMap → Result (ℕ × MemoryMap) MemoryError = carve ram rest in
    let clip : Result (ℕ × MemoryMap) MemoryError = elim (clipped_to r ram) [
      | none ↦ next cursor m
      | some clipped ↦ do
        m' ← push_gap m cursor clipped.start
        m'' ← push_reserved m' clipped
        next (max cursor clipped.end) m''
    ] in
    if leb r.end ram.start
    then next cursor m
    else if leb ram.end r.start
    then ok (cursor, m)
    else clip

pub build_from : List AddrRange → List AddrRange → MemoryMap → Result MemoryMap MemoryError
unfolding carve push_gap
build_from [] held m = ok m
build_from (ram ∷ rams) held m = do
  r ← carve ram held ram.start m
  m' ← push_gap r.1 r.0 ram.end
  build_from rams held m'

pub build_memory_map : List AddrRange → List AddrRange → MemoryMap → Result MemoryMap MemoryError
unfolding build_from
build_memory_map rams held m = build_from rams held m >>= λ m'.
    if length m'.usable_ranges.slots == 0 then err no_usable_ram else ok m'

-- The inner loop of `sort_ranges`: the range moves down past those that start later. The ranges
-- before it are given from the last to the first.
pub move_down : AddrRange → List AddrRange → List AddrRange
move_down r [] = r ∷ []
move_down r (p ∷ ps) =
    let rest = move_down r ps in if ltb r.start p.start then p ∷ rest else r ∷ p ∷ ps

pub sort_onto : List AddrRange → List AddrRange → List AddrRange
unfolding move_down
sort_onto sorted [] = sorted
sort_onto sorted (r ∷ rest) = sort_onto (move_down r sorted) rest

-- From the last to the first: put in order.
pub in_order : List AddrRange → List AddrRange → List AddrRange
in_order [] after = after
in_order (r ∷ before) after = in_order before (r ∷ after)

pub sort_ranges : List AddrRange → List AddrRange
unfolding sort_onto in_order
sort_ranges ranges = in_order (sort_onto [] ranges) []

pub merge_from : AddrRange → List AddrRange → List AddrRange
merge_from last [] = last ∷ []
merge_from last (current ∷ rest) =
    let extended = merge_from (record last { end = max last.end current.end }) rest in
    let apart = merge_from current rest in
    if overlaps last current || last.end == current.start then extended else last ∷ apart

pub merge_ranges : List AddrRange → List AddrRange
unfolding merge_from
merge_ranges [] = []
merge_ranges (r ∷ rest) = merge_from r rest

pub record BootInfo : Type 0 where
  pub memory_map : List MemoryRegion
  pub dtb_pa : ℕ
  pub dtb_size : ℕ

-- What the linker and the platform place: the kernel image, the boot stack and the initramfs.
pub record Placed : Type 0 where
  pub kernel_image : AddrRange
  pub boot_stack : AddrRange
  pub initramfs : AddrRange

pub boot_ranges : BootInfo → Placed → Result BootRanges MemoryError
unfolding collect_boot_ranges add_reserved_range phys_range_from_u64
boot_ranges boot placed = do
  b ← collect_boot_ranges boot.memory_map (record { ram = empty 16; held = empty 32 })
  b₁ ← add_reserved_range b placed.kernel_image
  b₂ ← add_reserved_range b₁ placed.boot_stack
  dtb ← phys_range_from_u64 boot.dtb_pa boot.dtb_size
  b₃ ← elim dtb [ none ↦ ok b₂ | some r ↦ add_reserved_range b₂ r ]
  add_reserved_range b₃ placed.initramfs

-- `init`, up to the tables that the frame allocator starts from.
pub plan : BootInfo → Placed → Result MemoryMap MemoryError
unfolding boot_ranges sort_ranges merge_ranges build_memory_map in_order
plan boot placed = do
  b ← boot_ranges boot placed
  let rams = sort_ranges (in_order b.ram.slots [])
  let held = merge_ranges (sort_ranges (in_order b.held.slots []))
  build_memory_map rams held (record { phys_regions = empty 64; usable_ranges = empty 32 })
