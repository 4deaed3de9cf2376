-- ===== src/Loader/Elf.antt =====
-- kernel/src/loader/elf.rs and elf_arch.rs: the load of a user program. The parsed file comes from
-- a third-party crate. The frame allocator and the mapper are parameters.
use Prim.Native.Nat.{bit_and}
use genrt.Prelude.{
  ℕ, zero, suc, ◌+◌, ◌-◌, ◌*◌, ◌/◌, ◌%◌, ◌≡◌, max, min, Bool, true, false, not, ◌&&◌, ◌||◌, Option,
  none, some, List, [], ◌∷◌, ◌++◌, Result, ok, err, ok_or, ◌>>=◌, ◌>>◌, length, get_or, ltb, leb,
  ◌==◌, if◌then◌else◌, usize_max, checked_add, checked_sub,
}
use genrt.Memory.Types.{AddrRange, range, page_size, align_up, align_down}
use genrt.Memory.User.{user_text_base, user_stack_top}
pub mod Plan

pub data ElfLoadError : Type 0 where
  parse unsupported_class unsupported_endian unsupported_machine unsupported_type : ElfLoadError
  unsupported_program_header dynamic_linking_unsupported invalid_program_header : ElfLoadError
  segment_out_of_bounds segment_address_overflow segment_not_page_aligned : ElfLoadError
  invalid_user_range frame_allocation_failed mapping_failed : ElfLoadError

pub record ProgramHeader : Type 0 where
  pub p_type : ℕ
  pub p_flags : ℕ
  pub p_offset : ℕ
  pub p_vaddr : ℕ
  pub p_filesz : ℕ
  pub p_memsz : ℕ
  pub p_align : ℕ

-- What the parser found: the header's fields that are read, the types of the sections and the
-- program headers, where the tables are there.
pub record ElfFile : Type 0 where
  pub class_elf64 : Bool
  pub little_endian : Bool
  pub e_type : ℕ
  pub e_machine : ℕ
  pub e_entry : ℕ
  pub section_types : Option (List ℕ)
  pub segments : Option (List ProgramHeader)

abbrev pub Check : Type 0
Check = Result Bool ElfLoadError

unfoldable pub u64_to_usize : ℕ → Result ℕ ElfLoadError
u64_to_usize value = if leb value usize_max then ok value else err segment_address_overflow

-- `EM_AARCH64`.
unfoldable pub validate_machine : ℕ → Check
validate_machine machine = if machine == 183 then ok true else err unsupported_machine

-- `ET_EXEC`.
unfoldable pub validate_header : ElfFile → Check
unfolding validate_machine
validate_header file =
    if not file.class_elf64
    then err unsupported_class
    else if not file.little_endian
    then err unsupported_endian
    else if not (file.e_type == 2)
    then err unsupported_type
    else validate_machine file.e_machine

-- `SHT_RELA` and `SHT_REL`.
unfoldable pub any_relocation : List ℕ → Bool
any_relocation [] = false
any_relocation (t ∷ ts) = t == 9 || t == 4 || any_relocation ts

unfoldable pub reject_relocations : ElfFile → Check
unfolding any_relocation
reject_relocations file = elim file.section_types [
  | none ↦ ok true
  | some sections ↦ if any_relocation sections then err unsupported_program_header else ok true
]

abbrev pub readable : ℕ → Bool
readable flags = not (bit_and flags 4 == 0)

abbrev pub writable : ℕ → Bool
writable flags = not (bit_and flags 2 == 0)

abbrev pub executable : ℕ → Bool
executable flags = not (bit_and flags 1 == 0)

unfoldable pub validate_program_flags : ℕ → Check
validate_program_flags flags =
    if not (readable flags) || (writable flags && executable flags)
    then err unsupported_program_header
    else ok true

unfoldable pub validate_load_alignment : ℕ → ℕ → ℕ → Check
validate_load_alignment vaddr offset align =
    if leb align 1
    then ok true
    else if vaddr % align == offset % align
    then ok true
    else err segment_not_page_aligned

unfoldable pub validate_user_range : ℕ → ℕ → Check
validate_user_range start size = ok_or (checked_add start size) segment_address_overflow >>= λ end.
    if ltb start user_text_base || leb end start || ltb user_stack_top end
    then err invalid_user_range
    else ok true

-- Where a segment goes, once its header is accepted.
pub record Placement : Type 0 where
  pub offset : ℕ
  pub file_end : ℕ
  pub vaddr : ℕ
  pub map_start : ℕ
  pub map_size : ℕ

-- The part of `load_segment` that follows the check of the header's flags and alignment.
unfoldable pub place : ℕ → ℕ → ℕ → ℕ → ℕ → Result Placement ElfLoadError
unfolding validate_user_range
place image_len offset vaddr filesz memsz = do
  file_end ← ok_or (checked_add offset filesz) segment_out_of_bounds
  if ltb image_len file_end then err segment_out_of_bounds else ok true
  seg_end ← ok_or (checked_add vaddr memsz) segment_address_overflow
  validate_user_range vaddr memsz
  let map_start = align_down vaddr page_size
  map_end ← ok_or (align_up seg_end page_size) segment_address_overflow
  validate_user_range map_start (map_end - map_start)
  map_size ← ok_or (checked_sub map_end map_start) segment_address_overflow
  ok (record {
    offset = offset;
    file_end = file_end;
    vaddr = vaddr;
    map_start = map_start;
    map_size = map_size;
  })

-- `load_segment`, up to the allocation of its frames: `none` where there is nothing to load.
unfoldable pub check_segment : ℕ → ProgramHeader → Result (Option Placement) ElfLoadError
unfolding u64_to_usize validate_program_flags validate_load_alignment place
check_segment image_len ph = do
  offset ← u64_to_usize ph.p_offset
  vaddr ← u64_to_usize ph.p_vaddr
  filesz ← u64_to_usize ph.p_filesz
  memsz ← u64_to_usize ph.p_memsz
  align ← u64_to_usize ph.p_align
  if memsz == 0
      then ok none
      else if ltb memsz filesz
      then err invalid_program_header
      else (validate_program_flags ph.p_flags >>= λ _.
          validate_load_alignment vaddr offset align >>= λ _.
          place image_len offset vaddr filesz memsz >>= λ placed. ok (some placed))

-- The checks of the header, and the entry point.
unfoldable pub check_file : ElfFile → Result ℕ ElfLoadError
unfolding validate_header reject_relocations u64_to_usize validate_user_range
check_file file = do
  validate_header file
  reject_relocations file
  entry ← u64_to_usize file.e_entry
  validate_user_range entry 1
  ok entry
