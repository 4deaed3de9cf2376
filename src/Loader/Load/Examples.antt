-- ===== src/Loader/Load/Examples.antt =====
-- kernel/src/loader/elf.rs: a program of two segments, for the second of which there are no frames.
use genrt.Prelude.{
  ℕ, ◌+◌, ◌*◌, ◌<◌, ◌≡◌, refl, true, Option, none, some, List, [], ◌∷◌, arith, ok, checked_add,
  checked_sub,
}
use genrt.Memory.Types.{AddrRange, range, align_up, align_down}
use genrt.Memory.User.{user_text_base}
use genrt.Loader.Elf.{ProgramHeader, ElfFile, Placement, check_segment}
use genrt.Loader.Elf.Plan.{IsAccepted, check_segment-IsAccepted}
use genrt.Loader.Load.{World, Kernel, load_user_elf}
use genrt.Loader.Load.Leak.{NeverZero, Loaded, load_user_elf-Loaded}

abbrev text : ProgramHeader
text = record {
  p_type = 1;
  p_flags = 5;
  p_offset = 1;
  p_vaddr = user_text_base + 1;
  p_filesz = 2;
  p_memsz = 5000;
  p_align = 4096;
}

abbrev stack_data : ProgramHeader
stack_data = record {
  p_type = 1;
  p_flags = 6;
  p_offset = 0;
  p_vaddr = user_text_base + 0x4000;
  p_filesz = 0;
  p_memsz = 16;
  p_align = 4096;
}

abbrev file : ElfFile
file = record {
  class_elf64 = true;
  little_endian = true;
  e_type = 2;
  e_machine = 183;
  e_entry = user_text_base + 1;
  section_types = none;
  segments = some (text ∷ stack_data ∷ []);
}

-- Frames are granted once.
grant_once : List AddrRange → ℕ → Option AddrRange
grant_once [] n = some (range 0x10_0000 (0x10_0000 + n * 4096))
grant_once (r ∷ rs) n = none

abbrev kernel : Kernel
kernel = record {
  alloc_contiguous_frames = λ w n. grant_once w.live n;
  map_user_page_range = λ w s. none;
}

grant_once-positive :
    (live : List AddrRange) (n : ℕ) (f : AddrRange) → grant_once live n ≡ some f → 0 < f.start
unfolding grant_once
grant_once-positive [] n f h = ground arith
grant_once-positive (r ∷ rs) n f h = ground arith

kernel-NeverZero : NeverZero kernel
kernel-NeverZero w n f h = grant_once-positive w.live n f h

abbrev nothing_yet : World
nothing_yet = record { live = []; mapped = []; bytes = λ a. 0 }

abbrev image : List ℕ
image = 7 ∷ 8 ∷ 9 ∷ []

load_user_elf-Loaded_example :
    Loaded nothing_yet (load_user_elf (λ bytes. some file) (λ n. true) kernel image nothing_yet)
load_user_elf-Loaded_example =
    load_user_elf-Loaded (λ bytes. some file) (λ n. true) kernel image nothing_yet kernel-NeverZero

abbrev text_place : Placement
text_place = record {
  offset = 1;
  file_end = 3;
  vaddr = user_text_base + 1;
  map_start = user_text_base;
  map_size = 8192;
}

text_is_accepted : check_segment 3 text ≡ ok (some text_place)
unfolding check_segment checked_add checked_sub align_up align_down
text_is_accepted = refl

check_segment-IsAccepted_example : IsAccepted 3 text text_place
check_segment-IsAccepted_example = check_segment-IsAccepted 3 text text_place text_is_accepted
