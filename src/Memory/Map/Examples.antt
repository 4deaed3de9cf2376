-- ===== src/Memory/Map/Examples.antt =====
-- kernel/src/memory/mod.rs: the usable frames of a small machine.
use genrt.Prelude.{◌≡◌, refl, [], ◌∷◌, ok, checked_add}
use genrt.Memory.Types.{
  usable, reserved, range, align_up, align_down, clipped_to, overlaps, from_start_size,
}
use genrt.Memory.Map.{BootInfo, Placed, MemoryMap, plan}
use genrt.Memory.Map.Sound.{AllUsable}
use genrt.Memory.Map.Plan.{IsFree, plan-AllUsable}

-- Two overlapping ranges of RAM, the later one first, and a reserved region inside.
abbrev boot : BootInfo
boot = record {
  memory_map =
      record { start = 0x8000; size = 0x9010; kind = usable }
      ∷ record { start = 0x0; size = 0x9000; kind = usable }
      ∷ record { start = 0x4000; size = 0x1000; kind = reserved }
      ∷ [];
  dtb_pa = 0x8000;
  dtb_size = 0x100;
}

abbrev placed : Placed
placed = record {
  kernel_image = range 0x0 0x1800;
  boot_stack = range 0x1800 0x2000;
  initramfs = range 0xa000 0xb000;
}

abbrev planned : MemoryMap
planned = record {
  phys_regions = record {
    slots =
        record { range = range 45056 69648; kind = usable }
        ∷ record { range = range 40960 45056; kind = reserved }
        ∷ record { range = range 33024 40960; kind = usable }
        ∷ record { range = range 32768 33024; kind = reserved }
        ∷ record { range = range 33024 36864; kind = usable }
        ∷ record { range = range 32768 33024; kind = reserved }
        ∷ record { range = range 20480 32768; kind = usable }
        ∷ record { range = range 16384 20480; kind = reserved }
        ∷ record { range = range 8192 16384; kind = usable }
        ∷ record { range = range 0 8192; kind = reserved }
        ∷ [];
    limit = 64;
  };
  usable_ranges = record {
    slots = range 45056 69632 ∷ range 36864 40960 ∷ range 20480 32768 ∷ range 8192 16384 ∷ [];
    limit = 32;
  };
}

boot_is_planned : plan boot placed ≡ ok planned
unfolding plan checked_add align_up align_down clipped_to overlaps from_start_size
boot_is_planned = refl

plan-AllUsable_example : AllUsable (IsFree boot placed) planned
plan-AllUsable_example = plan-AllUsable boot placed planned boot_is_planned
