-- ===== src/Memory/Types.antt =====
-- kernel/src/memory/types.rs: address ranges and alignment.
pub mod Align
use genrt.Prelude.{
  ℕ, ◌+◌, ◌-◌, ◌*◌, ◌/◌, Bool, ◌&&◌, Option, none, some, min, max, ltb, leb, ◌==◌, if◌then◌else◌,
  checked_add, checked_sub,
}

abbrev pub page_size : ℕ
page_size = 4096

pub data RegionKind : Type 0 where
  usable reserved mmio : RegionKind

-- `AddrRange<usize>`, half open.
pub record AddrRange : Type 0 where
  pub start : ℕ
  pub end : ℕ

pub record AddrRegion : Type 0 where
  pub range : AddrRange
  pub kind : RegionKind

abbrev pub range : ℕ → ℕ → AddrRange
range a b = record { start = a; end = b }

unfoldable pub from_start_size : ℕ → ℕ → Option AddrRange
unfolding checked_add
from_start_size start size = elim (checked_add start size) [
  | none ↦ none
  | some end ↦ if leb end start then none else some (range start end)
]

unfoldable pub overlaps : AddrRange → AddrRange → Bool
overlaps a b = ltb a.start b.end && ltb b.start a.end

unfoldable pub clipped_to : AddrRange → AddrRange → Option AddrRange
clipped_to a outer =
    let start : ℕ = max a.start outer.start in
    let end : ℕ = min a.end outer.end in if leb end start then none else some (range start end)

-- Only asked of ranges with `start ≤ end`.
unfoldable pub frame_count : AddrRange → ℕ
frame_count a = (a.end - a.start) / page_size

unfoldable pub align_up : ℕ → ℕ → Option ℕ
unfolding checked_add checked_sub
align_up value align = if align == 0 then some value else elim (checked_sub align 1) [
  | none ↦ none
  | some low ↦ elim (checked_add value low) [ none ↦ none | some sum ↦ some (sum / align * align) ]
]

unfoldable pub align_down : ℕ → ℕ → ℕ
align_down value align = if align == 0 then value else value / align * align
