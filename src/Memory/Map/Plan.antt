-- ===== src/Memory/Map/Plan.antt =====
-- kernel/src/memory/mod.rs: what `init` hands to the frame allocator, from the boot information on.
use genrt.Prelude.{
  ℕ, ◌+◌, ◌≡◌, inl, inr, refl, sym, ◌∙◌, subst, Bool, true, false, ◌&&◌, ◌||◌, Option, none, some,
  Option-cases, List, [], ◌∷◌, arith, length, ok, ltb, leb, ◌==◌, checked_add,
}
use genrt.Memory.Types.{AddrRange, RegionKind, usable, reserved, mmio, from_start_size}
use genrt.Prelude.Checked.{
  WhenOk, returned, failed, WhenOk-then, WhenOk-map, WhenOk-test, WhenOk-value,
}
use genrt.Memory.Map.{
  Ranges, MemoryMap, same_kind, MemoryRegion, BootRanges, BootInfo, Placed, push_range,
  phys_range_from_u64, collect_region, collect_boot_ranges, add_reserved_range, boot_ranges, plan,
  sort_ranges, merge_ranges, in_order,
}
use genrt.Memory.Map.Points.{
  within, covered, sort_ranges-covered, sort_ranges-starts_from, merge_ranges-covered,
  merge_ranges-starts_from, covered-in_order,
}
use genrt.Memory.Map.Sound.{AllUsable, build_memory_map-AllUsable}

-- The address is among `size` addresses from `start`.
abbrev pub in_region : ℕ → ℕ → ℕ → Bool
in_region a start size = leb start a && ltb a (start + size)

-- The address is in a region of the kind.
pub described : RegionKind → ℕ → List MemoryRegion → Bool
described kind a [] = false
described kind a (r ∷ rs) =
    same_kind kind r.kind && in_region a r.start r.size || described kind a rs

found_within : Option AddrRange → ℕ → Bool
found_within none a = false
found_within (some r) a = within a r

from_start_size-within :
    (start size : ℕ) (r : AddrRange)
    → from_start_size start size ≡ some r
    → (a : ℕ) → within a r ≡ in_region a start size
unfolding from_start_size checked_add
from_start_size-within start size r h a = ground arith

phys_range-within :
    (start size : ℕ)
    → WhenOk
        (λ o. (a : ℕ) → found_within o a ≡ in_region a start size)
        (phys_range_from_u64 start size)
unfolding phys_range_from_u64 found_within
phys_range-within start size =
    WhenOk-test (size == 0) (λ e. returned λ a. ground arith)
      (λ e. elim (Option-cases (from_start_size start size)) [
        | inl w ↦ rw w failed
        | inr (r, w) ↦ rw w (returned λ a. from_start_size-within start size r w a)
      ])

push_range-covered :
    (out : Ranges) (r : AddrRange)
    → WhenOk
        (λ out'. (a : ℕ) → covered a out'.slots ≡ (within a r || covered a out.slots))
        (push_range out r)
unfolding push_range covered
push_range-covered out r =
    WhenOk-test (ltb (length out.slots) out.limit) (λ e. returned λ a. refl) (λ e. failed)

-- The ranges hold the addresses of the regions of both kinds, and those that they held.
record Collected (regions : List MemoryRegion) (b b' : BootRanges) : Type 0 where
  ram : (a : ℕ) → covered a b'.ram.slots ≡ (described usable a regions || covered a b.ram.slots)
  held :
      (a : ℕ) → covered a b'.held.slots ≡ (described reserved a regions || covered a b.held.slots)

collect_region-Collected :
    (b : BootRanges) (region : MemoryRegion) (kind : RegionKind) (r : AddrRange)
    → region.kind ≡ kind
    → ((a : ℕ) → within a r ≡ in_region a region.start region.size)
    → WhenOk (Collected (region ∷ []) b) (collect_region b kind r)
unfolding collect_region described same_kind
collect_region-Collected b region usable r k h = WhenOk-then (push_range-covered b.ram r) λ out w.
    returned (record {
      ram = λ a. rw k (let l = w a in let z = h a in ground arith);
      held = λ a. rw k refl;
    })
collect_region-Collected b region reserved r k h =
    WhenOk-then (push_range-covered b.held r) λ out w. returned (record {
      ram = λ a. rw k refl;
      held = λ a. rw k (let l = w a in let z = h a in ground arith);
    })
collect_region-Collected b region mmio r k h =
    returned (record { ram = λ a. rw k refl; held = λ a. rw k refl })

collect-Collected :
    (regions : List MemoryRegion) (b : BootRanges)
    → WhenOk (Collected regions b) (collect_boot_ranges regions b)
unfolding collect_boot_ranges described found_within
collect-Collected [] b = returned (record { ram = λ a. refl; held = λ a. refl })
collect-Collected (region ∷ regions) b =
    WhenOk-then (phys_range-within region.start region.size) λ o w. elim (Option-cases o) [
      | inl e ↦
          let none_there : (a : ℕ) → in_region a region.start region.size ≡ false =
            λ a. sym (w a) ∙ rw e refl in
          rw e (
            WhenOk-map (collect-Collected regions b) λ b' c. record {
              ram = λ a. let l = c.ram a in let z = none_there a in ground arith;
              held = λ a. let l = c.held a in let z = none_there a in ground arith;
            })
      | inr (r, e) ↦
          let there : (a : ℕ) → within a r ≡ in_region a region.start region.size =
            λ a. subst (λ p. found_within p a ≡ in_region a region.start region.size) e (w a) in
          rw e (
            WhenOk-then (collect_region-Collected b region region.kind r refl there) λ b' c.
              WhenOk-map (collect-Collected regions b') λ b'' d. record {
                ram = λ a. let l = c.ram a in let z = d.ram a in ground arith;
                held = λ a. let l = c.held a in let z = d.held a in ground arith;
              })
    ]

-- The ranges gained one that is reserved.
record Added (r : AddrRange) (b b' : BootRanges) : Type 0 where
  ram : (a : ℕ) → covered a b'.ram.slots ≡ covered a b.ram.slots
  held : (a : ℕ) → covered a b'.held.slots ≡ (within a r || covered a b.held.slots)

add_reserved-Added : (b : BootRanges) (r : AddrRange) → WhenOk (Added r b) (add_reserved_range b r)
unfolding add_reserved_range
add_reserved-Added b r =
    WhenOk-then (push_range-covered b.held r)
      λ out w. returned (record { ram = λ a. refl; held = w })

-- The address is in RAM that the boot information describes, and in nothing that is reserved.
pub record IsFree (boot : BootInfo) (placed : Placed) (a : ℕ) : Type 0 where
  pub described_ram : described usable a boot.memory_map ≡ true
  pub not_reserved : described reserved a boot.memory_map ≡ false
  pub not_kernel : within a placed.kernel_image ≡ false
  pub not_stack : within a placed.boot_stack ≡ false
  pub not_dtb : in_region a boot.dtb_pa boot.dtb_size ≡ false
  pub not_initramfs : within a placed.initramfs ≡ false

abbrev Frees : BootInfo → Placed → BootRanges → Type 0
Frees boot placed b =
    (a : ℕ) → covered a b.ram.slots ≡ true → covered a b.held.slots ≡ false → IsFree boot placed a

-- The same for a range that may be missing.
record AddedIf (r : Option AddrRange) (b b' : BootRanges) : Type 0 where
  ram : (a : ℕ) → covered a b'.ram.slots ≡ covered a b.ram.slots
  held : (a : ℕ) → covered a b'.held.slots ≡ (found_within r a || covered a b.held.slots)

add_reserved-AddedIf :
    (b : BootRanges) (r : Option AddrRange)
    → WhenOk (AddedIf r b) (elim r [ none ↦ ok b | some s ↦ add_reserved_range b s ])
unfolding found_within
add_reserved-AddedIf b none = returned (record { ram = λ a. refl; held = λ a. refl })
add_reserved-AddedIf b (some s) =
    WhenOk-map (add_reserved-Added b s) λ b' w. record { ram = w.ram; held = w.held }

or_false : (x y : Bool) → (x || y) ≡ false → (x ≡ false) × (y ≡ false)
or_false false y h = (refl, h)
or_false true y h = ground arith

boot_ranges-Frees :
    (boot : BootInfo) (placed : Placed) → WhenOk (Frees boot placed) (boot_ranges boot placed)
unfolding boot_ranges found_within covered
boot_ranges-Frees boot placed =
    WhenOk-then
      (collect-Collected boot.memory_map (record {
        ram = record { slots = []; limit = 16 };
        held = record { slots = []; limit = 32 };
      }))
      λ b c. WhenOk-then (add_reserved-Added b placed.kernel_image) λ b₁ k.
        WhenOk-then (add_reserved-Added b₁ placed.boot_stack) λ b₂ s.
          WhenOk-then (phys_range-within boot.dtb_pa boot.dtb_size) λ dtb d.
            WhenOk-then (add_reserved-AddedIf b₂ dtb) λ b₃ t.
              WhenOk-map (add_reserved-Added b₃ placed.initramfs) λ b₄ i a p q.
                let c0 = c.ram a in
                let c1 = c.held a in
                let k0 = k.ram a in
                let k1 = k.held a in
                let s0 = s.ram a in
                let s1 = s.held a in
                let t0 = t.ram a in
                let t1 = t.held a in
                let i0 = i.ram a in
                let i1 = i.held a in
                let d0 = d a in
                let nothing : covered a [] ≡ false = refl in
                let in_ram : covered a b.ram.slots ≡ true = sym k0 ∙ sym s0 ∙ sym t0 ∙ sym i0 ∙ p in
                let (initramfs, free₃) = or_false _ _ (sym i1 ∙ q) in
                let (dtb_free, free₂) = or_false _ _ (sym t1 ∙ free₃) in
                let (stack, free₁) = or_false _ _ (sym s1 ∙ free₂) in
                let (kernel, free₀) = or_false _ _ (sym k1 ∙ free₁) in
                record {
                  described_ram = ground arith;
                  not_reserved = (or_false _ _ (sym c1 ∙ free₀)).0;
                  not_kernel = kernel;
                  not_stack = stack;
                  not_dtb = sym d0 ∙ dtb_free;
                  not_initramfs = initramfs;
                }

plan-WhenOk :
    (boot : BootInfo) (placed : Placed) → WhenOk (AllUsable (IsFree boot placed)) (plan boot placed)
unfolding plan
plan-WhenOk boot placed = WhenOk-then (boot_ranges-Frees boot placed) λ b free.
    let raw = in_order b.held.slots [] in
    let sorted = sort_ranges-starts_from raw in
    let rams = in_order b.ram.slots [] in
    WhenOk-map
      (build_memory_map-AllUsable (sort_ranges rams) (merge_ranges (sort_ranges raw))
        (record {
          phys_regions = record { slots = []; limit = 64 };
          usable_ranges = record { slots = []; limit = 32 };
        })
        (merge_ranges-starts_from (sort_ranges raw) sorted) refl)
      λ m all i f at.
        let u = all i f at in
        record {
          first_page = u.first_page;
          last_page = u.last_page;
          inside = λ a w.
              let (p, q) = u.inside a w in
              free a (sym (sort_ranges-covered a rams ∙ covered-in_order a b.ram.slots) ∙ p) (
                sym (
                  merge_ranges-covered a (sort_ranges raw) sorted
                  ∙ sort_ranges-covered a raw
                  ∙ covered-in_order a b.held.slots)
                ∙ q);
        }

-- Where `init` succeeds in it, the frames that it hands to the allocator are whole pages, and each
-- of their addresses is in RAM that the boot information describes as usable, and in no reserved
-- region, nor in the kernel image, the boot stack, the device tree or the initramfs. The regions
-- may overlap and stand in any order.
pub plan-AllUsable :
    (boot : BootInfo) (placed : Placed) (m : MemoryMap)
    → plan boot placed ≡ ok m
    → AllUsable (IsFree boot placed) m
plan-AllUsable boot placed m h = WhenOk-value (plan-WhenOk boot placed) h
