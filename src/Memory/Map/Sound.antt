-- ===== src/Memory/Map/Sound.antt =====
-- kernel/src/memory/map.rs: the usable frames lie in the RAM and outside the reserved ranges.
use genrt.Prelude.{
  ℕ, zero, suc, ◌%◌, ◌≤◌, ◌<◌, ◌≡◌, min, max, inl, inr, refl, ◌∙◌, subst, true, false, Bool-cases,
  none, some, Option-cases, List, [], ◌∷◌, arith, length, get_elem?, ltb, leb, ◌==◌,
}
use genrt.Memory.Types.{
  AddrRange, usable, reserved, range, page_size, clipped_to, align_up, align_down,
}
use genrt.Prelude.Checked.{
  WhenOk, returned, failed, WhenOk-any, WhenOk-then, WhenOk-test, WhenOk-ok_or,
}
use genrt.Memory.Types.Align.{align_up-least, align_down-greatest}
use genrt.Memory.Map.{
  Ranges, MemoryMap, append_slot, place_pages, push_phys_region, push_usable_frame_range,
  push_usable, push_reserved, push_gap, carve, build_from, build_memory_map,
}
use genrt.Memory.Map.Points.{within, covered, starts_from, starts_from-covered}

-- Whole pages of which every address is as `P` says.
pub record IsUsable (P : ℕ → Type 0) (f : AddrRange) : Type 0 where
  pub first_page : f.start % page_size ≡ 0
  pub last_page : f.end % page_size ≡ 0
  pub inside : (a : ℕ) → within a f ≡ true → P a

abbrev pub AllUsable : (ℕ → Type 0) → MemoryMap → Type 0
AllUsable P m = (i : ℕ) (f : AddrRange) → get_elem? m.usable_ranges.slots i ≡ some f → IsUsable P f

abbrev AllIn : (ℕ → Type 0) → List AddrRange → Type 0
AllIn P fs = (i : ℕ) (f : AddrRange) → get_elem? fs i ≡ some f → IsUsable P f

AllIn-cons :
    (P : ℕ → Type 0) (f : AddrRange) (fs : List AddrRange)
    → IsUsable P f
    → AllIn P fs
    → AllIn P (f ∷ fs)
AllIn-cons P f fs u all zero g h = subst (IsUsable P) (ground arith) u
AllIn-cons P f fs u all (suc i) g h = all i g h

-- The whole pages of a range.
rounded-IsUsable :
    (P : ℕ → Type 0) (r : AddrRange) (start : ℕ)
    → align_up r.start page_size ≡ some start
    → ((a : ℕ) → within a r ≡ true → P a)
    → IsUsable P (range start (align_down r.end page_size))
rounded-IsUsable P r start h inside =
    let up = align_up-least r.start page_size start (omega arith) h in
    let down = align_down-greatest r.end page_size (omega arith) in
    record {
      first_page = up.0;
      last_page = down.0;
      inside = λ a k. inside a (ground (arith, up.1, down.1));
    }

-- A range that the next one touches or overlaps, extended to its end.
extended-IsUsable :
    (P : ℕ → Type 0) (prev : AddrRange) (start end : ℕ)
    → IsUsable P prev
    → IsUsable P (range start end)
    → start ≤ prev.end
    → IsUsable P (range prev.start (max prev.end end))
extended-IsUsable P prev start end u v touch = record {
  first_page = u.first_page;
  last_page = elim (Bool-cases (leb end prev.end)) [
    | inl e ↦ subst (λ n. n % page_size ≡ 0) (ground arith) u.last_page
    | inr e ↦ subst (λ n. n % page_size ≡ 0) (ground arith) v.last_page
  ];
  inside = λ a k. elim (Bool-cases (ltb a prev.end)) [
    | inl e ↦ u.inside a (ground arith)
    | inr e ↦ v.inside a (ground arith)
  ];
}

append-AllIn :
    (P : ℕ → Type 0) (out : Ranges) (f : AddrRange)
    → IsUsable P f
    → AllIn P out.slots
    → WhenOk (λ out'. AllIn P out'.slots) (append_slot out f)
append-AllIn P out f u all =
    WhenOk-test (ltb (length out.slots) out.limit) (λ e. returned (AllIn-cons P f out.slots u all))
      (λ e. failed)

place_pages-AllIn :
    (P : ℕ → Type 0) (slots : List AddrRange) (limit : ℕ) (f : AddrRange)
    → IsUsable P f
    → AllIn P slots
    → WhenOk (λ out. AllIn P out.slots) (place_pages slots limit f)
unfolding place_pages
place_pages-AllIn P [] limit f u all =
    WhenOk-test (leb f.end f.start) (λ e. returned all)
      (λ e. append-AllIn P (record { slots = []; limit = limit }) f u all)
place_pages-AllIn P (prev ∷ before) limit f u all =
    WhenOk-test (leb f.end f.start) (λ e. returned all)
      (λ e.
        WhenOk-test (leb f.start prev.end)
          (λ w. returned (
            AllIn-cons P _ before
              (extended-IsUsable P prev f.start f.end (all 0 prev refl) u (ground arith))
              (λ i g h. all (suc i) g h)))
          (λ w. append-AllIn P (record { slots = prev ∷ before; limit = limit }) f u all))

push_frames-AllIn :
    (P : ℕ → Type 0) (out : Ranges) (r : AddrRange)
    → ((a : ℕ) → within a r ≡ true → P a)
    → AllIn P out.slots
    → WhenOk (λ out'. AllIn P out'.slots) (push_usable_frame_range out r)
unfolding push_usable_frame_range
push_frames-AllIn P out r inside all =
    WhenOk-then
      (WhenOk-ok_or {P = λ s. align_up r.start page_size ≡ some s} (align_up r.start page_size) _
        (λ s h. h))
      λ start h.
        place_pages-AllIn P out.slots out.limit (range start (align_down r.end page_size))
          (rounded-IsUsable P r start h inside) all

push_gap-AllUsable :
    (P : ℕ → Type 0) (m : MemoryMap) (cursor end : ℕ)
    → ((a : ℕ) → cursor ≤ a → a < end → P a)
    → AllUsable P m
    → WhenOk (AllUsable P) (push_gap m cursor end)
unfolding push_gap push_usable
push_gap-AllUsable P m cursor end inside all =
    WhenOk-test (ltb cursor end)
      (λ e.
        WhenOk-then
          (WhenOk-any
            (push_phys_region m.phys_regions (record { range = range cursor end; kind = usable })))
          λ regions w.
            WhenOk-then
              (push_frames-AllIn P m.usable_ranges (range cursor end)
                (λ a k. inside a (ground arith) (ground arith)) all)
              λ frames z. returned z)
      (λ e. returned all)

push_reserved-AllUsable :
    (P : ℕ → Type 0) (m : MemoryMap) (r : AddrRange)
    → AllUsable P m
    → WhenOk (AllUsable P) (push_reserved m r)
unfolding push_reserved
push_reserved-AllUsable P m r all =
    WhenOk-then
      (WhenOk-any (push_phys_region m.phys_regions (record { range = r; kind = reserved })))
      λ regions w. returned all

-- The addresses of the RAM range that no reserved range holds.
abbrev Free : AddrRange → List AddrRange → ℕ → Type 0
Free ram held a = (within a ram ≡ true) × (covered a held ≡ false)

-- From the cursor on, the ranges that are left hold what all hold.
abbrev Passed : AddrRange → List AddrRange → List AddrRange → ℕ → Type 0
Passed ram held rest cursor = (a : ℕ) → cursor ≤ a → a < ram.end → covered a held ≡ covered a rest

clipped_none :
    (r ram : AddrRange)
    → clipped_to r ram ≡ none
    → (a : ℕ) → ram.start ≤ a
    → a < ram.end
    → within a r ≡ false
unfolding clipped_to
clipped_none r ram h a p q = ground arith

clipped_some :
    (r ram clipped : AddrRange)
    → clipped_to r ram ≡ some clipped
    → (clipped.start ≡ max r.start ram.start)
      × (clipped.end ≡ min r.end ram.end)
      × (clipped.start < clipped.end)
unfolding clipped_to
clipped_some r ram clipped h = ground arith

carve-AllUsable :
    (P : ℕ → Type 0) (ram : AddrRange) (held rest : List AddrRange) (low cursor : ℕ) (m : MemoryMap)
    → ((a : ℕ) → Free ram held a → P a)
    → starts_from low rest ≡ true
    → ram.start ≤ cursor
    → Passed ram held rest cursor
    → AllUsable P m
    → WhenOk
        (λ r. AllUsable P r.1 × (ram.start ≤ r.0) × Passed ram held [] r.0)
        (carve ram rest cursor m)
unfolding carve covered starts_from
carve-AllUsable P ram held [] low cursor m inside sorted from passed all =
    returned (all, from, passed)
carve-AllUsable P ram held (r ∷ rest) low cursor m inside sorted from passed all =
    let later : starts_from r.start rest ≡ true = ground arith in
    WhenOk-test (leb r.end ram.start)
      (λ e.
        carve-AllUsable P ram held rest r.start cursor m inside later from
          (λ a p q. passed a p q ∙ ground arith) all)
      (λ e.
        WhenOk-test (leb ram.end r.start)
          (λ w. returned (
            all,
            from,
            λ a p q. passed a p q ∙ ground (arith, starts_from-covered r.start a rest later),
          ))
          (λ w. elim (Option-cases (clipped_to r ram)) [
            | inl c ↦ rw c (
                carve-AllUsable P ram held rest r.start cursor m inside later from
                  (λ a p q. passed a p q ∙ ground (arith, clipped_none r ram c a)) all)
            | inr (clipped, c) ↦
                let (first, last, some_left) = clipped_some r ram clipped c in
                let free : (a : ℕ) → cursor ≤ a → a < clipped.start → P a = λ a p q.
                  let below : a < r.start = ground arith in
                  inside a (
                    ground arith,
                    passed a p (ground arith)
                        ∙ ground (arith, starts_from-covered r.start a rest later),
                  ) in
                rw c (
                  WhenOk-then (push_gap-AllUsable P m cursor clipped.start free all) λ m' all'.
                    WhenOk-then (push_reserved-AllUsable P m' clipped all') λ m'' all''.
                      carve-AllUsable P ram held rest r.start (max cursor clipped.end) m'' inside
                        later (omega arith) (λ a p q. passed a (omega arith) q ∙ ground arith)
                        all'')
          ]))

build_from-AllUsable :
    (P : ℕ → Type 0) (rams held : List AddrRange) (m : MemoryMap)
    → ((a : ℕ) → covered a rams ≡ true → covered a held ≡ false → P a)
    → starts_from 0 held ≡ true
    → AllUsable P m
    → WhenOk (AllUsable P) (build_from rams held m)
unfolding build_from covered
build_from-AllUsable P [] held m inside sorted all = returned all
build_from-AllUsable P (ram ∷ rams) held m inside sorted all =
    let here : (a : ℕ) → Free ram held a → P a = λ a f. inside a (ground arith) f.1 in
    WhenOk-then
      (carve-AllUsable P ram held held 0 ram.start m here sorted (omega arith) (λ a p q. refl) all)
      λ r s.
        WhenOk-then
          (push_gap-AllUsable P r.1 r.0 ram.end (λ a p q. here a (ground arith, s.2 a p q)) s.0)
          λ m' all'.
            build_from-AllUsable P rams held m' (λ a p q. inside a (ground arith) q) sorted all'

-- Every usable frame range is whole pages of RAM that no reserved range holds.
pub build_memory_map-AllUsable :
    (rams held : List AddrRange) (m : MemoryMap)
    → starts_from 0 held ≡ true
    → m.usable_ranges.slots ≡ []
    → WhenOk
        (AllUsable (λ a. (covered a rams ≡ true) × (covered a held ≡ false)))
        (build_memory_map rams held m)
unfolding build_memory_map
build_memory_map-AllUsable rams held m sorted fresh =
    WhenOk-then
      (build_from-AllUsable _ rams held m (λ a p q. (p, q)) sorted
        (λ i f h. let gone = subst (λ fs. get_elem? fs i ≡ some f) fresh h in ground arith))
      λ m' all. WhenOk-test (length m'.usable_ranges.slots == 0) (λ e. failed) (λ e. returned all)
