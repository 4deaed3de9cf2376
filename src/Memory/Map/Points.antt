-- ===== src/Memory/Map/Points.antt =====
-- kernel/src/memory/map.rs: sorting and merging ranges keeps the addresses in them.
use genrt.Prelude.{
  ℕ, ◌≤◌, ◌<◌, ◌≡◌, max, inl, inr, refl, ap, ◌∙◌, Bool, true, false, ◌&&◌, ◌||◌, Bool-cases, List,
  [], ◌∷◌, arith, ltb, leb, ◌==◌,
}
use genrt.Memory.Types.{AddrRange, overlaps}
use genrt.Memory.Map.{move_down, sort_onto, in_order, sort_ranges, merge_from, merge_ranges}

abbrev pub within : ℕ → AddrRange → Bool
within a r = leb r.start a && ltb a r.end

-- The address is in one of the ranges.
unfoldable pub covered : ℕ → List AddrRange → Bool
covered a [] = false
covered a (r ∷ rs) = within a r || covered a rs

-- Each range starts no earlier than the one before, the first no earlier than `low`.
unfoldable pub starts_from : ℕ → List AddrRange → Bool
starts_from low [] = true
starts_from low (r ∷ rs) = leb low r.start && starts_from r.start rs

-- The same from the last to the first, the last no later than `high`.
starts_to : ℕ → List AddrRange → Bool
starts_to high [] = true
starts_to high (r ∷ rs) = leb r.start high && starts_to r.start rs

pub starts_from-covered :
    (low a : ℕ) (rs : List AddrRange) → starts_from low rs ≡ true → a < low → covered a rs ≡ false
unfolding starts_from covered
starts_from-covered low a [] h below = refl
starts_from-covered low a (r ∷ rs) h below = ground (arith, starts_from-covered r.start a rs)

pub starts_from-lower :
    (low high : ℕ) (rs : List AddrRange)
    → starts_from high rs ≡ true
    → low ≤ high
    → starts_from low rs ≡ true
unfolding starts_from
starts_from-lower low high [] h le = refl
starts_from-lower low high (r ∷ rs) h le = ground arith

move_down-covered :
    (a : ℕ) (r : AddrRange) (ps : List AddrRange)
    → covered a (move_down r ps) ≡ (within a r || covered a ps)
unfolding move_down covered
move_down-covered a r [] = refl
move_down-covered a r (p ∷ ps) = ground (arith, move_down-covered a r ps)

move_down-starts_to :
    (high : ℕ) (r : AddrRange) (ps : List AddrRange)
    → starts_to high ps ≡ true
    → r.start ≤ high
    → starts_to high (move_down r ps) ≡ true
unfolding move_down starts_to
move_down-starts_to high r [] h le = ground arith
move_down-starts_to high r (p ∷ ps) h le = ground (arith, move_down-starts_to p.start r ps)

descending : List AddrRange → Bool
descending [] = true
descending (r ∷ rs) = starts_to r.start rs

move_down-descending :
    (r : AddrRange) (ps : List AddrRange)
    → descending ps ≡ true
    → descending (move_down r ps) ≡ true
unfolding move_down descending starts_to
move_down-descending r [] h = refl
move_down-descending r (p ∷ ps) h = ground (arith, move_down-starts_to p.start r ps h)

in_order-covered :
    (a : ℕ) (rs after : List AddrRange)
    → covered a (in_order rs after) ≡ (covered a rs || covered a after)
unfolding in_order covered
in_order-covered a [] after = refl
in_order-covered a (r ∷ rs) after = ground (arith, in_order-covered a rs (r ∷ after))

in_order-starts_from :
    (high : ℕ) (rs after : List AddrRange)
    → starts_to high rs ≡ true
    → starts_from high after ≡ true
    → starts_from 0 (in_order rs after) ≡ true
unfolding in_order starts_to starts_from
in_order-starts_from high [] after h k = starts_from-lower 0 high after k (omega arith)
in_order-starts_from high (r ∷ rs) after h k =
    in_order-starts_from r.start rs (r ∷ after) (ground arith)
      (ground (arith, starts_from-lower r.start high after k))

descending-in_order :
    (rs : List AddrRange) → descending rs ≡ true → starts_from 0 (in_order rs []) ≡ true
unfolding in_order descending starts_from
descending-in_order [] h = refl
descending-in_order (r ∷ rs) h = in_order-starts_from r.start rs (r ∷ []) h (ground arith)

sort_onto-descending :
    (sorted rs : List AddrRange)
    → descending sorted ≡ true
    → descending (sort_onto sorted rs) ≡ true
unfolding sort_onto
sort_onto-descending sorted [] h = h
sort_onto-descending sorted (r ∷ rs) h =
    sort_onto-descending (move_down r sorted) rs (move_down-descending r sorted h)

sort_onto-covered :
    (a : ℕ) (sorted rs : List AddrRange)
    → covered a (sort_onto sorted rs) ≡ (covered a sorted || covered a rs)
unfolding sort_onto covered
sort_onto-covered a sorted [] = ground arith
sort_onto-covered a sorted (r ∷ rs) =
    ground (arith, sort_onto-covered a (move_down r sorted) rs, move_down-covered a r sorted)

-- Sorting keeps the addresses.
pub sort_ranges-covered : (a : ℕ) (rs : List AddrRange) → covered a (sort_ranges rs) ≡ covered a rs
unfolding sort_ranges covered
sort_ranges-covered a rs =
    ground (arith, in_order-covered a (sort_onto [] rs) [], sort_onto-covered a [] rs)

pub sort_ranges-starts_from : (rs : List AddrRange) → starts_from 0 (sort_ranges rs) ≡ true
unfolding sort_ranges descending
sort_ranges-starts_from rs = descending-in_order (sort_onto [] rs) (sort_onto-descending [] rs refl)

pub covered-in_order : (a : ℕ) (rs : List AddrRange) → covered a (in_order rs []) ≡ covered a rs
unfolding covered
covered-in_order a rs = ground (arith, in_order-covered a rs [])

extended-within :
    (a : ℕ) (last current : AddrRange)
    → last.start ≤ current.start
    → (overlaps last current || last.end == current.start) ≡ true
    → within a (record last { end = max last.end current.end })
      ≡ (within a last || within a current)
unfolding overlaps
extended-within a last current h k = ground arith

merge_from-covered :
    (a : ℕ) (last : AddrRange) (rs : List AddrRange)
    → starts_from last.start rs ≡ true
    → covered a (merge_from last rs) ≡ covered a (last ∷ rs)
unfolding merge_from covered starts_from
merge_from-covered a last [] h = refl
merge_from-covered a last (r ∷ rs) h =
    let longer : AddrRange = record last { end = max last.end r.end } in
    let low = starts_from-lower last.start r.start rs (ground arith) (ground arith) in
    let extended = merge_from-covered a longer rs low in
    let apart = merge_from-covered a r rs (ground arith) in
    let same = extended-within a last r (ground arith) in
    elim (Bool-cases (overlaps last r || last.end == r.start)) [
      | inl e ↦ rw e (extended ∙ ap (λ b. b || covered a rs) (same e) ∙ ground arith)
      | inr e ↦ rw e (ap (λ b. within a last || b) apart)
    ]

merge_from-starts_from :
    (low : ℕ) (last : AddrRange) (rs : List AddrRange)
    → starts_from low (last ∷ rs) ≡ true
    → starts_from low (merge_from last rs) ≡ true
unfolding merge_from starts_from
merge_from-starts_from low last [] h = h
merge_from-starts_from low last (r ∷ rs) h =
    let longer : AddrRange = record last { end = max last.end r.end } in
    let low' = starts_from-lower last.start r.start rs (ground arith) (ground arith) in
    let extended = merge_from-starts_from low longer rs (ground arith) in
    let apart = merge_from-starts_from last.start r rs (ground arith) in ground arith

-- Merging sorted ranges keeps the addresses and the order.
pub merge_ranges-covered :
    (a : ℕ) (rs : List AddrRange)
    → starts_from 0 rs ≡ true
    → covered a (merge_ranges rs) ≡ covered a rs
unfolding merge_ranges starts_from
merge_ranges-covered a [] h = refl
merge_ranges-covered a (r ∷ rs) h = merge_from-covered a r rs (ground arith)

pub merge_ranges-starts_from :
    (rs : List AddrRange) → starts_from 0 rs ≡ true → starts_from 0 (merge_ranges rs) ≡ true
unfolding merge_ranges
merge_ranges-starts_from [] h = h
merge_ranges-starts_from (r ∷ rs) h = merge_from-starts_from 0 r rs h
