-- ===== src/Time/Queue/Remove.antt =====
-- kernel/src/time.rs: an entry taken out of the heap, with the last entry moved to its place.
use genrt.Prelude.{
  ℕ, suc, ◌+◌, ◌-◌, ◌<◌, ◌≡◌, ◌≢◌, inl, inr, refl, sym, ap, ◌∙◌, subst, Bool, Bool-cases, arith,
  length, take, length-take, ltb, ◌==◌,
}
use genrt.Prelude.Running.{Ends, ends, Ends-then, Ends-test}
use genrt.Time.Event.{DeadlineEntry, entry_less, Le, Le_trans, less-Le}
use genrt.Time.Queue.{Entries, parent, sift_down, settle, remove_at}
use genrt.Time.Queue.Order.{
  entry_at, swapped, swap-ok, less-ok, length-swapped, entry_at-swapped, entry_at-take,
  get_elem?-entry_at, IsHeap, Heaped, tally, one_if, tally-swapped, tally-take_last,
}
use genrt.Time.Queue.Up.{sift_up-Heaped}
use genrt.Time.Queue.Down.{sift_down-Heaped}
use genrt.Time.Queue.Place.{PlaceInv, PlaceInv-up, PlaceInv-down, IsHeap-IsBridged}

-- The last entry of a heap put in the place of another.
abbrev pub moved_last : Entries → ℕ → ℕ → Entries
moved_last es i n = take n (swapped es i n)

PlaceInv-moved_last :
    (es : Entries) (i n : ℕ)
    → IsHeap es
    → length es ≡ suc n
    → i < n
    → PlaceInv (moved_last es i n) i
PlaceInv-moved_last es i n h size inside =
    let short : length (moved_last es i n) ≡ n =
      omega (arith, length-take n (swapped es i n), length-swapped es i n) in
    let seen : (k : ℕ) → k < n → k ≢ i → entry_at (moved_last es i n) k ≡ entry_at es k =
      λ k small other.
        let cut = entry_at-take n (swapped es i n) k small in
        let moved = entry_at-swapped es i n k (omega arith) (omega arith) in grind arith in
    record {
      inside = omega arith;
      edges = λ c p q r s.
          rw (seen c (omega arith) r, seen (parent c) (omega arith) s) (h c p (omega arith));
      bridged = λ c p q r s.
          rw (seen c (omega arith) (omega arith), seen (parent i) (omega arith) (omega arith))
            (IsHeap-IsBridged es h i (omega arith) c p (omega arith) r s);
    }

settle_place : (es : Entries) (i : ℕ) → PlaceInv es i → Ends (Heaped es) (settle es i)
unfolding settle
settle_place es i v =
    let down : (0 < i → Le (entry_at es (parent i)) (entry_at es i))
        → Ends (Heaped es) (sift_down (length es + 1) es i) =
      λ above. sift_down-Heaped (length es + 1) es i (omega arith) (PlaceInv-down es i v above) in
    Ends-test (ltb i (length es))
      (λ inside.
        Ends-test (ltb 0 i)
          (λ pos. rw (less-ok es i (parent i) v.inside (omega (arith, v.inside))) (
            Ends-test (entry_less (entry_at es i) (entry_at es (parent i)))
              (λ rise. sift_up-Heaped (i + 1) es i (omega arith) (
                PlaceInv-up es i v
                  λ c p q r. Le_trans _ _ _ (less-Le _ _ rise) (v.bridged c p q r (ground arith))))
              (λ sink. down (λ q. sink))))
          (λ root. down (λ q. absurd (ground arith))))
      (λ outside. absurd (ground (arith, v.inside)))

settle_last : (es : Entries) (i : ℕ) → IsHeap es → length es ≡ i → Ends (Heaped es) (settle es i)
unfolding settle
settle_last es i h e =
    Ends-test (ltb i (length es)) (λ inside. absurd (ground arith))
      (λ outside. ends (record { heap = h; size = refl; same = λ p. refl }))

-- A heap of the entries but the one at `i`.
pub record Removed (es : Entries) (i : ℕ) (fs : Entries) : Type 0 where
  pub heap : IsHeap fs
  pub size : length es ≡ suc (length fs)
  pub same : (p : DeadlineEntry → Bool) → tally p es ≡ tally p fs + one_if (p (entry_at es i))

moved_last-IsHeap :
    (es : Entries) (n : ℕ) → IsHeap es → length es ≡ suc n → IsHeap (moved_last es n n)
moved_last-IsHeap es n h size c p q =
    let short = length-take n (swapped es n n) in
    let long = length-swapped es n n in
    let here = entry_at-take n (swapped es n n) c (omega arith) in
    let there = entry_at-take n (swapped es n n) (parent c) (omega arith) in
    let moved = entry_at-swapped es n n c (omega arith) (omega arith) in
    let moved' = entry_at-swapped es n n (parent c) (omega arith) (omega arith) in
    let edge = h c p (omega arith) in grind arith

settle-moved_last :
    (es : Entries) (i n : ℕ)
    → IsHeap es
    → length es ≡ suc n
    → i < length es
    → Ends (Heaped (moved_last es i n)) (settle (moved_last es i n) i)
settle-moved_last es i n h size inside = elim (Bool-cases (i == n)) [
  | inl e ↦
      subst (λ j. Ends (Heaped (moved_last es j n)) (settle (moved_last es j n) j)) (ground arith)
        (settle_last (moved_last es n n) n (moved_last-IsHeap es n h size)
          (omega (arith, length-take n (swapped es n n), length-swapped es n n)))
  | inr e ↦ settle_place (moved_last es i n) i (PlaceInv-moved_last es i n h size (ground arith))
]

moved_last-tally :
    (es : Entries) (i n : ℕ) (p : DeadlineEntry → Bool)
    → length es ≡ suc n
    → i < length es
    → tally p es ≡ tally p (moved_last es i n) + one_if (p (entry_at es i))
moved_last-tally es i n p size inside =
    let cut = tally-take_last p n (swapped es i n) (length-swapped es i n ∙ size) in
    let all = tally-swapped p es i n inside (omega arith) in
    let last = entry_at-swapped es i n n inside (omega arith) in grind arith

pub remove_at-Removed :
    (es : Entries) (i : ℕ)
    → IsHeap es
    → i < length es
    → Ends (λ r. (r.0 ≡ entry_at es i) × Removed es i r.1) (remove_at es i)
unfolding remove_at
remove_at-Removed es i h inside = elim (Bool-cases (length es == 0)) [
  | inl e ↦ absurd (ground arith)
  | inr e ↦
      let n = length es - 1 in
      let size : length es ≡ suc n = ground arith in
      let at_end = entry_at-swapped es i n n inside (omega arith) in
      let found : entry_at (swapped es i n) n ≡ entry_at es i = grind arith in
      rw
        (
          e,
          swap-ok es i n inside (omega arith),
          get_elem?-entry_at (swapped es i n) n (omega (arith, length-swapped es i n)),
        )
        (Ends-then (settle-moved_last es i n h size inside) λ fs s. ends (
          found,
          record {
            heap = s.heap;
            size = omega (arith, s.size, length-take n (swapped es i n), length-swapped es i n);
            same = λ p.
                moved_last-tally es i n p size inside
                ∙ sym (ap (λ k. k + one_if (p (entry_at es i))) (s.same p));
          },
        ))
]
