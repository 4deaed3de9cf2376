-- ===== src/Time/Queue/Down.antt =====
-- kernel/src/time.rs: the sift down restores the heap and ends within its fuel.
use genrt.Prelude.{
  ℕ, zero, suc, ◌+◌, ◌<◌, ◌≡◌, ◌≢◌, inl, inr, refl, subst, true, false, Bool-cases, arith, length,
  ltb, leb, ◌==◌,
}
use genrt.Prelude.Running.{Ends, ends, Ends-then, Ends-test}
use genrt.Time.Event.{entry_less, Le, Le_refl, Le_trans, less-Le}
use genrt.Time.Queue.{Entries, parent, left, best_child, sift_down}
use genrt.Time.Queue.Order.{
  entry_at, swapped, swap-ok, less-ok, length-swapped, entry_at-swapped, IsHeap, IsBridged, Heaped,
  Heaped-swapped,
}

-- Only the edges below `i` may be out of order.
pub record DownInv (es : Entries) (i : ℕ) : Type 0 where
  pub inside : i < length es
  pub edges :
      (c : ℕ) → 0 < c → c < length es → parent c ≢ i → Le (entry_at es (parent c)) (entry_at es c)
  pub bridged : IsBridged es i

-- A child of `i` that is after none of its children.
record BestChild (es : Entries) (i best : ℕ) : Type 0 where
  inside : best < length es
  positive : 0 < best
  child : parent best ≡ i
  least : (c : ℕ) → 0 < c → c < length es → parent c ≡ i → Le (entry_at es best) (entry_at es c)

best_child-BestChild :
    (es : Entries) (i : ℕ) → left i < length es → Ends (BestChild es i) (best_child es i)
unfolding best_child
best_child-BestChild es i h =
    Ends-test (ltb (left i + 1) (length es))
      (λ two.
        rw (less-ok es (left i + 1) (left i) (ground arith) h)
          (elim (Bool-cases (entry_less (entry_at es (left i + 1)) (entry_at es (left i)))) [
            | inl e ↦ rw e (
                ends (record {
                  inside = ground arith;
                  positive = omega arith;
                  child = omega arith;
                  least = λ c p q r. elim (Bool-cases (c == left i)) [
                    | inl w ↦
                        subst (λ j. Le (entry_at es (left i + 1)) (entry_at es j)) (ground arith)
                          (less-Le _ _ e)
                    | inr w ↦
                        subst (λ j. Le (entry_at es (left i + 1)) (entry_at es j)) (ground arith)
                          (Le_refl _)
                  ];
                }))
            | inr e ↦ rw e (
                ends (record {
                  inside = h;
                  positive = omega arith;
                  child = omega arith;
                  least = λ c p q r. elim (Bool-cases (c == left i)) [
                    | inl w ↦
                        subst (λ j. Le (entry_at es (left i)) (entry_at es j)) (ground arith)
                          (Le_refl _)
                    | inr w ↦
                        subst (λ j. Le (entry_at es (left i)) (entry_at es j)) (ground arith) e
                  ];
                }))
          ]))
      (λ one. ends (record {
        inside = h;
        positive = omega arith;
        child = omega arith;
        least = λ c p q r.
            subst (λ j. Le (entry_at es (left i)) (entry_at es j)) (ground arith) (Le_refl _);
      }))

swap-DownInv :
    (es : Entries) (i best : ℕ)
    → DownInv es i
    → BestChild es i best
    → entry_less (entry_at es best) (entry_at es i) ≡ true
    → DownInv (swapped es i best) best
swap-DownInv es i best v b below =
    grind (arith, length-swapped es i best, entry_at-swapped es i best, Le_trans, less-Le)

-- The edges below `i` are in order where its best child is not before it.
settled-IsHeap :
    (es : Entries) (i best : ℕ)
    → DownInv es i
    → BestChild es i best
    → entry_less (entry_at es best) (entry_at es i) ≡ false
    → IsHeap es
settled-IsHeap es i best v b e c p q = elim (Bool-cases (parent c == i)) [
  | inl w ↦
      subst (λ j. Le (entry_at es j) (entry_at es c)) (ground arith)
        (Le_trans _ _ _ e (b.least c p q (ground arith)))
  | inr w ↦ v.edges c p q (ground arith)
]

pub sift_down-Heaped :
    (k : ℕ) (es : Entries) (i : ℕ)
    → length es < i + k
    → DownInv es i
    → Ends (Heaped es) (sift_down k es i)
unfolding sift_down
sift_down-Heaped zero es i f v = absurd (omega (arith, v.inside))
sift_down-Heaped (suc k) es i f v =
    Ends-test (leb (length es) (left i))
      (λ leaf.
        ends
          (record { heap = λ c p q. v.edges c p q (ground arith); size = refl; same = λ p. refl }))
      (λ inner. Ends-then (best_child-BestChild es i (ground arith)) λ best b.
        rw (less-ok es best i b.inside v.inside, swap-ok es i best v.inside b.inside)
          (Ends-test (entry_less (entry_at es best) (entry_at es i))
            (λ below. Heaped-swapped v.inside b.inside (
              sift_down-Heaped k (swapped es i best) best
                (omega (arith, length-swapped es i best, b.child, b.positive))
                (swap-DownInv es i best v b below)))
            (λ settled. ends (record {
              heap = settled-IsHeap es i best v b settled;
              size = refl;
              same = λ p. refl;
            }))))
