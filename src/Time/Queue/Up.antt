-- ===== src/Time/Queue/Up.antt =====
-- kernel/src/time.rs: the sift up restores the heap and ends within its fuel.
use genrt.Prelude.{
  ℕ, zero, suc, ◌<◌, ◌≡◌, ◌≢◌, inl, inr, refl, subst, true, Bool-cases, arith, length, ltb, ◌==◌,
}
use genrt.Prelude.Running.{Ends, ends, Ends-test}
use genrt.Time.Event.{entry_less, Le, Le_trans, less-Le}
use genrt.Time.Queue.{Entries, parent, sift_up}
use genrt.Time.Queue.Order.{
  entry_at, swapped, swap-ok, less-ok, length-swapped, entry_at-swapped, IsBridged, Heaped,
  Heaped-swapped,
}

-- Only the edge above `i` may be out of order.
pub record UpInv (es : Entries) (i : ℕ) : Type 0 where
  pub inside : i < length es
  pub edges : (c : ℕ) → 0 < c → c < length es → c ≢ i → Le (entry_at es (parent c)) (entry_at es c)
  pub bridged : IsBridged es i

swap-UpInv :
    (es : Entries) (i : ℕ)
    → UpInv es i
    → 0 < i
    → entry_less (entry_at es i) (entry_at es (parent i)) ≡ true
    → UpInv (swapped es i (parent i)) (parent i)
swap-UpInv es i v pos below = record {
  inside = omega (arith, v.inside, length-swapped es i (parent i));
  edges = λ c p q r.
      let inside : c < length es = omega (arith, q, length-swapped es i (parent i)) in
      let here = entry_at-swapped es i (parent i) c v.inside (omega (arith, v.inside)) in
      let there = entry_at-swapped es i (parent i) (parent c) v.inside (omega (arith, v.inside)) in
      let rise : Le (entry_at es i) (entry_at es (parent i)) = less-Le _ _ below in
      elim (Bool-cases (c == i)) [
        | inl e ↦ grind arith
        | inr e ↦
            let edge = v.edges c p inside (ground arith) in
            elim (Bool-cases (parent c == parent i)) [
              | inl w ↦
                  let over =
                    Le_trans (entry_at es i) (entry_at es (parent i)) (entry_at es c) rise
                      (subst (λ j. Le (entry_at es j) (entry_at es c)) (ground arith) edge) in
                  grind arith
              | inr w ↦ elim (Bool-cases (parent c == i)) [
                | inl z ↦ let over = v.bridged c p inside (ground arith) pos in grind arith
                | inr z ↦ grind arith
              ]
            ]
      ];
  bridged = λ c p q r s.
      let inside : c < length es = omega (arith, q, length-swapped es i (parent i)) in
      let here = entry_at-swapped es i (parent i) c v.inside (omega (arith, v.inside)) in
      let there =
        entry_at-swapped es i (parent i) (parent (parent i)) v.inside (omega (arith, v.inside)) in
      let upper = v.edges (parent i) s (omega (arith, v.inside)) (omega arith) in
      elim (Bool-cases (c == i)) [
        | inl e ↦ grind arith
        | inr e ↦
            let edge = v.edges c p inside (ground arith) in
            let over =
              Le_trans _ _ (entry_at es c) upper
                (subst (λ j. Le (entry_at es j) (entry_at es c)) r edge) in
            grind arith
      ];
}

pub sift_up-Heaped :
    (k : ℕ) (es : Entries) (i : ℕ) → i < k → UpInv es i → Ends (Heaped es) (sift_up k es i)
unfolding sift_up
sift_up-Heaped zero es i f v = absurd (omega arith)
sift_up-Heaped (suc k) es i f v =
    let above : parent i < length es = omega (arith, v.inside) in
    rw (less-ok es i (parent i) v.inside above, swap-ok es i (parent i) v.inside above)
      (Ends-test (ltb 0 i)
        (λ pos.
          Ends-test (entry_less (entry_at es i) (entry_at es (parent i)))
            (λ below. Heaped-swapped v.inside above (
              sift_up-Heaped k (swapped es i (parent i)) (parent i) (ground arith)
                (swap-UpInv es i v (ground arith) below)))
            (λ settled. ends (record {
              heap = λ c p q. elim (Bool-cases (c == i)) [
                | inl e ↦
                    subst (λ j. Le (entry_at es (parent j)) (entry_at es j)) (ground arith) settled
                | inr e ↦ v.edges c p q (ground arith)
              ];
              size = refl;
              same = λ p. refl;
            })))
        (λ root.
          ends (record {
            heap = λ c p q. v.edges c p q (ground arith);
            size = refl;
            same = λ p. refl;
          })))
