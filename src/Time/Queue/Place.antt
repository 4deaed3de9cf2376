-- ===== src/Time/Queue/Place.antt =====
-- kernel/src/time.rs: an entry that was put in place of another finds its place in the heap.
use genrt.Prelude.{
  ℕ, ◌+◌, ◌<◌, ◌≡◌, ◌≢◌, inl, inr, refl, subst, false, Bool-cases, [], ◌∷◌, ◌++◌, arith, length,
  set, length-set, length-append, ltb, ◌==◌,
}
use genrt.Prelude.Running.{Ends, ends, Ends-test}
use genrt.Time.Event.{DeadlineEntry, entry_less, Le, Le_refl, Le_trans}
use genrt.Time.Queue.{Entries, parent, sift_up, reschedule}
use genrt.Time.Queue.Order.{
  entry_at, entry_at-set, entry_at-append, get_elem?-entry_at, IsHeap, IsBridged, Heaped,
}
use genrt.Time.Queue.Up.{UpInv, sift_up-Heaped}
use genrt.Time.Queue.Down.{DownInv, sift_down-Heaped}

-- Only the edges above and below `i` may be out of order.
pub record PlaceInv (es : Entries) (i : ℕ) : Type 0 where
  pub inside : i < length es
  pub edges :
      (c : ℕ)
      → 0 < c
      → c < length es
      → c ≢ i
      → parent c ≢ i
      → Le (entry_at es (parent c)) (entry_at es c)
  pub bridged : IsBridged es i

pub PlaceInv-up :
    (es : Entries) (i : ℕ)
    → PlaceInv es i
    → ((c : ℕ) → 0 < c → c < length es → parent c ≡ i → Le (entry_at es i) (entry_at es c))
    → UpInv es i
PlaceInv-up es i v below = record {
  inside = v.inside;
  edges = λ c p q r. elim (Bool-cases (parent c == i)) [
    | inl e ↦
        subst (λ j. Le (entry_at es j) (entry_at es c)) (ground arith) (below c p q (ground arith))
    | inr e ↦ v.edges c p q r (ground arith)
  ];
  bridged = v.bridged;
}

pub PlaceInv-down :
    (es : Entries) (i : ℕ)
    → PlaceInv es i
    → (0 < i → Le (entry_at es (parent i)) (entry_at es i))
    → DownInv es i
PlaceInv-down es i v above = record {
  inside = v.inside;
  edges = λ c p q r. elim (Bool-cases (c == i)) [
    | inl e ↦
        subst (λ j. Le (entry_at es (parent j)) (entry_at es j)) (ground arith)
          (above (ground arith))
    | inr e ↦ v.edges c p q (ground arith) r
  ];
  bridged = v.bridged;
}

pub IsHeap-IsBridged : (es : Entries) → IsHeap es → (i : ℕ) → i < length es → IsBridged es i
IsHeap-IsBridged es h i inside c p q r s =
    Le_trans _ _ _ (h i s inside) (subst (λ j. Le (entry_at es j) (entry_at es c)) r (h c p q))

-- An entry of a heap replaced.
PlaceInv-set :
    (es : Entries) (i : ℕ) (v : DeadlineEntry) → IsHeap es → i < length es → PlaceInv (set es i v) i
PlaceInv-set es i v h inside = record {
  inside = omega (arith, length-set es i v);
  edges = λ c p q r s.
      let within : c < length es = omega (arith, length-set es i v) in
      let edge = h c p within in
      let here = entry_at-set es i c v inside in
      let there = entry_at-set es i (parent c) v inside in grind arith;
  bridged = λ c p q r s.
      let within : c < length es = omega (arith, length-set es i v) in
      let over = IsHeap-IsBridged es h i inside c p within r s in
      let here = entry_at-set es i c v inside in
      let there = entry_at-set es i (parent i) v inside in grind arith;
}

UpInv-set :
    (es : Entries) (i : ℕ) (v : DeadlineEntry)
    → IsHeap es
    → i < length es
    → Le v (entry_at es i)
    → UpInv (set es i v) i
UpInv-set es i v h inside before =
    PlaceInv-up (set es i v) i (PlaceInv-set es i v h inside) λ c p q r.
      let within : c < length es = omega (arith, length-set es i v) in
      let edge = subst (λ j. Le (entry_at es j) (entry_at es c)) r (h c p within) in
      let over = Le_trans v _ _ before edge in
      let here = entry_at-set es i c v inside in
      let there = entry_at-set es i i v inside in grind arith

DownInv-set :
    (es : Entries) (i : ℕ) (v : DeadlineEntry)
    → IsHeap es
    → i < length es
    → Le (entry_at es i) v
    → DownInv (set es i v) i
DownInv-set es i v h inside after = PlaceInv-down (set es i v) i (PlaceInv-set es i v h inside) λ p.
    let over = Le_trans _ _ v (h i p inside) after in
    let here = entry_at-set es i i v inside in
    let there = entry_at-set es i (parent i) v inside in grind arith

abbrev pub moved_to : DeadlineEntry → ℕ → DeadlineEntry
moved_to e d = record e { deadline = d }

moved_earlier : (e : DeadlineEntry) (d : ℕ) → ltb e.deadline d ≡ false → Le (moved_to e d) e
unfolding entry_less
moved_earlier e d h = let same = Le_refl e in ground arith

moved_later : (e : DeadlineEntry) (d : ℕ) → ltb d e.deadline ≡ false → Le e (moved_to e d)
unfolding entry_less
moved_later e d h = let same = Le_refl e in ground arith

in_place-IsHeap : (es : Entries) (i : ℕ) → UpInv es i → DownInv es i → IsHeap es
in_place-IsHeap es i u v c p q = elim (Bool-cases (c == i)) [
  | inl e ↦ v.edges c p q (ground arith)
  | inr e ↦ u.edges c p q (ground arith)
]

pub reschedule-Heaped :
    (es : Entries) (i d : ℕ)
    → IsHeap es
    → i < length es
    → Ends (Heaped (set es i (moved_to (entry_at es i) d))) (reschedule es i d)
unfolding reschedule
reschedule-Heaped es i d h inside =
    let e = entry_at es i in
    let rising : ltb e.deadline d ≡ false → UpInv (set es i (moved_to e d)) i =
      λ late. UpInv-set es i (moved_to e d) h inside (moved_earlier e d late) in
    let falling : ltb d e.deadline ≡ false → DownInv (set es i (moved_to e d)) i =
      λ early. DownInv-set es i (moved_to e d) h inside (moved_later e d early) in
    rw (get_elem?-entry_at es i inside) (
      Ends-test (ltb d e.deadline)
        (λ up. sift_up-Heaped (i + 1) _ i (omega arith) (rising (ground arith)))
        (λ early.
          Ends-test (ltb e.deadline d)
            (λ down. sift_down-Heaped _ _ i (omega arith) (falling early))
            (λ late. ends (record {
              heap = in_place-IsHeap _ i (rising late) (falling early);
              size = refl;
              same = λ p. refl;
            }))))

UpInv-append : (es : Entries) (v : DeadlineEntry) → IsHeap es → UpInv (es ++ v ∷ []) (length es)
UpInv-append es v h = record {
  inside = omega (arith, length-append es (v ∷ []));
  edges = λ c p q r.
      let within : c < length es = omega (arith, length-append es (v ∷ [])) in
      let edge = h c p within in
      let here = entry_at-append es (v ∷ []) c in
      let there = entry_at-append es (v ∷ []) (parent c) in grind arith;
  bridged = λ c p q r s. absurd (omega (arith, length-append es (v ∷ [])));
}

pub append-Heaped :
    (es : Entries) (v : DeadlineEntry)
    → IsHeap es
    → Ends (Heaped (es ++ v ∷ [])) (sift_up (length es + 1) (es ++ v ∷ []) (length es))
append-Heaped es v h =
    sift_up-Heaped (length es + 1) (es ++ v ∷ []) (length es) (omega arith) (UpInv-append es v h)
