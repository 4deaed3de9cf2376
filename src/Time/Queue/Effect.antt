-- ===== src/Time/Queue/Effect.antt =====
-- kernel/src/time.rs: what the operations of the deadline queue do to its map of deadlines.
use genrt.Prelude.{
  ℕ, ◌+◌, ◌≤◌, ◌<◌, ◌≡◌, inl, inr, refl, ap, ◌∙◌, subst, Bool, Bool-cases, Option, none, some, [],
  ◌∷◌, ◌++◌, arith, length, set, length-set, length-append, if◌then◌else◌,
}
use genrt.Time.Event.{TimedEvent, event_eq, event_eq_iff, DeadlineEntry}
use genrt.Time.Queue.{Entries, DeadlineQueue, with_entries}
use genrt.Time.Queue.Order.{
  entry_at, tally, one_if, Heaped, tally-set, tally-append, tally-entry_at, entry_at-set,
}
use genrt.Time.Queue.Place.{moved_to}
use genrt.Time.Queue.Remove.{Removed}
use genrt.Time.Queue.View.{
  deadline_of, has_event, has_both, IsValid, deadline_of-absent, deadline_of-held, deadline_of-same,
}

-- A valid queue of the same capacity, with the deadlines that `f` gives.
pub record Becomes (q : DeadlineQueue) (f : TimedEvent → Option ℕ) (r : DeadlineQueue)
    : Type 0 where
  pub valid : IsValid r
  pub capacity_kept : r.capacity ≡ q.capacity
  pub deadlines : (x : TimedEvent) → deadline_of r.entries x ≡ f x

-- An entry replaced by one of the same event.
pub Becomes-replaced :
    (q : DeadlineQueue) (i d : ℕ) (event : TimedEvent) (fs : Entries)
    → IsValid q
    → i < length q.entries
    → (entry_at q.entries i).event ≡ event
    → Heaped (set q.entries i (moved_to (entry_at q.entries i) d)) fs
    → Becomes q
        (λ x. if event_eq event x then some d else deadline_of q.entries x)
        (with_entries q fs)
Becomes-replaced q i d event fs v inside at s =
    let es = q.entries in
    let counts : (p : DeadlineEntry → Bool)
        → tally p fs + one_if (p (entry_at es i))
          ≡ tally p es + one_if (p (moved_to (entry_at es i) d)) =
      λ p. rw (s.same p) (tally-set p es i _ inside) in
    let events : (x : TimedEvent) → tally (has_event x) fs ≡ tally (has_event x) es =
      λ x. omega (arith, counts (has_event x)) in
    let found : (x : TimedEvent) → event_eq (entry_at es i).event x ≡ event_eq event x =
      λ x. ap (λ y. event_eq y x) at in
    let placed = entry_at-set es i i (moved_to (entry_at es i) d) inside in
    record {
      valid = record {
        heap = s.heap;
        distinct = λ x. omega (arith, events x, v.distinct x);
        bounded = omega (arith, s.size, length-set es i (moved_to (entry_at es i) d), v.bounded);
      };
      capacity_kept = refl;
      deadlines = λ x. elim (Bool-cases (event_eq event x)) [
        | inl e ↦ rw e (
            deadline_of-held fs x d (omega (arith, events x, v.distinct x)) (
              grind (
                arith,
                s.same (has_both x d),
                tally-entry_at (has_both x d) (set es i (moved_to (entry_at es i) d)) i,
                length-set es i (moved_to (entry_at es i) d),
                found x,
              )))
        | inr e ↦ rw e (
            deadline_of-same es fs x (v.distinct x) (events x)
              λ d'. grind (arith, counts (has_both x d'), found x))
      ];
    }

pub Becomes-added :
    (q : DeadlineQueue) (d : ℕ) (event : TimedEvent) (fs : Entries)
    → IsValid q
    → length q.entries < q.capacity
    → tally (has_event event) q.entries ≡ 0
    → Heaped (q.entries ++ record { deadline = d; event = event } ∷ []) fs
    → Becomes q
        (λ x. if event_eq event x then some d else deadline_of q.entries x)
        (with_entries q fs)
unfolding tally
Becomes-added q d event fs v room absent s =
    let es = q.entries in
    let e : DeadlineEntry = record { deadline = d; event = event } in
    let counts : (p : DeadlineEntry → Bool) → tally p fs ≡ tally p es + one_if (p e) =
      λ p. s.same p ∙ tally-append p es (e ∷ []) ∙ omega arith in
    let few : (x : TimedEvent) → tally (has_event x) fs ≤ 1 = λ x.
      elim (Bool-cases (event_eq event x)) [
        | inl w ↦
            let none_yet =
              subst (λ y. tally (has_event y) es ≡ 0) ((event_eq_iff event x).0 w) absent in
            grind (arith, counts (has_event x))
        | inr w ↦ grind (arith, counts (has_event x), v.distinct x)
      ] in
    record {
      valid = record {
        heap = s.heap;
        distinct = few;
        bounded = omega (arith, s.size, length-append es (e ∷ []));
      };
      capacity_kept = refl;
      deadlines = λ x. elim (Bool-cases (event_eq event x)) [
        | inl w ↦ rw w (deadline_of-held fs x d (few x) (grind (arith, counts (has_both x d))))
        | inr w ↦ rw w (
            deadline_of-same es fs x (v.distinct x) (grind (arith, counts (has_event x)))
              λ d'. grind (arith, counts (has_both x d')))
      ];
    }

pub Becomes-without :
    (q : DeadlineQueue) (i : ℕ) (event : TimedEvent) (fs : Entries)
    → IsValid q
    → (entry_at q.entries i).event ≡ event
    → Removed q.entries i fs
    → Becomes q
        (λ x. if event_eq event x then none else deadline_of q.entries x)
        (with_entries q fs)
Becomes-without q i event fs v at s =
    let es = q.entries in
    let found : (x : TimedEvent) → event_eq (entry_at es i).event x ≡ event_eq event x =
      λ x. ap (λ y. event_eq y x) at in
    record {
      valid = record {
        heap = s.heap;
        distinct = λ x. omega (arith, s.same (has_event x), v.distinct x);
        bounded = omega (arith, s.size, v.bounded);
      };
      capacity_kept = refl;
      deadlines = λ x. elim (Bool-cases (event_eq event x)) [
        | inl w ↦
            rw w
              (deadline_of-absent fs x (grind (arith, s.same (has_event x), v.distinct x, found x)))
        | inr w ↦ rw w (
            deadline_of-same es fs x (v.distinct x) (grind (arith, s.same (has_event x), found x))
              λ d'. grind (arith, s.same (has_both x d'), found x))
      ];
    }
