-- ===== src/Time/Queue/Refine.antt =====
-- kernel/src/time.rs: the deadline queue refines a finite map from events to deadlines.
use genrt.Prelude.{
  ℕ, suc, ◌≤◌, ◌<◌, ◌≡◌, ◌≢◌, ◌⊎◌, ◌↔◌, inl, inr, refl, sym, subst, true, false, Bool-cases, Option,
  none, some, Option-cases, arith, length, get_elem?, ltb, ◌==◌, if◌then◌else◌, get_elem?-length,
}
use genrt.Prelude.Running.{Run, done, panic, Ends, ends, Ends-then, Ends-test}
use genrt.Time.Event.{TimedEvent, event_eq, event_eq_iff, Le, Le-deadline}
use genrt.Time.Queue.{
  DeadlineQueue, find_from, find_event_index, event_pending, with_entries, schedule, cancel,
  pop_expired,
}
use genrt.Time.Queue.Order.{entry_at, tally, get_elem?-entry_at, root_least}
use genrt.Time.Queue.Place.{reschedule-Heaped, append-Heaped}
use genrt.Time.Queue.Remove.{remove_at-Removed}
use genrt.Time.Queue.View.{
  deadline_of, has_event, IsValid, deadline_of-absent, deadline_of-entry, deadline_of-entry_at,
  find_from-none, find_from-found,
}
use genrt.Time.Queue.Effect.{Becomes, Becomes-replaced, Becomes-added, Becomes-without}

abbrev pub with_deadline : DeadlineQueue → TimedEvent → ℕ → TimedEvent → Option ℕ
with_deadline q event d x = if event_eq event x then some d else deadline_of q.entries x

abbrev pub without : DeadlineQueue → TimedEvent → TimedEvent → Option ℕ
without q event x = if event_eq event x then none else deadline_of q.entries x

-- Where the event is pending or there is room, `schedule` ends in a valid queue of the same
-- capacity in which the event has the new deadline, and every other event the one it had.
pub schedule-Becomes :
    (q : DeadlineQueue) (d : ℕ) (event : TimedEvent)
    → IsValid q
    → (event_pending q event ≡ true) ⊎ (length q.entries < q.capacity)
    → Ends (Becomes q (with_deadline q event d)) (schedule q d event)
unfolding schedule event_pending find_event_index
schedule-Becomes q d event v room = elim (Option-cases (find_from q.entries event 0)) [
  | inl e ↦
      let free : length q.entries < q.capacity = ground arith in
      let space : length q.entries == q.capacity ≡ false = ground arith in
      rw (e, schedule, find_event_index, space)
        (Ends-then (append-Heaped q.entries _ v.heap)
          λ fs s. ends (Becomes-added q d event fs v free (find_from-none q.entries event 0 e) s))
  | inr (i, e) ↦
      let (inside, at) = find_from-found q.entries event i e in
      rw (e, schedule, find_event_index)
        (Ends-then (reschedule-Heaped q.entries i d v.heap inside)
          λ fs s. ends (Becomes-replaced q i d event fs v inside at s))
]

Ends-panic {ℓ κ} : {A : Type ℓ} {P : A → Type κ} {m : Run A} → Ends P m → m ≢ panic
Ends-panic (ends p) h = ground arith

-- On a valid queue `schedule` panics where the event is not pending and the queue is full, and
-- nowhere else.
pub schedule-panic :
    (q : DeadlineQueue) (d : ℕ) (event : TimedEvent)
    → IsValid q
    → (schedule q d event ≡ panic)
      ↔ ((event_pending q event ≡ false) × (length q.entries ≡ q.capacity))
unfolding schedule event_pending find_event_index
schedule-panic q d event v = (
  λ h. elim (Option-cases (find_from q.entries event 0)) [
    | inl e ↦ elim (Bool-cases (length q.entries == q.capacity)) [
      | inl w ↦ (rw (e, event_pending, find_event_index) refl, ground arith)
      | inr w ↦
          absurd (Ends-panic (schedule-Becomes q d event v (inr (ground (arith, v.bounded)))) h)
    ]
    | inr (i, e) ↦ absurd (
        Ends-panic
          (schedule-Becomes q d event v (inl (rw (e, event_pending, find_event_index) refl))) h)
  ],
  λ (absent, full). elim (Option-cases (find_from q.entries event 0)) [
    | inl e ↦
        let w : length q.entries == q.capacity ≡ true = ground arith in
        rw (e, schedule, find_event_index, w) refl
    | inr (i, e) ↦ absurd (ground arith)
  ],
)

-- On a valid queue `cancel` ends: it answers whether the event was pending, and leaves a valid
-- queue without it, in which every other event has the deadline that it had.
pub cancel-Becomes :
    (q : DeadlineQueue) (event : TimedEvent)
    → IsValid q
    → Ends (λ r. Becomes q (without q event) r.0 × (r.1 ≡ event_pending q event)) (cancel q event)
unfolding cancel event_pending find_event_index
cancel-Becomes q event v = elim (Option-cases (find_from q.entries event 0)) [
  | inl e ↦
      rw (e, cancel, event_pending, find_event_index)
        (ends (
          record {
            valid = v;
            capacity_kept = refl;
            deadlines = λ x. elim (Bool-cases (event_eq event x)) [
              | inl w ↦ rw w (
                  deadline_of-absent q.entries x (
                    subst (λ y. tally (has_event y) q.entries ≡ 0) ((event_eq_iff event x).0 w)
                      (find_from-none q.entries event 0 e)))
              | inr w ↦ rw w refl
            ];
          },
          refl,
        ))
  | inr (i, e) ↦
      let (inside, at) = find_from-found q.entries event i e in
      rw (e, cancel, event_pending, find_event_index)
        (Ends-then (remove_at-Removed q.entries i v.heap inside)
          λ r s. ends (Becomes-without q i event r.1 v at s.1, refl))
]

-- What `pop_expired` promises: nothing has expired, or the answer is the first to deliver.
pub data Popped (q : DeadlineQueue) (now : ℕ) : DeadlineQueue × Option TimedEvent → Type 0 where
  nothing :
      ((x : TimedEvent) (d : ℕ) → deadline_of q.entries x ≡ some d → now < d)
      → Popped q now (q, none)
  expired :
      {r : DeadlineQueue} {event : TimedEvent} (due : ℕ)
      → deadline_of q.entries event ≡ some due
      → due ≤ now
      → ((x : TimedEvent) (d : ℕ)
          → deadline_of q.entries x ≡ some d
          → Le (record { deadline = due; event = event }) (record { deadline = d; event = x }))
      → Becomes q (without q event) r
      → length q.entries ≡ suc (length r.entries)
      → Popped q now (r, some event)

pub Popped-cases :
    (q : DeadlineQueue) (now : ℕ) (r : DeadlineQueue × Option TimedEvent)
    → Popped q now r
    → ((r.1 ≡ none)
        × (r.0 ≡ q)
        × ((x : TimedEvent) (d : ℕ) → deadline_of q.entries x ≡ some d → now < d))
      ⊎ ((event : TimedEvent) × (due : ℕ) × (r.1 ≡ some event)
          × (deadline_of q.entries event ≡ some due)
          × (due ≤ now)
          × ((x : TimedEvent) (d : ℕ)
              → deadline_of q.entries x ≡ some d
              → Le (record { deadline = due; event = event }) (record { deadline = d; event = x }))
          × Becomes q (without q event) r.0
          × (length q.entries ≡ suc (length r.0.entries)))
Popped-cases q now _ (nothing none_due) = inl (refl, refl, none_due)
Popped-cases q now _ (expired due at early least b size) =
    inr (_, due, refl, at, early, least, b, size)

first_least :
    (q : DeadlineQueue) (x : TimedEvent) (d : ℕ)
    → IsValid q
    → deadline_of q.entries x ≡ some d
    → Le (entry_at q.entries 0) (record { deadline = d; event = x })
first_least q x d v h =
    let (i, inside, at) = deadline_of-entry q.entries x d h in
    subst (λ e. Le (entry_at q.entries 0) e) at (root_least q.entries i v.heap inside)

-- On a valid queue `pop_expired` ends: either no deadline has come and the queue is as it was, or
-- it answers the event that is first in the order of deadlines and keys, whose deadline has come,
-- and leaves a valid queue with all other events and one entry less.
pub pop_expired-Popped :
    (q : DeadlineQueue) (now : ℕ) → IsValid q → Ends (Popped q now) (pop_expired q now)
unfolding pop_expired
pop_expired-Popped q now v = elim (Option-cases (get_elem? q.entries 0)) [
  | inl e ↦
      rw (e, pop_expired)
        (ends (
          nothing λ x d h.
            let (i, inside, at) = deadline_of-entry q.entries x d h in
            absurd (ground (arith, get_elem?-entry_at q.entries 0))))
  | inr (f, e) ↦
      let inside : 0 < length q.entries = get_elem?-length q.entries 0 f e in
      let first = entry_at q.entries 0 in
      rw (get_elem?-entry_at q.entries 0 inside, pop_expired)
        (Ends-test (ltb now first.deadline)
          (λ w. ends (
            nothing λ x d h. ground (
              arith,
              Le-deadline first (record { deadline = d; event = x }) (first_least q x d v h),
            )))
          (λ w. Ends-then (remove_at-Removed q.entries 0 v.heap inside) λ r s.
            subst (λ e. Ends (Popped q now) (done (with_entries q r.1, some e.event))) (sym s.0)
              (ends (
                expired first.deadline
                  (deadline_of-entry_at q.entries 0 (v.distinct first.event) inside) (ground arith)
                  (λ x d h. first_least q x d v h) (Becomes-without q 0 first.event r.1 v refl s.1)
                  s.1.size))))
]
