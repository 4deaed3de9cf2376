-- ===== src/Time/State/Armed.antt =====
-- kernel/src/time.rs: the timer is never armed after the first deadline.
use genrt.Prelude.{
  ℕ, zero, suc, ◌≤◌, ◌≡◌, inl, inr, refl, sym, ap, ◌∙◌, subst, Bool, true, false, Bool-cases,
  Option, none, some, Option-cases, arith, length, get_elem?, ltb, leb, ◌==◌, ==_iff,
  get_elem?-length,
}
use genrt.Prelude.Running.{
  Ends-map, Safe, value, panicked, unfuelled, Ends-Safe, Safe-any, Safe-then, Safe-test,
}
use genrt.Sched.Ids.{CpuId}
use genrt.Time.Event.{TimedEvent, cpu_of, Le-deadline}
use genrt.Time.Batch.{ExpiredEvents, push}
use genrt.Time.Queue.{DeadlineQueue, schedule, event_pending, next_deadline}
use genrt.Time.Queue.Order.{entry_at, get_elem?-entry_at, root_least}
use genrt.Time.Queue.View.{deadline_of, IsValid, deadline_of-entry, deadline_of-entry_at}
use genrt.Time.Queue.Effect.{Becomes}
use genrt.Time.Queue.Refine.{
  without, Popped-cases, pop_expired-Popped, schedule-Becomes, schedule-panic,
}
use genrt.Time.State.{Timed, rearm_timer, drain}

-- A timer armed with `a` fires no later than the deadline.
unfoldable pub in_time : Option ℕ → Option ℕ → Bool
in_time none a = true
in_time (some d) none = false
in_time (some d) (some a) = leb a d

-- What holds of the owner's time state between its operations, in the interrupt or outside.
pub record IsArmed (owner : CpuId) (inside : Bool) (m : Timed) : Type 0 where
  pub valid : IsValid m.time.queue
  pub programmed : m.timers owner ≡ m.time.armed_timer_deadline
  pub marked : m.time.dispatching_irq ≡ inside
  pub prompt :
      inside ≡ false → in_time (next_deadline m.time.queue) m.time.armed_timer_deadline ≡ true

-- The next deadline is one of the deadlines, and the first.
next_deadline-held :
    (q : DeadlineQueue) (d : ℕ)
    → IsValid q
    → next_deadline q ≡ some d
    → (x : TimedEvent) × (deadline_of q.entries x ≡ some d)
unfolding next_deadline
next_deadline-held q d v h = elim (Option-cases (get_elem? q.entries 0)) [
  | inl e ↦ absurd (ground arith)
  | inr (f, e) ↦
      let inside = get_elem?-length q.entries 0 f e in
      let at = get_elem?-entry_at q.entries 0 inside in
      let due : (entry_at q.entries 0).deadline ≡ d = ground arith in
      (
        (entry_at q.entries 0).event,
        deadline_of-entry_at q.entries 0 (v.distinct _) inside ∙ ap some due,
      )
]

next_deadline-least :
    (q : DeadlineQueue) (x : TimedEvent) (e : ℕ)
    → IsValid q
    → deadline_of q.entries x ≡ some e
    → (d : ℕ) × (next_deadline q ≡ some d) × (d ≤ e)
unfolding next_deadline
next_deadline-least q x e v h =
    let (i, inside, at) = deadline_of-entry q.entries x e h in
    let first = get_elem?-entry_at q.entries 0 (omega arith) in
    let least = Le-deadline _ _ (root_least q.entries i v.heap inside) in
    (
      (entry_at q.entries 0).deadline,
      rw (first, next_deadline) refl,
      let same = ap (λ f. f.deadline) at in ground arith,
    )

pub in_time-later :
    (q r : DeadlineQueue) (a : Option ℕ)
    → IsValid q
    → IsValid r
    → ((x : TimedEvent) (d : ℕ)
        → deadline_of r.entries x ≡ some d
        → deadline_of q.entries x ≡ some d)
    → in_time (next_deadline q) a ≡ true
    → in_time (next_deadline r) a ≡ true
unfolding in_time
in_time-later q r a v w sub h = elim (Option-cases (next_deadline r)) [
  | inl e ↦ rw e refl
  | inr (d, e) ↦
      let (x, held) = next_deadline-held r d w e in
      let (n, first, before) = next_deadline-least q x d v (sub x d held) in ground arith
]

pub in_time_refl : (d : Option ℕ) → in_time d d ≡ true
unfolding in_time
in_time_refl none = refl
in_time_refl (some d) = ground arith

pub without-sub :
    (q r : DeadlineQueue) (event x : TimedEvent) (d : ℕ)
    → Becomes q (without q event) r
    → deadline_of r.entries x ≡ some d
    → deadline_of q.entries x ≡ some d
without-sub q r event x d b h = let kept = b.deadlines x in ground arith

pub schedule-IsValid :
    (q : DeadlineQueue) (d : ℕ) (event : TimedEvent) → IsValid q → Safe IsValid (schedule q d event)
schedule-IsValid q d event v = elim (Bool-cases (event_pending q event)) [
  | inl e ↦ Ends-Safe (Ends-map (schedule-Becomes q d event v (inl e)) λ r b. b.valid)
  | inr e ↦ elim (Bool-cases (ltb (length q.entries) q.capacity)) [
    | inl w ↦
        Ends-Safe (Ends-map (schedule-Becomes q d event v (inr (ground arith))) λ r b. b.valid)
    | inr w ↦ rw ((schedule-panic q d event v).1 (e, ground (arith, v.bounded))) panicked
  ]
]

pub rearm-IsArmed :
    (owner : CpuId) (inside : Bool) (m : Timed)
    → IsValid m.time.queue
    → m.time.dispatching_irq ≡ inside
    → IsArmed owner inside (rearm_timer owner m)
unfolding rearm_timer
rearm-IsArmed owner inside m v e = record {
  valid = v;
  programmed = rw ((==_iff owner owner).1 refl) refl;
  marked = e;
  prompt = λ h. in_time_refl (next_deadline m.time.queue);
}

pub drain-IsValid :
    (fuel : ℕ) (q : DeadlineQueue) (batch : ExpiredEvents) (cpu : CpuId) (now : ℕ)
    → IsValid q
    → Safe (λ s. IsValid s.0) (drain fuel q batch cpu now)
unfolding drain
drain-IsValid zero q batch cpu now v = unfuelled
drain-IsValid (suc fuel) q batch cpu now v =
    Safe-then (Ends-Safe (pop_expired-Popped q now v)) λ r p. elim (Popped-cases q now r p) [
      | inl (answer, same, rest) ↦ rw answer (value (subst IsValid (sym same) v))
      | inr (event, due, answer, at, early, least, b, size) ↦ rw answer (
          Safe-test (cpu_of event == cpu)
            (λ e.
              Safe-then (Safe-any (push batch event))
                λ batch' w. drain-IsValid fuel r.0 batch' cpu now b.valid)
            (λ e. panicked))
    ]
