-- ===== src/Time/State/Drain.antt =====
-- kernel/src/time.rs: the batch of expired events that the timer interrupt takes.
use genrt.Prelude.{
  ℕ, zero, suc, ◌+◌, ◌≤◌, ◌<◌, ◌≡◌, inl, inr, refl, sym, ◌∙◌, subst, true, Bool-cases, none, some,
  List, [], ◌∷◌, ◌++◌, arith, length, ◌==◌,
}
use mathlib.Core.List.{append-nil, append_assoc}
use genrt.Prelude.Running.{Run, done, Ends, ends, Ends-map, Ends-then}
use genrt.Sched.Ids.{CpuId}
use genrt.Time.Event.{TimedEvent, cpu_of, event_eq, Le}
use genrt.Time.Queue.{DeadlineQueue}
use genrt.Time.Queue.View.{deadline_of, IsValid}
use genrt.Time.Queue.Effect.{Becomes}
use genrt.Time.Queue.Refine.{without, Popped-cases, pop_expired-Popped}
use genrt.Time.Batch.{ExpiredEvents, iter}
use genrt.Time.State.{drain}
use genrt.Time.Batch.Held.{Holds, Holds-iter, push-Holds}
use genrt.Time.State.Delivered.{Delivered, Delivered-none, Delivered-next}
use genrt.Time.State.{Timed, take_expired}

-- What the loop leaves: the events in the batch after those that it held.
record Drained (q : DeadlineQueue) (now : ℕ) (held : List TimedEvent)
    (r : DeadlineQueue × ExpiredEvents) : Type 0 where
  events : List TimedEvent
  holds : Holds r.1 (held ++ events)
  delivered : Delivered q now events r.0

-- The interrupt holds the batch, which lists the events that were due.
pub record Taken (m : Timed) (now : ℕ) (r : Timed × ExpiredEvents) : Type 0 where
  pub events : List TimedEvent
  pub listed : iter r.1 ≡ done events
  pub taken :
      (r.0.time.expired ≡ none) × (r.0.time.dispatching_irq ≡ true) × (r.0.timers ≡ m.timers)
  pub delivered : Delivered m.time.queue now events r.0.time.queue

abbrev pub OwnedBy : CpuId → DeadlineQueue → Type 0
OwnedBy cpu q = (x : TimedEvent) (d : ℕ) → deadline_of q.entries x ≡ some d → cpu_of x ≡ cpu

-- A `Drained` loop goes on after an event.
Drained-next :
    (q r : DeadlineQueue) (now : ℕ) (event : TimedEvent) (due : ℕ) (held : List TimedEvent)
    (m : Run (DeadlineQueue × ExpiredEvents))
    → deadline_of q.entries event ≡ some due
    → due ≤ now
    → ((x : TimedEvent) (d : ℕ)
        → deadline_of q.entries x ≡ some d
        → Le (record { deadline = due; event = event }) (record { deadline = d; event = x }))
    → Becomes q (without q event) r
    → length q.entries ≡ suc (length r.entries)
    → Ends (Drained r now (held ++ event ∷ [])) m
    → Ends (Drained q now held) m
Drained-next q r now event due held m at early least b size run = Ends-map run λ s d. record {
  events = event ∷ d.events;
  holds = subst (Holds s.1) (append_assoc held (event ∷ []) d.events) d.holds;
  delivered = Delivered-next q r now event due d.events s.0 at early least b size d.delivered;
}

OwnedBy-without :
    (q r : DeadlineQueue) (event : TimedEvent) (cpu : CpuId)
    → OwnedBy cpu q
    → Becomes q (without q event) r
    → OwnedBy cpu r
OwnedBy-without q r event cpu own b x d h = elim (Bool-cases (event_eq event x)) [
  | inl w ↦
      let gone : deadline_of r.entries x ≡ none = b.deadlines x ∙ rw w refl in absurd (ground arith)
  | inr w ↦
      let kept : deadline_of r.entries x ≡ deadline_of q.entries x = b.deadlines x ∙ rw w refl in
      own x d (sym kept ∙ h)
]

drain-Drained :
    (fuel : ℕ) (q : DeadlineQueue) (batch : ExpiredEvents) (cpu : CpuId) (now : ℕ)
    (held : List TimedEvent)
    → length q.entries < fuel
    → IsValid q
    → OwnedBy cpu q
    → Holds batch held
    → batch.len + length q.entries ≤ length batch.entries
    → Ends (Drained q now held) (drain fuel q batch cpu now)
unfolding drain
drain-Drained zero q batch cpu now held enough v own h room = absurd (omega arith)
drain-Drained (suc fuel) q batch cpu now held enough v own h room =
    Ends-then (pop_expired-Popped q now v) λ r p. elim (Popped-cases q now r p) [
      | inl (answer, same, none_due) ↦
          rw (answer, same)
            (ends (record {
              events = [];
              holds = subst (Holds batch) (sym (append-nil held)) h;
              delivered = Delivered-none q now v none_due;
            }))
      | inr (event, due, answer, at, early, least, b, size) ↦
          let mine : cpu_of event == cpu ≡ true = ground (arith, own event due at) in
          let go = Ends-then (push-Holds batch held event h (omega (arith, size))) λ batch' w.
            drain-Drained fuel r.0 batch' cpu now (held ++ event ∷ []) (omega (arith, size)) b.valid
              (OwnedBy-without q r.0 event cpu own b) w.0 (omega (arith, w.1, w.2, size)) in
          rw (answer, mine) (Drained-next q r.0 now event due held _ at early least b size go)
    ]

-- With an empty batch as large as the queue and only events of the CPU, the loop of `take_expired`
-- ends, and neither panics nor outgrows the batch: the batch lists the events whose deadlines have
-- come, no other, earliest first, and the queue keeps those that are later.
pub take_expired-Delivered :
    (m : Timed) (cpu : CpuId) (now : ℕ) (batch : ExpiredEvents)
    → IsValid m.time.queue
    → OwnedBy cpu m.time.queue
    → m.time.expired ≡ some batch
    → batch.len ≡ 0
    → length batch.entries ≡ m.time.queue.capacity
    → Ends (Taken m now) (take_expired m cpu now)
unfolding take_expired
take_expired-Delivered m cpu now batch v own ready empty room = rw ready (
    Ends-then
      (drain-Drained (length m.time.queue.entries + 1) m.time.queue batch cpu now [] (omega arith) v
        own (record { inside = omega arith; prefix = rw empty refl }) (omega (arith, v.bounded)))
      λ r d. ends (record {
        events = d.events;
        listed = Holds-iter r.1 d.events d.holds;
        taken = (refl, refl, refl);
        delivered = d.delivered;
      }))
