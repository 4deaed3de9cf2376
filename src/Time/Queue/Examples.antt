-- ===== src/Time/Queue/Examples.antt =====
-- kernel/src/time.rs: the deadline queue on concrete events.
use genrt.Prelude.{ℕ, ◌≡◌, ◌↔◌, inl, refl, subst, ◌-◌, ◌/◌, false, [], ◌∷◌, arith, length}
use genrt.Sched.Ids.{thread_eq}
use genrt.Prelude.Running.{panic, Ends}
use genrt.Time.Event.{TimedEvent, quantum_expired, event_eq, event_eq_iff, entry_less, Le}
use genrt.Time.Queue.{DeadlineQueue, schedule, cancel, pop_expired, event_pending}
use genrt.Time.Queue.Order.{entry_at, tally}
use genrt.Time.Queue.View.{IsValid}
use genrt.Time.Queue.Effect.{Becomes}
use genrt.Time.Queue.Refine.{
  without, with_deadline, Popped, schedule-Becomes, schedule-panic, cancel-Becomes,
  pop_expired-Popped,
}

abbrev pub quantum : ℕ → TimedEvent
quantum i = quantum_expired 0 (record { index = i; generation = 1 })

-- Two events, at 10 and at 20, and no more room.
abbrev pub two_events : DeadlineQueue
two_events = record {
  entries =
      record { deadline = 10; event = quantum 1 }
      ∷ record { deadline = 20; event = quantum 2 }
      ∷ [];
  capacity = 2;
}

differ : event_eq (quantum 1) (quantum 2) ≡ false
unfolding event_eq thread_eq
differ = refl

pub two_events-IsValid : IsValid two_events
unfolding tally entry_at entry_less event_eq
two_events-IsValid = record {
  heap = λ c p q.
      subst (λ j. Le (entry_at two_events.entries ((j - 1) / 2)) (entry_at two_events.entries j))
        {x = 1} {y = c} (omega arith) refl;
  distinct = λ x. grind (arith, event_eq_iff (quantum 1) x, event_eq_iff (quantum 2) x, differ);
  bounded = omega arith;
}

schedule-Becomes_example :
    Ends
      (Becomes two_events (with_deadline two_events (quantum 1) 30))
      (schedule two_events 30 (quantum 1))
unfolding event_pending event_eq thread_eq
schedule-Becomes_example = schedule-Becomes two_events 30 (quantum 1) two_events-IsValid (inl refl)

schedule-panic_example : (schedule two_events 30 (quantum 3) ≡ panic) ↔ (
    (event_pending two_events (quantum 3) ≡ false)
    × (length two_events.entries ≡ two_events.capacity))
schedule-panic_example = schedule-panic two_events 30 (quantum 3) two_events-IsValid

cancel-Becomes_example :
    Ends
      (λ r.
        Becomes two_events (without two_events (quantum 1)) r.0
        × (r.1 ≡ event_pending two_events (quantum 1)))
      (cancel two_events (quantum 1))
cancel-Becomes_example = cancel-Becomes two_events (quantum 1) two_events-IsValid

pop_expired-Popped_example : Ends (Popped two_events 15) (pop_expired two_events 15)
pop_expired-Popped_example = pop_expired-Popped two_events 15 two_events-IsValid
