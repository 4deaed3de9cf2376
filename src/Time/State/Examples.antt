-- ===== src/Time/State/Examples.antt =====
-- kernel/src/time.rs: a CPU's time state on concrete events.
use genrt.Prelude.{ℕ, refl, false, none, some, [], ◌∷◌, arith, ◌==◌, if◌then◌else◌}
use genrt.Prelude.Running.{Ends}
use genrt.Sched.Ids.{thread_eq}
use genrt.Time.Event.{TimedEvent, quantum_expired, event_eq, event_eq_iff, cpu_of, entry_less}
use genrt.Time.Batch.{ExpiredEvents}
use genrt.Time.Queue.{DeadlineQueue, next_deadline, cancel, swap}
use genrt.Time.Queue.Order.{entry_at, tally}
use genrt.Time.Queue.View.{IsValid, deadline_of}
use genrt.Time.State.{Timed, take_expired, cancel_here}
use genrt.Time.State.Drain.{OwnedBy, Taken, take_expired-Delivered}
use genrt.Time.State.Armed.{IsArmed, in_time}
use genrt.Time.State.Steps.{Step, cancelled, Step-IsArmed}

abbrev quantum : ℕ → TimedEvent
quantum i = quantum_expired 0 (record { index = i; generation = 1 })

-- One event, at 10, armed for it.
abbrev one_event : DeadlineQueue
one_event = record { entries = record { deadline = 10; event = quantum 1 } ∷ []; capacity = 2 }

abbrev batch : ExpiredEvents
batch = record { entries = none ∷ none ∷ []; len = 0 }

abbrev armed : Timed
armed = record {
  time = record {
    queue = one_event;
    armed_timer_deadline = some 10;
    dispatching_irq = false;
    expired = some batch;
  };
  timers = λ c. if c == 0 then some 10 else none;
}

one_event-IsValid : IsValid one_event
unfolding tally entry_at entry_less
one_event-IsValid = record {
  heap = λ c p q. absurd (omega arith);
  distinct = λ x. grind arith;
  bounded = omega arith;
}

one_event-OwnedBy : OwnedBy 0 one_event
unfolding deadline_of cpu_of
one_event-OwnedBy x d h = grind (arith, event_eq_iff (quantum 1) x)

take_expired-Delivered_example : Ends (Taken armed 15) (take_expired armed 0 15)
take_expired-Delivered_example =
    take_expired-Delivered armed 0 15 batch one_event-IsValid one_event-OwnedBy refl refl refl

armed-IsArmed : IsArmed 0 false armed
unfolding in_time next_deadline
armed-IsArmed = record {
  valid = one_event-IsValid;
  programmed = refl;
  marked = refl;
  prompt = λ idle. refl;
}

-- Another CPU cancels the event: the timer stays armed.
abbrev cancelled_remotely : Timed
cancelled_remotely = record {
  time = record {
    queue = record { entries = []; capacity = 2 };
    armed_timer_deadline = some 10;
    dispatching_irq = false;
    expired = some batch;
  };
  timers = λ c. if c == 0 then some 10 else none;
}

step : Step 0 false armed false cancelled_remotely
unfolding cancel_here cancel swap event_eq thread_eq cpu_of
step = cancelled {m = armed} {m' = cancelled_remotely} 1 (quantum 1) refl refl

Step-IsArmed_example : IsArmed 0 false cancelled_remotely
Step-IsArmed_example = Step-IsArmed 0 false false armed cancelled_remotely step armed-IsArmed
