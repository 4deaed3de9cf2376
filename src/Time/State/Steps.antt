-- ===== src/Time/State/Steps.antt =====
-- kernel/src/time.rs: the operations of a CPU's time state keep its timer in time.
use genrt.Prelude.{
  ℕ, ◌≡◌, inl, inr, refl, Bool, false, not, ◌&&◌, Bool-cases, Option, none, some, arith, ◌==◌,
  ==_iff, ◌≢◌, subst, sym, true, ◌∙◌, if◌then◌else◌,
}
use genrt.Prelude.Running.{
  done, expect, Safe, value, panicked, Ends-Safe, Safe-any, Safe-then, Safe-test, Safe-value,
}
use genrt.Sched.Ids.{CpuId, WaitToken}
use genrt.Time.Event.{TimedEvent, quantum_expired, cpu_of}
use genrt.Time.Batch.{ExpiredEvents}
use genrt.Time.Queue.{event_pending}
use genrt.Time.Queue.View.{IsValid}
use genrt.Time.Queue.Refine.{cancel-Becomes}
use genrt.Time.State.{
  Timed, with_queue, QuantumUpdate, rearm_timer, schedule_event, schedule_here, cancel_event,
  cancel_here, publish_sleep, sleep_here, program_timer_deadline, take_expired, cancel_obsolete,
  ensure_quantum, finish_interrupt,
}
use genrt.Time.State.Armed.{
  IsArmed, in_time-later, without-sub, schedule-IsValid, rearm-IsArmed, drain-IsValid,
}

cancel_event-IsArmed :
    (owner : CpuId) (inside : Bool) (cpu : CpuId) (m : Timed) (event : TimedEvent) (rearm : Bool)
    → IsArmed owner inside m
    → (rearm ≡ true → cpu ≡ owner)
    → Safe (λ r. IsArmed owner inside r.0) (cancel_event cpu m event rearm)
unfolding cancel_event
cancel_event-IsArmed owner inside cpu m event rearm v own =
    Safe-then (Ends-Safe (cancel-Becomes m.time.queue event v.valid)) λ c b.
      Safe-test (c.1 && not m.time.dispatching_irq && rearm)
        (λ e. value (
          let m' : Timed = record m { time = with_queue m.time c.0 } in
          subst (λ z. IsArmed owner inside (rearm_timer z m')) (sym (own (ground arith)))
            (rearm-IsArmed owner inside m' b.0.valid v.marked)))
        (λ e. value (record {
          valid = b.0.valid;
          programmed = v.programmed;
          marked = v.marked;
          prompt = λ idle.
              in_time-later m.time.queue c.0 _ v.valid b.0.valid
                (λ x d. without-sub m.time.queue c.0 event x d b.0) (v.prompt idle);
        }))

module _ (owner : CpuId) (inside : Bool) where
  -- What holds while the deadlines change and the timer is still to be programmed.
  record IsReady (m : Timed) : Type 0 where
    valid : IsValid m.time.queue
    programmed : m.timers owner ≡ m.time.armed_timer_deadline
    marked : m.time.dispatching_irq ≡ inside

  schedule_event-IsReady :
      (m : Timed) (d : ℕ) (event : TimedEvent) → IsReady m → Safe IsReady (schedule_event m d event)
  unfolding schedule_event
  schedule_event-IsReady m d event v =
      Safe-then (schedule-IsValid m.time.queue d event v.valid)
        λ q w. value (record { valid = w; programmed = v.programmed; marked = v.marked })

  IsArmed-IsReady : (m : Timed) → IsArmed owner inside m → IsReady m
  IsArmed-IsReady m v = record { valid = v.valid; programmed = v.programmed; marked = v.marked }

  -- The timer is programmed, or the interrupt that runs will do it.
  programmed-IsArmed :
      (m : Timed)
      → IsReady m
      → IsArmed owner inside (if m.time.dispatching_irq then m else rearm_timer owner m)
  programmed-IsArmed m v = elim (Bool-cases m.time.dispatching_irq) [
    | inl e ↦ simp e (record {
      valid = v.valid;
      programmed = v.programmed;
      marked = v.marked;
      prompt = λ idle. ground (arith, v.marked);
    })
    | inr e ↦ simp e (rearm-IsArmed owner inside m v.valid v.marked)
  ]

  cancel_obsolete-IsReady :
      (m : Timed) (obsolete : Option TimedEvent)
      → IsArmed owner inside m
      → Safe IsReady (cancel_obsolete owner m obsolete)
  unfolding cancel_obsolete
  cancel_obsolete-IsReady m none v = value (IsArmed-IsReady m v)
  cancel_obsolete-IsReady m (some event) v =
      Safe-then (cancel_event-IsArmed owner inside owner m event false v (λ h. refl))
        λ r w. value (IsArmed-IsReady r.0 w)

  ensure_quantum-IsReady :
      (m : Timed) (ensure : Option (ℕ × TimedEvent))
      → IsReady m
      → Safe IsReady (ensure_quantum m ensure)
  unfolding ensure_quantum
  ensure_quantum-IsReady m none v = value v
  ensure_quantum-IsReady m (some (d, event)) v =
      Safe-test (event_pending m.time.queue event) (λ e. value v)
        (λ e. schedule_event-IsReady m d event v)

  schedule_here-IsArmed :
      (m : Timed) (d : ℕ) (event : TimedEvent)
      → IsArmed owner inside m
      → Safe (IsArmed owner inside) (schedule_here owner m d event)
  unfolding schedule_here
  schedule_here-IsArmed m d event v =
      Safe-test (cpu_of event == owner)
        (λ e.
          Safe-then (schedule_event-IsReady m d event (IsArmed-IsReady m v))
            λ m' w. value (programmed-IsArmed m' w))
        (λ e. panicked)

  cancel_here-IsArmed :
      (cpu : CpuId) (m : Timed) (event : TimedEvent)
      → cpu_of event ≡ owner
      → IsArmed owner inside m
      → Safe (IsArmed owner inside) (cancel_here cpu m event)
  unfolding cancel_here
  cancel_here-IsArmed cpu m event own v =
      Safe-then
        (cancel_event-IsArmed owner inside cpu m event (cpu == cpu_of event) v
          (λ h. (==_iff cpu (cpu_of event)).0 h ∙ own))
        λ r w. value w

  sleep_here-IsArmed :
      (cpu : CpuId) (m : Timed) (d : ℕ) (token : WaitToken)
      → token.cpu ≡ owner
      → IsArmed owner inside m
      → Safe (IsArmed owner inside) (sleep_here cpu m d token)
  unfolding sleep_here publish_sleep
  sleep_here-IsArmed cpu m d token own v =
      Safe-test (token.cpu == cpu)
        (λ e.
          let same : cpu ≡ owner = sym ((==_iff token.cpu cpu).0 e) ∙ own in
          Safe-then
            (cancel_event-IsArmed owner inside cpu m (quantum_expired token.cpu token.thread) false
              v (λ h. same))
            λ r w. Safe-then (schedule_event-IsReady r.0 d _ (IsArmed-IsReady r.0 w)) λ m' z.
              value (
                subst
                  (λ c.
                    IsArmed owner inside (if m'.time.dispatching_irq then m' else rearm_timer c m'))
                  (sym same) (programmed-IsArmed m' z)))
        (λ e. panicked)

take_expired-IsArmed :
    (owner : CpuId) (m : Timed) (now : ℕ)
    → IsArmed owner false m
    → Safe (λ r. IsArmed owner true r.0) (take_expired m owner now)
unfolding take_expired
take_expired-IsArmed owner m now v = Safe-then (Safe-any (expect m.time.expired)) λ batch u.
    Safe-then (drain-IsValid _ m.time.queue batch owner now v.valid) λ r w. value (record {
      valid = w;
      programmed = v.programmed;
      marked = refl;
      prompt = λ idle. ground arith;
    })

finish_interrupt-IsArmed :
    (owner : CpuId) (m : Timed) (quantum : QuantumUpdate) (batch : ExpiredEvents)
    → IsArmed owner true m
    → Safe (IsArmed owner false) (finish_interrupt owner m quantum batch)
unfolding finish_interrupt
finish_interrupt-IsArmed owner m quantum batch v =
    Safe-then (cancel_obsolete-IsReady owner true m quantum.obsolete v) λ m' w.
      Safe-then (ensure_quantum-IsReady owner true m' quantum.ensure w) λ m'' z. value (
        rearm-IsArmed owner false
          (record m'' {
            time = record m''.time {
              expired = some (record batch { len = 0 });
              dispatching_irq = false;
            };
          })
          z.valid refl)

-- The operations on the owner's time state, where they end: from outside or in the timer interrupt,
-- to outside or in it. Any CPU may cancel its events, and other CPUs program their own timers.
pub data Step (owner : CpuId) : Bool → Timed → Bool → Timed → Type 0 where
  scheduled :
      {inside : Bool} {m m' : Timed} (deadline : ℕ) (event : TimedEvent)
      → schedule_here owner m deadline event ≡ done m'
      → Step owner inside m inside m'
  cancelled :
      {inside : Bool} {m m' : Timed} (cpu : CpuId) (event : TimedEvent)
      → cpu_of event ≡ owner
      → cancel_here cpu m event ≡ done m'
      → Step owner inside m inside m'
  slept :
      {inside : Bool} {m m' : Timed} (cpu : CpuId) (deadline : ℕ) (token : WaitToken)
      → token.cpu ≡ owner
      → sleep_here cpu m deadline token ≡ done m'
      → Step owner inside m inside m'
  interrupted :
      {m m' : Timed} (now : ℕ) (batch : ExpiredEvents)
      → take_expired m owner now ≡ done (m', batch)
      → Step owner false m true m'
  finished :
      {m m' : Timed} (quantum : QuantumUpdate) (batch : ExpiredEvents)
      → finish_interrupt owner m quantum batch ≡ done m'
      → Step owner true m false m'
  elsewhere :
      {inside : Bool} {m m' : Timed} (cpu : CpuId) (deadline : Option ℕ)
      → cpu ≢ owner
      → m' ≡ record m { timers = program_timer_deadline cpu m.timers deadline }
      → Step owner inside m inside m'

elsewhere-IsArmed :
    (owner : CpuId) (inside : Bool) (m : Timed) (cpu : CpuId) (deadline : Option ℕ)
    → cpu ≢ owner
    → IsArmed owner inside m
    → IsArmed owner inside (record m { timers = program_timer_deadline cpu m.timers deadline })
elsewhere-IsArmed owner inside m cpu deadline apart v =
    let other : (owner == cpu) ≡ false = ground arith in
    record {
      valid = v.valid;
      programmed = rw other v.programmed;
      marked = v.marked;
      prompt = v.prompt;
    }

-- Whatever operation ends, on the owner's CPU or another: the queue is valid, the owner's timer is
-- programmed as recorded, the interrupt is marked while it runs and not outside, and outside it the
-- timer is armed no later than the first deadline.
pub Step-IsArmed :
    (owner : CpuId) (before after : Bool) (m m' : Timed)
    → Step owner before m after m'
    → IsArmed owner before m
    → IsArmed owner after m'
Step-IsArmed owner before _ m m' (scheduled d event h) v =
    Safe-value (schedule_here-IsArmed owner before m d event v) h
Step-IsArmed owner before _ m m' (cancelled cpu event own h) v =
    Safe-value (cancel_here-IsArmed owner before cpu m event own v) h
Step-IsArmed owner before _ m m' (slept cpu d token own h) v =
    Safe-value (sleep_here-IsArmed owner before cpu m d token own v) h
Step-IsArmed owner _ _ m m' (interrupted now batch h) v =
    Safe-value (take_expired-IsArmed owner m now v) h
Step-IsArmed owner _ _ m m' (finished quantum batch h) v =
    Safe-value (finish_interrupt-IsArmed owner m quantum batch v) h
Step-IsArmed owner before _ m m' (elsewhere cpu deadline apart h) v =
    subst (IsArmed owner before) (sym h) (elsewhere-IsArmed owner before m cpu deadline apart v)
