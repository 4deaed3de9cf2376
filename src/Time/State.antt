-- ===== src/Time/State.antt =====
-- kernel/src/time.rs: the time state of one CPU, over its deadline queue.
use genrt.Prelude.{
  ℕ, zero, suc, ◌+◌, ◌-◌, ◌*◌, ◌/◌, ◌%◌, ◌^◌, ◌≤◌, ◌<◌, ◌≡◌, ◌≢◌, ◌⊎◌, ◌↔◌, min, max, inl, inr,
  refl, sym, ap, ◌∙◌, subst, Bool, true, false, not, ◌&&◌, ◌||◌, Bool-cases, Option, none, some,
  Option-cases, List, [], ◌∷◌, ◌++◌, map, reverse, arith, length, get_elem?, get_or, set, take,
  drop, replicate, Result, ok, err, ok_or, Result-cases, ok_then, length-set, length-append,
  length-take, length-drop, length-map, length-replicate, take-append-drop, get_elem?-set_self,
  get_elem?-set_ne, ltb, leb, ◌==◌, if◌then◌else◌, ltb→lt, lt→ltb, leb→le, ==_iff, usize_max,
  checked_add, checked_sub, saturating_add, checked_add-some, get_elem?-length,
}
use genrt.Prelude.Running.{Run, done, panic, out_of_fuel, ◌>>=◌, expect}
use genrt.Sched.Ids.{CpuId, ThreadId, WaitToken}
use genrt.Time.Event.{TimedEvent, quantum_expired, wait_deadline_of, cpu_of}
use genrt.Time.Queue.{
  DeadlineQueue, TimeInitError, out_of_memory, try_with_capacity, schedule, cancel, event_pending,
  pop_expired, next_deadline,
}
use genrt.Time.Batch
use genrt.Time.Batch.{ExpiredEvents, push}
mod Examples
pub mod Delivered
pub mod Drain
pub mod Armed
pub mod Steps

pub record TimeState : Type 0 where
  pub queue : DeadlineQueue
  pub armed_timer_deadline : Option ℕ
  pub dispatching_irq : Bool
  pub expired : Option ExpiredEvents

-- The time state of one CPU, and what the timer of each CPU was last programmed with: `none` where
-- it was disarmed. A CPU programs its own timer only.
pub record Timed : Type 0 where
  pub time : TimeState
  pub timers : CpuId → Option ℕ

pub record QuantumUpdate : Type 0 where
  pub obsolete : Option TimedEvent
  pub ensure : Option (ℕ × TimedEvent)

pub try_new : (ℕ → Bool) → ℕ → Result TimeState TimeInitError
unfolding try_with_capacity Batch.try_new
try_new can_reserve capacity = elim (try_with_capacity can_reserve capacity) [
  | err e ↦ err e
  | ok queue ↦ elim (Batch.try_new can_reserve capacity) [
    | err e ↦ err e
    | ok expired ↦ ok (record {
      queue = queue;
      armed_timer_deadline = none;
      dispatching_irq = false;
      expired = some expired;
    })
  ]
]

abbrev pub with_queue : TimeState → DeadlineQueue → TimeState
with_queue time q = record time { queue = q }

-- The timer of the executing CPU programmed.
abbrev pub program_timer_deadline : CpuId → (CpuId → Option ℕ) → Option ℕ → CpuId → Option ℕ
program_timer_deadline cpu timers deadline c = if c == cpu then deadline else timers c

-- `cpu` is the executing CPU, here and below.
pub rearm_timer : CpuId → Timed → Timed
unfolding next_deadline
rearm_timer cpu m = record {
  time = record m.time { armed_timer_deadline = next_deadline m.time.queue };
  timers = program_timer_deadline cpu m.timers (next_deadline m.time.queue);
}

pub schedule_event : Timed → ℕ → TimedEvent → Run Timed
schedule_event m deadline event = do
  q ← schedule m.time.queue deadline event
  done (record m { time = with_queue m.time q })

pub cancel_event : CpuId → Timed → TimedEvent → Bool → Run (Timed × Bool)
unfolding rearm_timer
cancel_event cpu m event rearm = cancel m.time.queue event >>= λ r.
    let m' : Timed = record m { time = with_queue m.time r.0 } in
    if r.1 && not m.time.dispatching_irq && rearm
    then done (rearm_timer cpu m', r.1)
    else done (m', r.1)

pub publish_sleep : CpuId → Timed → ℕ → WaitToken → Run Timed
unfolding cancel_event schedule_event rearm_timer
publish_sleep cpu m deadline token = do
  r ← cancel_event cpu m (quantum_expired token.cpu token.thread) false
  m' ← schedule_event r.0 deadline (wait_deadline_of token)
  done (if m'.time.dispatching_irq then m' else rearm_timer cpu m')

-- The function `publish_sleep` of the module, on the time state of the token's CPU.
pub sleep_here : CpuId → Timed → ℕ → WaitToken → Run Timed
unfolding publish_sleep
sleep_here cpu m deadline token =
    if token.cpu == cpu then publish_sleep cpu m deadline token else panic

-- The function `schedule_event` of the module, on the time state of the executing CPU.
pub schedule_here : CpuId → Timed → ℕ → TimedEvent → Run Timed
unfolding schedule_event rearm_timer
schedule_here cpu m deadline event =
    let publish : Run Timed = schedule_event m deadline event >>= λ m'.
    done (if m'.time.dispatching_irq then m' else rearm_timer cpu m') in
    if cpu_of event == cpu then publish else panic

-- The function `cancel_event` of the module, on the time state of the event's owner, which alone may
-- program its timer.
pub cancel_here : CpuId → Timed → TimedEvent → Run Timed
unfolding cancel_event
cancel_here cpu m event = do r ← cancel_event cpu m event (cpu == cpu_of event); done r.0

-- `while let Some(event) = self.queue.pop_expired(now)`.
pub drain : ℕ → DeadlineQueue → ExpiredEvents → CpuId → ℕ → Run (DeadlineQueue × ExpiredEvents)
drain zero q batch cpu now = out_of_fuel
drain (suc fuel) q batch cpu now = pop_expired q now >>= λ r. elim r.1 [
  | none ↦ done (r.0, batch)
  | some event ↦
      let deliver : Run (DeadlineQueue × ExpiredEvents) =
        push batch event >>= λ batch'. drain fuel r.0 batch' cpu now in
      if cpu_of event == cpu then deliver else panic
]

pub take_expired : Timed → CpuId → ℕ → Run (Timed × ExpiredEvents)
unfolding drain
take_expired m cpu now = do
  batch ← expect m.time.expired
  r ← drain (length m.time.queue.entries + 1) m.time.queue batch cpu now
  done (
    record m { time = record m.time { queue = r.0; dispatching_irq = true; expired = none } },
    r.1,
  )

-- What `on_timer_interrupt` does with the update that the scheduler returns.
pub ensure_quantum : Timed → Option (ℕ × TimedEvent) → Run Timed
unfolding schedule_event
ensure_quantum m none = done m
ensure_quantum m (some (deadline, event)) =
    if event_pending m.time.queue event then done m else schedule_event m deadline event

pub cancel_obsolete : CpuId → Timed → Option TimedEvent → Run Timed
unfolding cancel_event
cancel_obsolete cpu m none = done m
cancel_obsolete cpu m (some event) = cancel_event cpu m event false >>= λ r. done r.0

pub finish_interrupt : CpuId → Timed → QuantumUpdate → ExpiredEvents → Run Timed
unfolding ensure_quantum cancel_obsolete rearm_timer
finish_interrupt cpu m quantum batch = do
  m' ← cancel_obsolete cpu m quantum.obsolete
  m'' ← ensure_quantum m' quantum.ensure
  done (
      rearm_timer cpu (record m'' {
        time = record m''.time {
          expired = some (record batch { len = 0 });
          dispatching_irq = false;
        };
      }))
