-- ===== src/Time/Batch.antt =====
-- kernel/src/time.rs: the buffer of the events that expired at one interrupt.
use genrt.Prelude.{
  ℕ, zero, suc, ◌+◌, ◌-◌, ◌*◌, ◌/◌, ◌%◌, ◌^◌, ◌≤◌, ◌<◌, ◌≡◌, ◌≢◌, ◌⊎◌, ◌↔◌, min, max, inl, inr,
  refl, sym, ap, ◌∙◌, subst, Bool, true, false, not, ◌&&◌, ◌||◌, Bool-cases, Option, none, some,
  Option-cases, List, [], ◌∷◌, ◌++◌, map, reverse, arith, length, get_elem?, get_or, set, take,
  drop, replicate, Result, ok, err, ok_or, Result-cases, ok_then, length-set, length-append,
  length-take, length-drop, length-map, length-replicate, take-append-drop, get_elem?-set_self,
  get_elem?-set_ne, ltb, leb, ◌==◌, if◌then◌else◌, ltb→lt, lt→ltb, leb→le, ==_iff, usize_max,
  checked_add, checked_sub, saturating_add, checked_add-some, get_elem?-length,
}
use genrt.Prelude.Running.{Run, done, panic, out_of_fuel, ◌>>=◌, expect}
use genrt.Sched.Ids.{CpuId, ThreadId, WaitToken}
use genrt.Time.Event.{TimedEvent, quantum_expired, wait_deadline_of, cpu_of}
use genrt.Time.Queue.{
  DeadlineQueue, TimeInitError, out_of_memory, try_with_capacity, schedule, cancel, event_pending,
  pop_expired, next_deadline,
}
pub mod Held

-- `len` slots of `entries` are the batch.
pub record ExpiredEvents : Type 0 where
  pub entries : List (Option TimedEvent)
  pub len : ℕ

unfoldable pub try_new : (ℕ → Bool) → ℕ → Result ExpiredEvents TimeInitError
try_new can_reserve capacity =
    if can_reserve capacity
    then ok (record { entries = replicate capacity none; len = 0 })
    else err out_of_memory

unfoldable pub push : ExpiredEvents → TimedEvent → Run ExpiredEvents
push batch event =
    if ltb batch.len (length batch.entries)
    then done (record { entries = set batch.entries batch.len (some event); len = batch.len + 1 })
    else panic

-- Every slot holds an event.
unfoldable pub filled : List (Option TimedEvent) → Run (List TimedEvent)
filled [] = done []
filled (slot ∷ slots) = do event ← expect slot; events ← filled slots; done (event ∷ events)

-- The slice panics where the length is past the slots.
unfoldable pub iter : ExpiredEvents → Run (List TimedEvent)
unfolding filled
iter batch =
    if leb batch.len (length batch.entries) then filled (take batch.len batch.entries) else panic

pub single : ExpiredEvents → Run (Option TimedEvent)
single batch =
    if batch.len == 1
    then (expect (get_elem? batch.entries 0) >>= λ slot. expect slot >>= λ event. done (some event))
    else done none
