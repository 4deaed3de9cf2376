-- ===== src/Sched/Wait/Examples.antt =====
-- The wait state machine at one slot of CPU 0.
use genrt.Prelude.{◌≡◌, refl, ◌⊎◌, none, some, ok, err, returns}
use genrt.Sched.Ids.{ThreadId, WaitToken}
use genrt.Sched.Wait.{
  notified, timeout, explicit, blocked, prepared, WaitMetadata, PreparedWait, CompletionResult,
  completed_prepared, woke_blocked, already_completed, CommitState, block, early, CancelResult,
  FinishError, prepare_with_consumption, commit, complete, cancel, finish, with_next_sequence,
}
use genrt.Sched.Wait.Laws.{complete-complete, no_lost_wakeup}
use genrt.Sched.Wait.Lifecycle.{
  Reach, here, next, prepares, commits, IsValid, by_finish, Reach-IsValid, consumed_stays_stale,
}

abbrev worker : ThreadId
worker = record { index = 3; generation = 2 }

abbrev token_eight : WaitToken
token_eight = record { thread = worker; cpu = 0; sequence = 8 }

abbrev prepared_eight : PreparedWait
prepared_eight = record { token = token_eight; consumption = explicit }

abbrev idle_slot : WaitMetadata
idle_slot = record { next_sequence = 7; active = none }

abbrev waiting_slot : WaitMetadata
waiting_slot = record {
  next_sequence = 8;
  active = some (record { token = token_eight; phase = prepared; consumption = explicit });
}

abbrev blocked_slot : WaitMetadata
blocked_slot = record {
  next_sequence = 8;
  active = some (record { token = token_eight; phase = blocked; consumption = explicit });
}

abbrev timed_out_slot : WaitMetadata
timed_out_slot = (complete blocked_slot token_eight timeout).0

abbrev spent_slot : WaitMetadata
spent_slot = record { next_sequence = 8; active = none }

idle-waiting :
    prepare_with_consumption idle_slot worker 0 explicit ≡ returns (waiting_slot, prepared_eight)
unfolding prepare_with_consumption
idle-waiting = refl

timed_out-finish : finish timed_out_slot token_eight ≡ (spent_slot, ok timeout)
unfolding finish complete
timed_out-finish = refl

history : Reach (with_next_sequence 7) blocked_slot
unfolding with_next_sequence prepare_with_consumption commit
history =
    next (next here (prepares worker 0 explicit prepared_eight refl)) (commits prepared_eight refl)

complete-complete_example :
    let m = (complete waiting_slot token_eight timeout).0 in
    ((complete m token_eight notified).0 ≡ m)
    × (((complete m token_eight notified).1 ≡ already_completed)
        ⊎ ((complete m token_eight notified).1 ≡ CompletionResult.stale))
complete-complete_example = complete-complete waiting_slot token_eight timeout notified

no_lost_wakeup_example :
    let done = complete waiting_slot token_eight notified in
    let waited = commit waiting_slot prepared_eight in
    let woken = complete waited.0 token_eight notified in
    (done.1 ≡ completed_prepared)
    × ((commit done.0 prepared_eight).1 ≡ early notified)
    × ((commit done.0 prepared_eight).0.active ≡ none)
    × (waited.1 ≡ block token_eight)
    × (woken.1 ≡ woke_blocked)
    × ((finish woken.0 token_eight).1 ≡ ok notified)
    × ((finish woken.0 token_eight).0.active ≡ none)
no_lost_wakeup_example =
    no_lost_wakeup idle_slot waiting_slot worker 0 prepared_eight notified idle-waiting

Reach-IsValid_example : IsValid blocked_slot
Reach-IsValid_example = Reach-IsValid 7 history

timed_out-IsValid : IsValid timed_out_slot
unfolding complete
timed_out-IsValid = refl

consumed_stays_stale_example :
    (complete spent_slot token_eight notified ≡ (spent_slot, CompletionResult.stale))
    × (commit spent_slot prepared_eight ≡ (spent_slot, CommitState.stale))
    × (cancel spent_slot prepared_eight ≡ (spent_slot, CancelResult.stale))
    × (finish spent_slot token_eight ≡ (spent_slot, err FinishError.stale))
consumed_stays_stale_example =
    consumed_stays_stale token_eight notified explicit timed_out-IsValid
      (by_finish token_eight timeout timed_out-finish) here
