-- ===== src/Sched/Wait.antt =====
-- kernel/src/sched/wait.rs: the inline state machine of one thread's exact wait registration.
-- A method on `&mut self` returns the new metadata beside its result.
pub mod Laws
pub mod Lifecycle
mod Examples
use genrt.Prelude.{
  ℕ, ◌+◌, Bool, true, false, Option, none, some, Result, ok, err, Fallible, returns, panics, ltb,
  if◌then◌else◌,
}
use genrt.Sched.Ids.{ThreadId, CpuId, WaitToken, token_eq}

pub data WaitCause : Type 0 where
  notified timeout : WaitCause

pub data WaitConsumption : Type 0 where
  explicit automatic : WaitConsumption

pub data WaitPhase : Type 0 where
  prepared blocked : WaitPhase
  completed : WaitCause → WaitPhase

pub record ActiveWait : Type 0 where
  pub token : WaitToken
  pub phase : WaitPhase
  pub consumption : WaitConsumption

pub record WaitMetadata : Type 0 where
  pub next_sequence : ℕ
  pub active : Option ActiveWait

-- A single-use preparation. That it is consumed once is Rust's ownership, which the model's
-- theorems do not rest on.
pub record PreparedWait : Type 0 where
  pub token : WaitToken
  pub consumption : WaitConsumption

pub data CompletionResult : Type 0 where
  completed_prepared woke_blocked already_completed stale : CompletionResult

pub data CommitState : Type 0 where
  block : WaitToken → CommitState
  early : WaitCause → CommitState
  stale : CommitState

pub data CancelResult : Type 0 where
  cancelled : CancelResult
  completed : WaitCause → CancelResult
  stale : CancelResult

pub data FinishError : Type 0 where
  stale not_completed : FinishError

abbrev pub u64_max : ℕ
u64_max = 0xffff_ffff_ffff_ffff

-- The derived `PartialEq` of `WaitConsumption`.
pub consumption_eq : WaitConsumption → WaitConsumption → Bool
consumption_eq explicit explicit = true
consumption_eq automatic automatic = true
consumption_eq explicit automatic = false
consumption_eq automatic explicit = false

pub with_next_sequence : ℕ → WaitMetadata
with_next_sequence n = record { next_sequence = n; active = none }

-- The token that the next preparation publishes.
pub fresh_token : WaitMetadata → ThreadId → CpuId → WaitToken
fresh_token m thread cpu = record { thread = thread; cpu = cpu; sequence = m.next_sequence + 1 }

pub publish : WaitMetadata → ThreadId → CpuId → WaitConsumption → WaitMetadata × PreparedWait
unfolding fresh_token
publish m thread cpu consumption =
    let token : WaitToken = fresh_token m thread cpu in
    (
      record {
        next_sequence = m.next_sequence + 1;
        active = some (record { token = token; phase = prepared; consumption = consumption });
      },
      record { token = token; consumption = consumption },
    )

-- Panics on a wait that is still active, and before the sequence would wrap.
pub prepare_with_consumption :
    WaitMetadata → ThreadId → CpuId → WaitConsumption → Fallible (WaitMetadata × PreparedWait)
unfolding publish
prepare_with_consumption m thread cpu consumption = elim m.active [
  | some _ ↦ panics
  | none ↦
      if ltb m.next_sequence u64_max then returns (publish m thread cpu consumption) else panics
]

pub prepare : WaitMetadata → ThreadId → CpuId → Fallible (WaitMetadata × PreparedWait)
unfolding prepare_with_consumption
prepare m thread cpu = prepare_with_consumption m thread cpu explicit

pub prepare_automatic : WaitMetadata → ThreadId → CpuId → Fallible (WaitMetadata × PreparedWait)
unfolding prepare_with_consumption
prepare_automatic m thread cpu = prepare_with_consumption m thread cpu automatic

-- What `commit` does at an active wait whose token matches.
commit_phase : WaitMetadata → ActiveWait → PreparedWait → WaitPhase → WaitMetadata × CommitState
unfolding consumption_eq
commit_phase m a p prepared =
    if consumption_eq a.consumption p.consumption
    then (record m { active = some (record a { phase = blocked }) }, block a.token)
    else (m, CommitState.stale)
commit_phase m a p (WaitPhase.completed cause) = (record m { active = none }, early cause)
commit_phase m a p blocked = (m, CommitState.stale)

pub commit : WaitMetadata → PreparedWait → WaitMetadata × CommitState
unfolding commit_phase token_eq
commit m p = elim m.active [
  | none ↦ (m, CommitState.stale)
  | some a ↦ if token_eq a.token p.token then commit_phase m a p a.phase else (m, CommitState.stale)
]

-- What waking a blocked wait leaves behind: its cause, or nothing where nobody reads it.
wake_blocked : WaitMetadata → ActiveWait → WaitCause → WaitConsumption → WaitMetadata
wake_blocked m a cause explicit = record m {
  active = some (record a { phase = WaitPhase.completed cause });
}
wake_blocked m a cause automatic = record m { active = none }

complete_phase : WaitMetadata → ActiveWait → WaitCause → WaitPhase → WaitMetadata × CompletionResult
unfolding wake_blocked
complete_phase m a cause prepared = (
  record m { active = some (record a { phase = WaitPhase.completed cause }) },
  completed_prepared,
)
complete_phase m a cause blocked = (wake_blocked m a cause a.consumption, woke_blocked)
complete_phase m a cause (WaitPhase.completed _) = (m, already_completed)

pub complete : WaitMetadata → WaitToken → WaitCause → WaitMetadata × CompletionResult
unfolding complete_phase token_eq
complete m token cause = elim m.active [
  | none ↦ (m, CompletionResult.stale)
  | some a ↦
      if token_eq a.token token
      then complete_phase m a cause a.phase
      else (m, CompletionResult.stale)
]

cancel_phase : WaitMetadata → WaitPhase → WaitMetadata × CancelResult
cancel_phase m prepared = (record m { active = none }, cancelled)
cancel_phase m (WaitPhase.completed cause) =
    (record m { active = none }, CancelResult.completed cause)
cancel_phase m blocked = (m, CancelResult.stale)

pub cancel : WaitMetadata → PreparedWait → WaitMetadata × CancelResult
unfolding cancel_phase token_eq
cancel m p = elim m.active [
  | none ↦ (m, CancelResult.stale)
  | some a ↦ if token_eq a.token p.token then cancel_phase m a.phase else (m, CancelResult.stale)
]

finish_phase : WaitMetadata → WaitPhase → WaitMetadata × Result WaitCause FinishError
finish_phase m (WaitPhase.completed cause) = (record m { active = none }, ok cause)
finish_phase m prepared = (m, err not_completed)
finish_phase m blocked = (m, err not_completed)

pub finish : WaitMetadata → WaitToken → WaitMetadata × Result WaitCause FinishError
unfolding finish_phase token_eq
finish m token = elim m.active [
  | none ↦ (m, err FinishError.stale)
  | some a ↦ if token_eq a.token token then finish_phase m a.phase else (m, err FinishError.stale)
]
