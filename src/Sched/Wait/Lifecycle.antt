-- ===== src/Sched/Wait/Lifecycle.antt =====
-- The histories of one slot's wait metadata: every call that changes it is a step.
use genrt.Prelude.{ℕ, ◌≡◌, ◌≤◌, Bool, false, Option, none, some, ok, err, returns, arith}
use genrt.Sched.Ids.{ThreadId, CpuId, WaitToken, token_eq}
use genrt.Sched.Wait.{
  WaitCause, ActiveWait, WaitConsumption, WaitMetadata, PreparedWait, CompletionResult,
  woke_blocked, CommitState, early, CancelResult, cancelled, FinishError, prepare_with_consumption,
  commit, complete, cancel, finish, with_next_sequence,
}

pub data Step (m : WaitMetadata) : WaitMetadata → Type 0 where
  prepares :
      (thread : ThreadId) (cpu : CpuId) (k : WaitConsumption) {m' : WaitMetadata} (p : PreparedWait)
      → prepare_with_consumption m thread cpu k ≡ returns (m', p)
      → Step m m'
  commits : (p : PreparedWait) {m' : WaitMetadata} → (commit m p).0 ≡ m' → Step m m'
  completes :
      (t : WaitToken) (c : WaitCause) {m' : WaitMetadata} → (complete m t c).0 ≡ m' → Step m m'
  cancels : (p : PreparedWait) {m' : WaitMetadata} → (cancel m p).0 ≡ m' → Step m m'
  finishes : (t : WaitToken) {m' : WaitMetadata} → (finish m t).0 ≡ m' → Step m m'

pub data Reach (m : WaitMetadata) : WaitMetadata → Type 0 where
  here : Reach m m
  next : {m' m'' : WaitMetadata} → Reach m m' → Step m' m'' → Reach m m''

-- The active wait is the latest that was issued.
abbrev pub IsLatest : ℕ → Option ActiveWait → Type 0
IsLatest n none = Unit {0}
IsLatest n (some a) = a.token.sequence ≡ n

abbrev pub IsValid : WaitMetadata → Type 0
IsValid m = IsLatest m.next_sequence m.active

abbrev pub holds : WaitToken → Option ActiveWait → Bool
holds t none = false
holds t (some a) = token_eq a.token t

-- The token was issued, and no longer names the active wait.
pub record IsSpent (t : WaitToken) (m : WaitMetadata) : Type 0 where
  pub issued : t.sequence ≤ m.next_sequence
  pub released : holds t m.active ≡ false

-- The calls that use a wait up: an early commit, a cancellation, a finish, and the wake of an
-- automatic wait.
pub data Consumes (m : WaitMetadata) : WaitToken → WaitMetadata → Type 0 where
  by_commit :
      (p : PreparedWait) (c : WaitCause) {m' : WaitMetadata}
      → commit m p ≡ (m', early c)
      → Consumes m p.token m'
  by_cancel :
      (p : PreparedWait) {m' : WaitMetadata} → cancel m p ≡ (m', cancelled) → Consumes m p.token m'
  by_late_cancel :
      (p : PreparedWait) (c : WaitCause) {m' : WaitMetadata}
      → cancel m p ≡ (m', CancelResult.completed c)
      → Consumes m p.token m'
  by_finish :
      (t : WaitToken) (c : WaitCause) {m' : WaitMetadata}
      → finish m t ≡ (m', ok c)
      → Consumes m t m'
  by_wake :
      (t : WaitToken) (c : WaitCause) {m' : WaitMetadata}
      → complete m t c ≡ (m', woke_blocked)
      → m'.active ≡ none
      → Consumes m t m'

Step-IsValid : {m m' : WaitMetadata} → Step m m' → IsValid m → IsValid m'
unfolding prepare_with_consumption commit complete cancel finish
Step-IsValid (prepares thread cpu k p e) v = ground arith
Step-IsValid (commits p e) v = ground arith
Step-IsValid (completes t c e) v = ground arith
Step-IsValid (cancels p e) v = ground arith
Step-IsValid (finishes t e) v = ground arith

-- In every history of a fresh slot the active wait carries the last sequence issued.
pub Reach-IsValid : (n : ℕ) {m : WaitMetadata} → Reach (with_next_sequence n) m → IsValid m
unfolding with_next_sequence
Reach-IsValid n here = tt
Reach-IsValid n (next r s) = Step-IsValid s (Reach-IsValid n r)

Step-IsSpent : (t : WaitToken) {m m' : WaitMetadata} → Step m m' → IsSpent t m → IsSpent t m'
unfolding prepare_with_consumption commit complete cancel finish
Step-IsSpent t (prepares thread cpu k p e) v = ground arith
Step-IsSpent t (commits p e) v = ground arith
Step-IsSpent t (completes u c e) v = ground arith
Step-IsSpent t (cancels p e) v = ground arith
Step-IsSpent t (finishes u e) v = ground arith

Reach-IsSpent : (t : WaitToken) {m m' : WaitMetadata} → Reach m m' → IsSpent t m → IsSpent t m'
Reach-IsSpent t here v = v
Reach-IsSpent t (next r s) v = Step-IsSpent t s (Reach-IsSpent t r v)

Consumes-IsSpent :
    (t : WaitToken) {m m' : WaitMetadata} → IsValid m → Consumes m t m' → IsSpent t m'
unfolding commit complete cancel finish
Consumes-IsSpent t v (by_commit p c e) = ground arith
Consumes-IsSpent t v (by_cancel p e) = ground arith
Consumes-IsSpent t v (by_late_cancel p c e) = ground arith
Consumes-IsSpent t v (by_finish u c e) = ground arith
Consumes-IsSpent t v (by_wake u c e f) = ground arith

-- Once a wait of a valid slot has been used up (by an early commit, a cancellation, a finish or
-- the wake of an automatic wait), its token is stale in every later state: a completion, a commit,
-- a cancellation and a finish by it answer so and change nothing.
pub consumed_stays_stale :
    (t : WaitToken) (c : WaitCause) (k : WaitConsumption) {m m' m'' : WaitMetadata}
    → IsValid m
    → Consumes m t m'
    → Reach m' m''
    → let p : PreparedWait = record { token = t; consumption = k } in
      (complete m'' t c ≡ (m'', CompletionResult.stale))
      × (commit m'' p ≡ (m'', CommitState.stale))
      × (cancel m'' p ≡ (m'', CancelResult.stale))
      × (finish m'' t ≡ (m'', err FinishError.stale))
unfolding commit complete cancel finish
consumed_stays_stale t c k v used r = ground (arith, Reach-IsSpent t r (Consumes-IsSpent t v used))
