-- ===== src/Sched/Wait/Laws.antt =====
-- What each call of the wait state machine answers, and what two calls in a row do.
use genrt.Prelude.{◌≡◌, ◌⊎◌, none, ok, returns, arith}
use genrt.Sched.Ids.{ThreadId, CpuId, WaitToken}
use genrt.Sched.Wait.{
  WaitCause, explicit, WaitMetadata, PreparedWait, CompletionResult, completed_prepared,
  woke_blocked, already_completed, block, early, prepare_with_consumption, commit, complete, finish,
}

-- After one completion of a token, whatever it answered, another completion of that token changes
-- nothing and answers that the wait is already completed or that the token is stale. So the first
-- cause is the one that is kept.
pub complete-complete :
    (m : WaitMetadata) (t : WaitToken) (c d : WaitCause)
    → let m' = (complete m t c).0 in
      ((complete m' t d).0 ≡ m')
      × (((complete m' t d).1 ≡ already_completed) ⊎ ((complete m' t d).1 ≡ CompletionResult.stale))
unfolding complete
complete-complete m t c d = (ground arith, ground arith)

-- In either order of the commit and the first completion of an explicit wait, the thread does not
-- stay blocked and gets the cause: a completion before the commit makes the commit return early
-- with it, and one after the commit wakes the thread, whose finish returns it. In both orders no
-- wait is left active.
pub no_lost_wakeup :
    (m m' : WaitMetadata) (thread : ThreadId) (cpu : CpuId) (p : PreparedWait) (c : WaitCause)
    → prepare_with_consumption m thread cpu explicit ≡ returns (m', p)
    → let done = complete m' p.token c in
      let waited = commit m' p in
      let woken = complete waited.0 p.token c in
      (done.1 ≡ completed_prepared)
      × ((commit done.0 p).1 ≡ early c)
      × ((commit done.0 p).0.active ≡ none)
      × (waited.1 ≡ block p.token)
      × (woken.1 ≡ woke_blocked)
      × ((finish woken.0 p.token).1 ≡ ok c)
      × ((finish woken.0 p.token).0.active ≡ none)
unfolding prepare_with_consumption commit complete finish
no_lost_wakeup m m' thread cpu p c h = ground arith
