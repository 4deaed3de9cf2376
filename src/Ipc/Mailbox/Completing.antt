-- ===== src/Ipc/Mailbox/Completing.antt =====
-- kernel/src/ipc.rs: the completion of claimed waiters, after the mailbox lock is dropped. The lock is
-- retaken for each further claim, so the mailbox may change in between.
use genrt.Prelude.{
  ℕ, zero, suc, ◌+◌, ◌≤◌, ◌<◌, ◌≡◌, ◌⊎◌, inl, inr, refl, Bool, true, false, Bool-cases, Option,
  none, some, List, [], ◌∷◌, arith, length, if◌then◌else◌,
}
use genrt.Prelude.Running.{Run, done, out_of_fuel, Ends, ends, Ends-map}
use genrt.Sched.Ids.{WaitToken}
use genrt.Sched.Wait.{CompletionResult, completed_prepared, woke_blocked, already_completed, stale}
use genrt.Ipc.Mailbox.{Mailbox, MailboxWaitKind, send, recv, waiters, with_waiters, claim_waiter}
use genrt.Ipc.Mailbox.Claims.{first_of, rest_of, claim_waiter-exact}

-- The scheduler's completion of one wait, with the cancellation of its deadline before it.
abbrev pub Deliver : Type 0 → Type 0
Deliver S = S → WaitToken → S × CompletionResult

-- Whether a completion reached a waiting thread.
pub reached : CompletionResult → Bool
reached woke_blocked = true
reached completed_prepared = true
reached already_completed = false
reached stale = false

-- What other threads do to the scheduler and the mailbox until the lock is retaken.
abbrev pub Others {ℓ} : Type 0 → Type ℓ → Type ℓ
Others S A = S × Mailbox A → S × Mailbox A

-- The loop of `complete_claimed_waiters`.
pub complete_claimed {ℓ} :
    {S : Type 0} {A : Type ℓ}
    → ℕ
    → Deliver S
    → Others S A
    → MailboxWaitKind
    → S × Mailbox A
    → Option WaitToken
    → Run (S × Mailbox A)
unfolding reached claim_waiter
complete_claimed zero deliver others kind w token = out_of_fuel
complete_claimed (suc fuel) deliver others kind w none = done w
complete_claimed (suc fuel) deliver others kind w (some wait) =
    let result = deliver w.0 wait in
    let found = others (result.0, w.1) in
    let claimed = claim_waiter found.1 kind in
    let next = complete_claimed fuel deliver others kind (found.0, claimed.0) claimed.1 in
    if reached result.1 then done (result.0, w.1) else next

abbrev Woken : CompletionResult → Type 0
Woken r = (r ≡ woke_blocked) ⊎ (r ≡ completed_prepared)

abbrev PassedOver : CompletionResult → Type 0
PassedOver r = (r ≡ already_completed) ⊎ (r ≡ stale)

-- The turns of the loop, from a state and a claimed token to the state that it leaves.
pub data Turns {ℓ} {S : Type 0} {A : Type ℓ} (deliver : Deliver S) (others : Others S A)
    (kind : MailboxWaitKind) : S × Mailbox A → Option WaitToken → S × Mailbox A → Type ℓ where
  nobody : {w : S × Mailbox A} → Turns deliver others kind w none w
  woken :
      {w : S × Mailbox A} (token : WaitToken)
      → Woken (deliver w.0 token).1
      → Turns deliver others kind w (some token) ((deliver w.0 token).0, w.1)
  passed :
      {w w' : S × Mailbox A} (token : WaitToken) (s : S) (m : Mailbox A)
      → PassedOver (deliver w.0 token).1
      → others ((deliver w.0 token).0, w.1) ≡ (s, m)
      → Turns deliver others kind
          (s, with_waiters m kind (rest_of (waiters m kind)))
          (first_of (waiters m kind))
          w'
      → Turns deliver others kind w (some token) w'

reached-Woken : (r : CompletionResult) → reached r ≡ true → Woken r
unfolding reached
reached-Woken woke_blocked h = inl refl
reached-Woken completed_prepared h = inr refl
reached-Woken already_completed h = ground arith
reached-Woken stale h = ground arith

reached-PassedOver : (r : CompletionResult) → reached r ≡ false → PassedOver r
unfolding reached
reached-PassedOver woke_blocked h = ground arith
reached-PassedOver completed_prepared h = ground arith
reached-PassedOver already_completed h = inl refl
reached-PassedOver stale h = inr refl

-- Only so many more waiters join the queue as `to_come` says.
pub record FewJoin {ℓ} {S : Type 0} {A : Type ℓ} (deliver : Deliver S) (others : Others S A)
    (kind : MailboxWaitKind) (to_come : S → ℕ) : Type ℓ where
  pub delivers : (s : S) (token : WaitToken) → to_come (deliver s token).0 ≤ to_come s
  pub joins :
      (w : S × Mailbox A)
      → to_come (others w).0 + length (waiters (others w).1 kind)
        ≤ to_come w.0 + length (waiters w.1 kind)

-- The turns that are enough: with nobody claimed, one.
abbrev turns_needed : Option WaitToken → ℕ → ℕ
turns_needed none n = 0
turns_needed (some token) n = n + 1

turns_needed-rest :
    (q : List WaitToken) (n fuel : ℕ)
    → n + length q < fuel
    → turns_needed (first_of q) (n + length (rest_of q)) < fuel
turns_needed-rest [] n fuel h = omega arith
turns_needed-rest (t ∷ q) n fuel h = omega arith

with_waiters-waiters {ℓ} :
    {A : Type ℓ} (m : Mailbox A) (kind : MailboxWaitKind) (q : List WaitToken)
    → waiters (with_waiters m kind q) kind ≡ q
with_waiters-waiters m send q = refl
with_waiters-waiters m recv q = refl

module _ {ℓ} {S : Type 0} {A : Type ℓ} (deliver : Deliver S) (others : Others S A)
    (kind : MailboxWaitKind) where
  complete_claimed-runs :
      (to_come : S → ℕ) (fuel : ℕ) (w : S × Mailbox A) (token : Option WaitToken)
      → FewJoin deliver others kind to_come
      → turns_needed token (to_come w.0 + length (waiters w.1 kind)) < fuel
      → Ends (Turns deliver others kind w token) (complete_claimed fuel deliver others kind w token)
  unfolding complete_claimed
  complete_claimed-runs to_come zero w token few enough = absurd (omega arith)
  complete_claimed-runs to_come (suc fuel) w none few enough = ends nobody
  complete_claimed-runs to_come (suc fuel) w (some token) few enough =
      let result = deliver w.0 token in
      let found = others (result.0, w.1) in
      let q = waiters found.1 kind in
      let claim = claim_waiter-exact found.1 kind in
      elim (Bool-cases (reached result.1)) [
        | inl e ↦ rw e (ends (woken token (reached-Woken _ e)))
        | inr e ↦
            let left : to_come found.0 + length q < fuel =
              omega (arith, few.delivers w.0 token, few.joins (result.0, w.1)) in
            let go =
              complete_claimed-runs to_come fuel (found.0, with_waiters found.1 kind (rest_of q))
                (first_of q) few
                (rw (with_waiters-waiters found.1 kind (rest_of q))
                  (turns_needed-rest q _ fuel left)) in
            rw e (
              rw claim (
                Ends-map go
                  λ w' turns. passed token found.0 found.1 (reached-PassedOver _ e) refl turns))
      ]

  -- Where only so many more waiters join the queue while the lock is free as `to_come` says, the
  -- loop ends within two turns more than those and the waiters that are queued. It completes the
  -- claimed waiter. Where that woke a blocked thread or completed a prepared wait, it ends there and
  -- leaves the mailbox alone; where the wait was completed before or its token is stale, it takes
  -- the longest waiting off the queue as it is found then, and goes on with that, or ends where
  -- nobody waits.
  pub complete_claimed-Turns :
      (to_come : S → ℕ) (fuel : ℕ) (w : S × Mailbox A) (token : WaitToken)
      → FewJoin deliver others kind to_come
      → to_come w.0 + length (waiters w.1 kind) + 1 < fuel
      → Ends
          (Turns deliver others kind w (some token))
          (complete_claimed fuel deliver others kind w (some token))
  complete_claimed-Turns to_come fuel w token few enough =
      complete_claimed-runs to_come fuel w (some token) few enough
