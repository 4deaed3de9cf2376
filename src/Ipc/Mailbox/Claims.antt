-- ===== src/Ipc/Mailbox/Claims.antt =====
-- kernel/src/ipc.rs: who is claimed of the waiters of a kind.
use genrt.Prelude.{refl, ap, ◌≡◌, inl, inr, Option, none, some, List, [], ◌∷◌, arith}
use genrt.Sched.Ids.{WaitToken}
use genrt.Ipc.Mailbox.{Mailbox, MailboxWaitKind, send, recv, waiters, with_waiters, claim_waiter}
use genrt.Ipc.Mailbox.Wrap.{List-cases}

-- The longest waiting of the waiters, and those behind it.
abbrev pub first_of : List WaitToken → Option WaitToken
first_of [] = none
first_of (t ∷ q) = some t

abbrev pub rest_of : List WaitToken → List WaitToken
rest_of [] = []
rest_of (t ∷ q) = q

abbrev pub opposite : MailboxWaitKind → MailboxWaitKind
opposite send = recv
opposite recv = send

-- The longest waiting of a kind is taken off its queue, and the other waiters stay.
pub record TakesFirst {ℓ} {A : Type ℓ} (kind : MailboxWaitKind) (m m' : Mailbox A) : Type 0 where
  pub behind : waiters m' kind ≡ rest_of (waiters m kind)
  pub others : waiters m' (opposite kind) ≡ waiters m (opposite kind)
  pub same_room : (m'.capacity ≡ m.capacity) × (m'.waiter_capacity ≡ m.waiter_capacity)

module _ {ℓ} {A : Type ℓ} where
  pub claim_waiter-first :
      (m : Mailbox A) (kind : MailboxWaitKind)
      → TakesFirst kind m (claim_waiter m kind).0
        × ((claim_waiter m kind).1 ≡ first_of (waiters m kind))
  unfolding claim_waiter
  claim_waiter-first m send = elim (List-cases m.send_waiters) [
    | inl e ↦ ground (arith, e)
    | inr (t, q, e) ↦ ground (arith, e)
  ]
  claim_waiter-first m recv = elim (List-cases m.recv_waiters) [
    | inl e ↦ ground (arith, e)
    | inr (t, q, e) ↦ ground (arith, e)
  ]

  -- A claim in one equation.
  pub claim_waiter-exact :
      (m : Mailbox A) (kind : MailboxWaitKind)
      → claim_waiter m kind
        ≡ (with_waiters m kind (rest_of (waiters m kind)), first_of (waiters m kind))
  unfolding claim_waiter
  claim_waiter-exact m send = elim (List-cases m.send_waiters) [
    | inl e ↦ rw (e, claim_waiter) (ap (λ q. (record m { send_waiters = q }, none)) e)
    | inr (t, q, e) ↦ rw (e, claim_waiter) refl
  ]
  claim_waiter-exact m recv = elim (List-cases m.recv_waiters) [
    | inl e ↦ rw (e, claim_waiter) (ap (λ q. (record m { recv_waiters = q }, none)) e)
    | inr (t, q, e) ↦ rw (e, claim_waiter) refl
  ]
