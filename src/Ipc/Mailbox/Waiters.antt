-- ===== src/Ipc/Mailbox/Waiters.antt =====
-- The waiter queues: registration, and its removal.
use genrt.Prelude.{
  ℕ, ◌≡◌, inl, inr, refl, sym, ap, subst, ◌∙◌, true, false, Option, some, List, [], ◌∷◌, ◌++◌,
  arith, length, ok, returns,
}
use genrt.Sched.Ids.{WaitToken, token_eq, token_eq_iff}
use genrt.Ipc.Mailbox.{
  Mailbox, should_wait, is_empty, with_waiters, send_locked, send, recv, MailboxWaitKind,
  enqueue_waiter, remove_waiter, remove_first, queued, publish_wait,
}
use genrt.Ipc.Mailbox.Ring.{Holds, with_waiters-Holds}
use genrt.Ipc.Mailbox.Claims.{first_of, rest_of}
use genrt.Ipc.Mailbox.Fifo.{send_locked-Holds}

remove_first-last :
    (q : List WaitToken) (t : WaitToken)
    → queued q t ≡ false
    → remove_first (q ++ t ∷ []) t ≡ some q
unfolding remove_first queued
remove_first-last [] t h = rw ((token_eq_iff t t).1 refl) refl
remove_first-last (x ∷ q) t h =
    let other : token_eq x t ≡ false = ground arith in
    rw other (rw (remove_first-last q t (ground arith)) refl)

module _ {ℓ} {A : Type ℓ} where
  -- A registration that is removed again leaves the mailbox as it was.
  pub enqueue_waiter-remove_waiter :
      (m m' : Mailbox A) (kind : MailboxWaitKind) (token : WaitToken)
      → enqueue_waiter m kind token ≡ returns m'
      → remove_waiter m' kind token ≡ (m, true)
  unfolding enqueue_waiter remove_waiter
  enqueue_waiter-remove_waiter m m' send token h =
      ground (arith, remove_first-last m.send_waiters token)
  enqueue_waiter-remove_waiter m m' recv token h =
      ground (arith, remove_first-last m.recv_waiters token)

-- Behind the waiters that are there, a token leaves someone to be claimed.
head_claimed :
    (q : List WaitToken) (token : WaitToken)
    → (w : WaitToken) × (first_of (q ++ token ∷ []) ≡ some w)
      × (w ∷ rest_of (q ++ token ∷ []) ≡ q ++ token ∷ [])
head_claimed [] token = (token, refl, refl)
head_claimed (t ∷ q) token = (t, refl, refl)

module _ {ℓ} {A : Type ℓ} where
  -- What a registration leaves behind.
  registered :
      (m m' : Mailbox A) (timeout : Option ℕ) (now : ℕ) (token : WaitToken)
      → publish_wait m recv timeout now token ≡ returns (some m')
      → (m.len ≡ 0) × (m' ≡ with_waiters m recv (m.recv_waiters ++ token ∷ []))
  unfolding publish_wait should_wait is_empty enqueue_waiter
  registered m m' timeout now token h = ground arith

  no_messages : (xs : List A) → length xs ≡ 0 → xs ≡ []
  no_messages [] h = refl
  no_messages (x ∷ xs) h = absurd (omega arith)

  -- A receiver is registered only on a mailbox that holds no message. The next send then claims the
  -- head of the queue of receivers, in which the new one stands behind those that waited before it,
  -- and leaves the others queued in their order and its message in the mailbox: no wake-up is lost
  -- between the check and the registration.
  pub publish_wait-send_locked :
      (m m' : Mailbox A) (xs : List A) (timeout : Option ℕ) (now : ℕ) (token : WaitToken) (v : A)
      → Holds m xs
      → publish_wait m recv timeout now token ≡ returns (some m')
      → (xs ≡ [])
        × ((m'' : Mailbox A) × (w : WaitToken) × (send_locked m' v ≡ returns (m'', ok (some w)))
            × (w ∷ m''.recv_waiters ≡ m.recv_waiters ++ token ∷ [])
            × Holds m'' (v ∷ []))
  publish_wait-send_locked m m' xs timeout now token v h published =
      let (len, is) = registered m m' timeout now token published in
      let none_held = no_messages xs (sym h.count ∙ len) in
      let (w, claims, queue) = head_claimed m.recv_waiters token in
      let m1 = with_waiters m recv (m.recv_waiters ++ token ∷ []) in
      let h1 : Holds m1 xs = with_waiters-Holds m recv _ xs h in
      elim (send_locked-Holds m1 xs v h1) [
        | inl (full, e) ↦ absurd (omega (arith, full, h.head_in, ap length none_held))
        | inr (room, (m'', e, held, takes)) ↦ (
          none_held,
          (
            m'',
            w,
            ap (λ z. send_locked z v) is ∙ e ∙ ap (λ z. returns (m'', ok z)) claims,
            ap (λ z. w ∷ z) takes.behind ∙ queue,
            subst (λ z. Holds m'' (z ++ v ∷ [])) none_held held,
          ),
        )
      ]
