-- ===== src/Ipc/Mailbox/Fifo.antt =====
-- Sending and receiving against a bounded queue.
use genrt.Prelude.{
  ◌<◌, ◌≡◌, ◌⊎◌, inl, inr, refl, sym, ap, ◌∙◌, true, false, Bool-cases, some, List, [], ◌∷◌, ◌++◌,
  arith, length, get_elem?, ok, err, returns, ltb, ◌==◌, lt→ltb, ==_iff,
}
use genrt.Ipc.Mailbox.{
  Mailbox, empty, is_empty, is_full, claim_waiter, send_locked, recv_locked, send, recv,
}
use genrt.Ipc.Mailbox.Wrap.{wrap-here}
use genrt.Ipc.Mailbox.Claims.{first_of, TakesFirst, claim_waiter-first}
use genrt.Ipc.Mailbox.Ring.{
  Holds, claim_waiter-Holds, tail_in, pushed-Holds, popped-Holds, pushed, popped,
}

module _ {ℓ} {A : Type ℓ} where
  send_full :
      (m : Mailbox A) (xs : List A) (v : A)
      → Holds m xs
      → length xs ≡ m.capacity
      → send_locked m v ≡ returns (m, err v)
  unfolding send_locked is_full
  send_full m xs v h full =
      let e : (m.len == m.capacity) ≡ true = (==_iff m.len m.capacity).1 (h.count ∙ full) in
      rw (e, send_locked) refl

  send_room :
      (m : Mailbox A) (xs : List A) (v : A)
      → Holds m xs
      → m.len < m.capacity
      → send_locked m v
        ≡ returns ((claim_waiter (pushed m v) recv).0, ok (claim_waiter (pushed m v) recv).1)
  unfolding send_locked is_full
  send_room m xs v h room =
      let e : (m.len == m.capacity) ≡ false = ground arith in
      let f : ltb m.tail (length m.buffer) ≡ true = lt→ltb _ _ (tail_in m xs h) in
      rw (e, send_locked) (rw f refl)

  -- On a mailbox that holds `xs`: where that is as many messages as it has room for, a send hands
  -- the message back and changes nothing; else it succeeds, the mailbox holds the message behind
  -- the others, and the longest waiting receiver, if any, is claimed and no longer queued.
  pub send_locked-Holds :
      (m : Mailbox A) (xs : List A) (v : A)
      → Holds m xs
      → ((length xs ≡ m.capacity) × (send_locked m v ≡ returns (m, err v)))
        ⊎ ((length xs < m.capacity)
            × ((m' : Mailbox A) × (send_locked m v ≡ returns (m', ok (first_of m.recv_waiters)))
                × Holds m' (xs ++ v ∷ [])
                × TakesFirst recv m m'))
  send_locked-Holds m xs v h = elim (Bool-cases (m.len == m.capacity)) [
    | inl e ↦
        let full : length xs ≡ m.capacity = sym h.count ∙ (==_iff m.len m.capacity).0 e in
        inl (full, send_full m xs v h full)
    | inr e ↦
        let room : m.len < m.capacity = ground (arith, h.bounded) in
        let (takes, first) = claim_waiter-first (pushed m v) recv in
        inr (
          omega (arith, h.count),
          (
            (claim_waiter (pushed m v) recv).0,
            send_room m xs v h room
                ∙ ap (λ w. returns ((claim_waiter (pushed m v) recv).0, ok w)) first,
            claim_waiter-Holds (pushed m v) recv _ (pushed-Holds m xs v h room),
            record { behind = takes.behind; others = takes.others; same_room = takes.same_room },
          ),
        )
  ]

  recv_none : (m : Mailbox A) → Holds m [] → recv_locked m ≡ returns (m, err empty)
  unfolding recv_locked is_empty
  recv_none m h =
      let e : (m.len == 0) ≡ true = (==_iff m.len 0).1 h.count in rw (e, recv_locked) refl

  recv_some :
      (m : Mailbox A) (x : A) (xs : List A)
      → Holds m (x ∷ xs)
      → recv_locked m
        ≡ returns ((claim_waiter (popped m) send).0, ok (x, (claim_waiter (popped m) send).1))
  unfolding recv_locked is_empty
  recv_some m x xs h =
      let e : (m.len == 0) ≡ false = ground (arith, h.count) in
      let at : get_elem? m.buffer m.head ≡ some (some x) =
        ap (get_elem? m.buffer) (sym (wrap-here m.head m.capacity h.head_in)) ∙ h.slots 0 x refl in
      rw (e, recv_locked) (rw at refl)

  -- What a receive answers on a mailbox that holds `xs`.
  abbrev pub Receives : Mailbox A → List A → Type ℓ
  Receives m [] = recv_locked m ≡ returns (m, err empty)
  Receives m (x ∷ xs) =
      (m' : Mailbox A) × (recv_locked m ≡ returns (m', ok (x, first_of m.send_waiters)))
      × Holds m' xs
      × TakesFirst send m m'

  -- On a mailbox that holds messages, a receive answers the oldest, the mailbox holds the others in
  -- their order, and the longest waiting sender, if any, is claimed and no longer queued; on one that
  -- holds none, it answers that the mailbox is empty and changes nothing. It never panics.
  pub recv_locked-Holds : (m : Mailbox A) (xs : List A) → Holds m xs → Receives m xs
  recv_locked-Holds m [] h = recv_none m h
  recv_locked-Holds m (x ∷ xs) h =
      let (takes, first) = claim_waiter-first (popped m) send in
      (
        (claim_waiter (popped m) send).0,
        recv_some m x xs h ∙ ap (λ w. returns ((claim_waiter (popped m) send).0, ok (x, w))) first,
        claim_waiter-Holds (popped m) send xs (popped-Holds m x xs h),
        record { behind = takes.behind; others = takes.others; same_room = takes.same_room },
      )
