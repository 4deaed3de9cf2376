-- ===== src/Ipc/Mailbox/Examples.antt =====
-- A ring of three places that has wrapped around, and its waiters.
use genrt.Prelude.{
  ℕ, zero, suc, ◌+◌, ◌%◌, ◌<◌, ◌≡◌, ◌⊎◌, refl, ap, none, some, List, [], ◌∷◌, ◌++◌, arith, length,
  get_elem?, ok, err, returns, ◌==◌, ltb, length-append, if◌then◌else◌,
}
use genrt.Sched.Ids.{ThreadId, WaitToken, token_eq}
use genrt.Sched.Wait.{stale, woke_blocked}
use genrt.Ipc.Mailbox.{
  Mailbox, send_locked, recv, should_wait, is_empty, enqueue_waiter, queued, publish_wait,
}
use genrt.Ipc.Mailbox.Claims.{TakesFirst}
use genrt.Ipc.Mailbox.Completing.{
  Deliver, Others, FewJoin, Turns, complete_claimed, complete_claimed-Turns,
}
use genrt.Prelude.Running.{Ends}
use genrt.Ipc.Mailbox.Ring.{Holds}
use genrt.Ipc.Mailbox.Fifo.{send_locked-Holds, recv_locked-Holds, Receives}
use genrt.Ipc.Mailbox.Waiters.{publish_wait-send_locked}

abbrev thread : ThreadId
thread = record { index = 4; generation = 1 }

abbrev first : WaitToken
first = record { thread = thread; cpu = 0; sequence = 7 }

abbrev second : WaitToken
second = record { thread = thread; cpu = 0; sequence = 8 }

abbrev wrapped : Mailbox ℕ
wrapped = record {
  capacity = 3;
  head = 2;
  tail = 1;
  len = 2;
  recv_waiters = first ∷ second ∷ [];
  send_waiters = second ∷ first ∷ [];
  waiter_capacity = 4;
  buffer = some 20 ∷ none ∷ some 10 ∷ [];
}

places :
    (i x : ℕ)
    → get_elem? (10 ∷ 20 ∷ []) i ≡ some x
    → get_elem? wrapped.buffer ((2 + i) % 3) ≡ some (some x)
places zero x h = ap (λ z. some z) h
places (suc zero) x h = ap (λ z. some z) h
places (suc (suc i)) x h = ground arith

wrapped-Holds : Holds wrapped (10 ∷ 20 ∷ [])
wrapped-Holds = record {
  size = refl;
  head_in = omega arith;
  tail_at = refl;
  count = refl;
  bounded = omega arith;
  slots = places;
}

send_locked-Holds_example :
    ((length {A = ℕ} (10 ∷ 20 ∷ []) ≡ wrapped.capacity)
      × (send_locked wrapped 30 ≡ returns (wrapped, err 30)))
    ⊎ ((length {A = ℕ} (10 ∷ 20 ∷ []) < wrapped.capacity)
        × ((m' : Mailbox ℕ) × (send_locked wrapped 30 ≡ returns (m', ok (some first)))
            × Holds m' (10 ∷ 20 ∷ 30 ∷ [])
            × TakesFirst recv wrapped m'))
send_locked-Holds_example = send_locked-Holds wrapped (10 ∷ 20 ∷ []) 30 wrapped-Holds

recv_locked-Holds_example : Receives wrapped (10 ∷ 20 ∷ [])
recv_locked-Holds_example = recv_locked-Holds wrapped (10 ∷ 20 ∷ []) wrapped-Holds

abbrev idle : Mailbox ℕ
idle = record wrapped {
  recv_waiters = second ∷ [];
  send_waiters = [];
  len = 0;
  head = 1;
  buffer = none ∷ none ∷ none ∷ [];
}

idle-Holds : Holds idle []
idle-Holds = record {
  size = refl;
  head_in = omega arith;
  tail_at = refl;
  count = refl;
  bounded = omega arith;
  slots = λ i x h. ground arith;
}

abbrev receiving : Mailbox ℕ
receiving = record idle { recv_waiters = second ∷ first ∷ [] }

abbrev no_message : List ℕ
no_message = []

registers : publish_wait idle recv (some 9) 5 first ≡ returns (some receiving)
unfolding publish_wait should_wait is_empty enqueue_waiter queued token_eq
registers = refl

publish_wait-send_locked_example :
    (no_message ≡ [])
    × ((m'' : Mailbox ℕ) × (w : WaitToken) × (send_locked receiving 30 ≡ returns (m'', ok (some w)))
        × (w ∷ m''.recv_waiters ≡ second ∷ first ∷ [])
        × Holds m'' (30 ∷ []))
publish_wait-send_locked_example =
    publish_wait-send_locked idle receiving [] (some 9) 5 first 30 idle-Holds registers

-- A scheduler that counts, and for which the first completion finds a stale token.
abbrev counting : Deliver ℕ
counting s token = (s + 1, if s == 0 then stale else woke_blocked)

-- Until the lock is retaken, another receiver joins the queue, once.
abbrev third : WaitToken
third = record { thread = thread; cpu = 0; sequence = 9 }

abbrev one_joins : Others ℕ ℕ
one_joins w =
    if w.0 == 1 then (w.0 + 1, record w.1 { recv_waiters = w.1.recv_waiters ++ third ∷ [] }) else w

abbrev to_come : ℕ → ℕ
to_come s = if ltb s 2 then 1 else 0

counting-FewJoin : FewJoin counting one_joins recv to_come
counting-FewJoin = record {
  delivers = λ s token. ground arith;
  joins = λ w. ground (arith, length-append w.1.recv_waiters (third ∷ []));
}

complete_claimed-Turns_example :
    Ends
      (Turns counting one_joins recv (0, wrapped) (some third))
      (complete_claimed 5 counting one_joins recv (0, wrapped) (some third))
complete_claimed-Turns_example =
    complete_claimed-Turns counting one_joins recv to_come 5 (0, wrapped) third counting-FewJoin
      (omega arith)
