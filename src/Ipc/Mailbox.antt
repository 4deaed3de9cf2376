-- ===== src/Ipc/Mailbox.antt =====
-- kernel/src/ipc.rs: the message ring and the waiter queues of a mailbox, under the mailbox lock, and
-- the completion of claimed waiters after it is dropped. A call that panics has no state after it.
pub mod Wrap
pub mod Ring
pub mod Claims
pub mod Fifo
pub mod Waiters
pub mod Completing
mod Examples
use genrt.Prelude.{
  ℕ, zero, suc, ◌+◌, ◌-◌, ◌*◌, ◌/◌, ◌%◌, ◌^◌, ◌≤◌, ◌<◌, ◌≡◌, ◌≢◌, ◌⊎◌, ◌↔◌, min, max, inl, inr,
  refl, sym, ap, ◌∙◌, subst, Bool, true, false, not, ◌&&◌, ◌||◌, Bool-cases, Option, none, some,
  Option-cases, List, [], ◌∷◌, ◌++◌, map, reverse, arith, length, get_elem?, get_or, set, take,
  drop, replicate, Result, ok, err, ok_or, Result-cases, ok_then, ◌>>=◌, ◌>>◌, Fallible, returns,
  panics, length-set, length-append, length-take, length-drop, length-map, length-replicate,
  take-append-drop, get_elem?-set_self, get_elem?-set_ne, ltb, leb, ◌==◌, if◌then◌else◌, ltb→lt,
  lt→ltb, leb→le, ==_iff, usize_max, checked_add, checked_sub, saturating_add, checked_add-some,
}
use genrt.Sched.Ids.{WaitToken, token_eq}
use genrt.Sched.Wait.{CompletionResult, completed_prepared, woke_blocked, already_completed, stale}

-- `RecvError`; the error of a send is the message that is handed back.
pub data RecvError : Type 0 where
  empty : RecvError

pub data MailboxWaitKind : Type 0 where
  send recv : MailboxWaitKind

pub from_raw : ℕ → Option MailboxWaitKind
from_raw raw = if raw == 1 then some send else if raw == 2 then some recv else none

pub raw_kind : MailboxWaitKind → ℕ
raw_kind send = 1
raw_kind recv = 2

-- `Mailbox` with its `MailboxControl`. The capacity of the waiter queues is what was reserved for them.
pub record Mailbox {ℓ} (A : Type ℓ) : Type ℓ where
  pub capacity : ℕ
  pub head : ℕ
  pub tail : ℕ
  pub len : ℕ
  pub recv_waiters : List WaitToken
  pub send_waiters : List WaitToken
  pub waiter_capacity : ℕ
  pub buffer : List (Option A)

pub queued : List WaitToken → WaitToken → Bool
queued [] token = false
queued (t ∷ q) token = token_eq t token || queued q token

-- The queue without the first occurrence of the token.
pub remove_first : List WaitToken → WaitToken → Option (List WaitToken)
remove_first [] token = none
remove_first (t ∷ q) token =
    let rest : Option (List WaitToken) = elim (remove_first q token) [
      | none ↦ none
      | some q' ↦ some (t ∷ q')
    ] in
    if token_eq t token then some q else rest

module _ {ℓ} {A : Type ℓ} where
  pub with_capacity : ℕ → ℕ → Fallible (Mailbox A)
  with_capacity capacity waiter_capacity =
      if capacity == 0
      then panics
      else returns (record {
        capacity = capacity;
        head = 0;
        tail = 0;
        len = 0;
        recv_waiters = [];
        send_waiters = [];
        waiter_capacity = waiter_capacity;
        buffer = replicate capacity none;
      })

  pub is_empty : Mailbox A → Bool
  is_empty m = m.len == 0

  pub is_full : Mailbox A → Bool
  is_full m = m.len == m.capacity

  pub should_wait : Mailbox A → MailboxWaitKind → Bool
  unfolding is_empty is_full
  should_wait m send = is_full m
  should_wait m recv = is_empty m

  abbrev pub waiters : Mailbox A → MailboxWaitKind → List WaitToken
  waiters m send = m.send_waiters
  waiters m recv = m.recv_waiters

  abbrev pub with_waiters : Mailbox A → MailboxWaitKind → List WaitToken → Mailbox A
  with_waiters m send q = record m { send_waiters = q }
  with_waiters m recv q = record m { recv_waiters = q }

  pub enqueue_waiter : Mailbox A → MailboxWaitKind → WaitToken → Fallible (Mailbox A)
  unfolding queued
  enqueue_waiter m kind token =
      if queued (waiters m kind) token
      then panics
      else if length (waiters m kind) == m.waiter_capacity
      then panics
      else returns (with_waiters m kind (waiters m kind ++ token ∷ []))

  pub claim_waiter : Mailbox A → MailboxWaitKind → Mailbox A × Option WaitToken
  claim_waiter m kind = elim (waiters m kind) [
    | [] ↦ (m, none)
    | t ∷ q ↦ (with_waiters m kind q, some t)
  ]

  pub remove_waiter : Mailbox A → MailboxWaitKind → WaitToken → Mailbox A × Bool
  unfolding remove_first
  remove_waiter m kind token = elim (remove_first (waiters m kind) token) [
    | none ↦ (m, false)
    | some q ↦ (with_waiters m kind q, true)
  ]

  -- The part of `try_send` under the lock: a message that finds no room is handed back.
  pub send_locked : Mailbox A → A → Fallible (Mailbox A × Result (Option WaitToken) A)
  unfolding is_full claim_waiter
  send_locked m msg =
      if is_full m
      then returns (m, err msg)
      else if ltb m.tail (length m.buffer)
      then (let (m', waiter) =
            claim_waiter
              (record m {
                buffer = set m.buffer m.tail (some msg);
                tail = (m.tail + 1) % m.capacity;
                len = m.len + 1;
              })
              recv in
          returns (m', ok waiter))
      else panics

  -- The part of `try_recv` under the lock; an empty slot below `len` panics.
  pub recv_locked : Mailbox A → Fallible (Mailbox A × Result (A × Option WaitToken) RecvError)
  unfolding is_empty claim_waiter
  recv_locked m = if is_empty m then returns (m, err empty) else elim (get_elem? m.buffer m.head) [
    | none ↦ panics
    | some none ↦ panics
    | some (some msg) ↦
        let (m', waiter) =
          claim_waiter
            (record m {
              buffer = set m.buffer m.head none;
              head = (m.head + 1) % m.capacity;
              len = m.len - 1;
            })
            send in
        returns (m', ok (msg, waiter))
  ]

  -- `on_mailbox_wait_sync` under the lock, with the token of the prepared wait: `none` is the
  -- return without a registration.
  pub publish_wait :
      Mailbox A → MailboxWaitKind → Option ℕ → ℕ → WaitToken → Fallible (Option (Mailbox A))
  unfolding should_wait enqueue_waiter
  publish_wait m kind timeout_deadline now token =
      if not (should_wait m kind)
      then returns none
      else if elim timeout_deadline [ none ↦ false | some deadline ↦ leb deadline now ]
      then returns none
      else elim (enqueue_waiter m kind token) [ panics ↦ panics | returns m' ↦ returns (some m') ]
