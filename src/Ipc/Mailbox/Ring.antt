-- ===== src/Ipc/Mailbox/Ring.antt =====
-- The messages that a mailbox holds, and how its ring carries them.
use genrt.Prelude.{
  ℕ, zero, suc, ◌+◌, ◌-◌, ◌%◌, ◌≤◌, ◌<◌, ◌≡◌, ◌⊎◌, inl, inr, refl, sym, ap, ◌∙◌, subst, none, some,
  List, [], ◌∷◌, ◌++◌, arith, length, get_elem?, set, replicate, returns, length-set, length-append,
  length-replicate, get_elem?-set_self, get_elem?-set_ne, get_elem?-length,
}
use native.Mathlib.Nat.{mod-eq_of_lt}
use genrt.Sched.Ids.{WaitToken}
use genrt.Ipc.Mailbox.{
  Mailbox, with_capacity, waiters, with_waiters, claim_waiter, send, recv, MailboxWaitKind,
}
use genrt.Ipc.Mailbox.Wrap.{wrap-apart, wrap-next, wrap-lt, List-cases, wrap-step, wrap-here}

module _ {ℓ} {A : Type ℓ} where
  -- The mailbox holds the messages `xs`, oldest first.
  pub record Holds (m : Mailbox A) (xs : List A) : Type ℓ where
    pub size : length m.buffer ≡ m.capacity
    pub head_in : m.head < m.capacity
    pub tail_at : m.tail ≡ (m.head + m.len) % m.capacity
    pub count : m.len ≡ length xs
    pub bounded : m.len ≤ m.capacity
    pub slots :
        (i : ℕ) (x : A)
        → get_elem? xs i ≡ some x
        → get_elem? m.buffer ((m.head + i) % m.capacity) ≡ some (some x)

  pub get_elem?-last :
      (xs : List A) (v : A) (i : ℕ) (x : A)
      → get_elem? (xs ++ v ∷ []) i ≡ some x
      → ((i < length xs) × (get_elem? xs i ≡ some x)) ⊎ ((i ≡ length xs) × (v ≡ x))
  get_elem?-last [] v zero x h = inr (omega arith, ground arith)
  get_elem?-last [] v (suc i) x h = ground arith
  get_elem?-last (y ∷ ys) v zero x h = inl (omega arith, h)
  get_elem?-last (y ∷ ys) v (suc i) x h = elim (get_elem?-last ys v i x h) [
    | inl (low, e) ↦ inl (omega arith, e)
    | inr (at, e) ↦ inr (omega (arith, at), e)
  ]

  pub with_capacity-Holds :
      (capacity waiters : ℕ)
      → 0 < capacity
      → (m : Mailbox A) × (with_capacity capacity waiters ≡ returns m) × Holds m []
  unfolding with_capacity
  with_capacity-Holds capacity waiters h = (
    record {
      capacity = capacity;
      head = 0;
      tail = 0;
      len = 0;
      recv_waiters = [];
      send_waiters = [];
      waiter_capacity = waiters;
      buffer = replicate capacity none;
    },
    ground arith,
    record {
      size = length-replicate capacity none;
      head_in = h;
      tail_at = sym (ap (λ z. z % capacity) (omega arith) ∙ mod-eq_of_lt {n = 0} {m = capacity} h);
      count = refl;
      bounded = omega arith;
      slots = λ i x e. ground (arith, e);
    },
  )

  pub with_waiters-Holds :
      (m : Mailbox A) (kind : MailboxWaitKind) (q : List WaitToken) (xs : List A)
      → Holds m xs
      → Holds (with_waiters m kind q) xs
  with_waiters-Holds m send q xs h = record {
    size = h.size;
    head_in = h.head_in;
    tail_at = h.tail_at;
    count = h.count;
    bounded = h.bounded;
    slots = h.slots;
  }
  with_waiters-Holds m recv q xs h = record {
    size = h.size;
    head_in = h.head_in;
    tail_at = h.tail_at;
    count = h.count;
    bounded = h.bounded;
    slots = h.slots;
  }

  pub claim_waiter-Holds :
      (m : Mailbox A) (kind : MailboxWaitKind) (xs : List A)
      → Holds m xs
      → Holds (claim_waiter m kind).0 xs
  unfolding claim_waiter
  claim_waiter-Holds m kind xs h = elim (List-cases (waiters m kind)) [
    | inl e ↦ subst (λ z. Holds z xs) (sym (nobody m kind e)) h
    | inr (t, q, e) ↦
        subst (λ z. Holds z xs) (sym (somebody m kind t q e)) (with_waiters-Holds m kind q xs h)
  ]
    where
      nobody :
          (m : Mailbox A) (kind : MailboxWaitKind)
          → waiters m kind ≡ []
          → (claim_waiter m kind).0 ≡ m
      nobody m kind e = rw (e, claim_waiter) refl

      somebody :
          (m : Mailbox A) (kind : MailboxWaitKind) (t : WaitToken) (q : List WaitToken)
          → waiters m kind ≡ t ∷ q
          → (claim_waiter m kind).0 ≡ with_waiters m kind q
      somebody m kind t q e = rw (e, claim_waiter) refl

  -- The mailbox with one more message, and with one less, before a waiter is claimed.
  abbrev pub pushed : Mailbox A → A → Mailbox A
  pushed m v = record m {
    buffer = set m.buffer m.tail (some v);
    tail = (m.tail + 1) % m.capacity;
    len = m.len + 1;
  }

  abbrev pub popped : Mailbox A → Mailbox A
  popped m = record m {
    buffer = set m.buffer m.head none;
    head = (m.head + 1) % m.capacity;
    len = m.len - 1;
  }

  pub tail_in : (m : Mailbox A) (xs : List A) → Holds m xs → m.tail < length m.buffer
  tail_in m xs h =
      let low = wrap-lt (m.head + m.len) m.capacity (omega (arith, h.head_in, h.bounded)) in
      omega (arith, h.tail_at, h.size, low)

  pub pushed-Holds :
      (m : Mailbox A) (xs : List A) (v : A)
      → Holds m xs
      → m.len < m.capacity
      → Holds (pushed m v) (xs ++ v ∷ [])
  pushed-Holds m xs v h room = record {
    size = length-set m.buffer m.tail (some v) ∙ h.size;
    head_in = h.head_in;
    tail_at =
        ap (λ z. (z + 1) % m.capacity) h.tail_at
        ∙ wrap-step (m.head + m.len) m.capacity (omega (arith, h.head_in))
        ∙ ap (λ z. z % m.capacity) (omega arith);
    count = omega (arith, h.count, length-append xs (v ∷ []));
    bounded = omega arith;
    slots = λ i x e. elim (get_elem?-last xs v i x e) [
      | inl (low, old) ↦
          get_elem?-set_ne m.buffer (some v) (λ same.
            wrap-apart m.head i m.len m.capacity h.head_in (omega (arith, h.count)) room
              (sym same ∙ h.tail_at))
          ∙ h.slots i x old
      | inr (last, now) ↦
          ap (get_elem? (set m.buffer m.tail (some v)))
            (sym (h.tail_at ∙ ap (λ z. (m.head + z) % m.capacity) (h.count ∙ sym last)))
          ∙ get_elem?-set_self m.buffer m.tail (some v) (tail_in m xs h)
          ∙ ap (λ z. some (some z)) now
    ];
  }

  pub popped-Holds : (m : Mailbox A) (x : A) (xs : List A) → Holds m (x ∷ xs) → Holds (popped m) xs
  popped-Holds m x xs h = record {
    size = length-set m.buffer m.head none ∙ h.size;
    head_in = wrap-lt (m.head + 1) m.capacity (omega (arith, h.head_in));
    tail_at =
        h.tail_at
        ∙ ap (λ z. (m.head + z) % m.capacity) (omega (arith, h.count))
        ∙ sym
            (wrap-next m.head (m.len - 1) m.capacity h.head_in (omega (arith, h.bounded, h.count)));
    count = omega (arith, h.count);
    bounded = omega (arith, h.bounded);
    slots = λ i y e.
        let low : suc i < m.capacity =
          omega (arith, get_elem?-length xs i y e, h.count, h.bounded) in
        get_elem?-set_ne m.buffer none (λ same.
          wrap-apart m.head 0 (suc i) m.capacity h.head_in (omega arith) low (
            wrap-here m.head m.capacity h.head_in
            ∙ same
            ∙ wrap-next m.head i m.capacity h.head_in (omega arith)))
        ∙ ap (get_elem? m.buffer) (wrap-next m.head i m.capacity h.head_in (omega arith))
        ∙ h.slots (suc i) y e;
  }
