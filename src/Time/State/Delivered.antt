-- ===== src/Time/State/Delivered.antt =====
-- kernel/src/time.rs: which events a timer interrupt delivers, and in what order.
use genrt.Prelude.{
  ℕ, zero, suc, ◌+◌, ◌≤◌, ◌<◌, ◌≡◌, inl, inr, refl, sym, ap, ◌∙◌, subst, Bool, true, false, ◌||◌,
  Bool-cases, Option, none, some, Option-cases, List, [], ◌∷◌, arith, length, get_elem?, leb,
  if◌then◌else◌,
}
use genrt.Time.Event.{TimedEvent, event_eq, event_eq_iff, Le}
use genrt.Time.Queue.{DeadlineQueue}
use genrt.Time.Queue.View.{deadline_of, IsValid}
use genrt.Time.Queue.Effect.{Becomes}
use genrt.Time.Queue.Refine.{without}

pub is_due : ℕ → Option ℕ → Bool
is_due now none = false
is_due now (some d) = leb d now

pub later : ℕ → Option ℕ → Option ℕ
later now none = none
later now (some d) = if leb d now then none else some d

pub contains : TimedEvent → List TimedEvent → Bool
contains x [] = false
contains x (e ∷ es) = event_eq e x || contains x es

-- Earlier events come first.
abbrev pub Ordered : DeadlineQueue → List TimedEvent → Type 0
Ordered q events =
    (i j : ℕ) (x y : TimedEvent) (d e : ℕ)
    → i < j
    → get_elem? events i ≡ some x
    → get_elem? events j ≡ some y
    → deadline_of q.entries x ≡ some d
    → deadline_of q.entries y ≡ some e
    → Le (record { deadline = d; event = x }) (record { deadline = e; event = y })

-- These events were taken from the queue `q`, earliest first, and leave the queue `r`.
pub record Delivered (q : DeadlineQueue) (now : ℕ) (events : List TimedEvent) (r : DeadlineQueue)
    : Type 0 where
  pub valid : IsValid r
  pub capacity_kept : r.capacity ≡ q.capacity
  pub size : length events + length r.entries ≡ length q.entries
  pub remaining : (x : TimedEvent) → deadline_of r.entries x ≡ later now (deadline_of q.entries x)
  pub delivered : (x : TimedEvent) → contains x events ≡ is_due now (deadline_of q.entries x)
  pub ordered : Ordered q events

pub Delivered-none :
    (q : DeadlineQueue) (now : ℕ)
    → IsValid q
    → ((x : TimedEvent) (d : ℕ) → deadline_of q.entries x ≡ some d → now < d)
    → Delivered q now [] q
unfolding later contains is_due
Delivered-none q now v h = record {
  valid = v;
  capacity_kept = refl;
  size = omega arith;
  remaining = λ x. elim (Option-cases (deadline_of q.entries x)) [
    | inl e ↦ rw e refl
    | inr (d, e) ↦ let after = h x d e in ground arith
  ];
  delivered = λ x. elim (Option-cases (deadline_of q.entries x)) [
    | inl e ↦ rw e refl
    | inr (d, e) ↦ let after = h x d e in ground arith
  ];
  ordered = λ i j x y d e less at. ground arith;
}

-- The first event of a list is in it, and so is each of the rest.
contains-get_elem? :
    (events : List TimedEvent) (i : ℕ) (x : TimedEvent)
    → get_elem? events i ≡ some x
    → contains x events ≡ true
unfolding contains
contains-get_elem? [] i x h = ground arith
contains-get_elem? (e ∷ es) zero x h = ground (arith, (event_eq_iff e x).1)
contains-get_elem? (e ∷ es) (suc i) x h = ground (arith, contains-get_elem? es i x h)

still_due :
    (q r : DeadlineQueue) (now : ℕ) (event : TimedEvent) (events : List TimedEvent)
    (r' : DeadlineQueue) (x : TimedEvent)
    → Becomes q (without q event) r
    → Delivered r now events r'
    → contains x events ≡ true
    → deadline_of r.entries x ≡ deadline_of q.entries x
unfolding is_due
still_due q r now event events r' x b rest within =
    let due : is_due now (deadline_of r.entries x) ≡ true = sym (rest.delivered x) ∙ within in
    elim (Bool-cases (event_eq event x)) [
      | inl w ↦
          let gone : deadline_of r.entries x ≡ none = b.deadlines x ∙ rw w refl in
          absurd (ground arith)
      | inr w ↦ b.deadlines x ∙ rw w refl
    ]

Ordered-next :
    (q r : DeadlineQueue) (now : ℕ) (event : TimedEvent) (due : ℕ) (events : List TimedEvent)
    (r' : DeadlineQueue)
    → deadline_of q.entries event ≡ some due
    → ((x : TimedEvent) (d : ℕ)
        → deadline_of q.entries x ≡ some d
        → Le (record { deadline = due; event = event }) (record { deadline = d; event = x }))
    → Becomes q (without q event) r
    → Delivered r now events r'
    → Ordered q (event ∷ events)
Ordered-next q r now event due events r' at least b rest zero j x y d e less first second dx dy =
    let same : event ≡ x = ground arith in
    let head : Option ℕ = deadline_of q.entries event in
    let when : some due ≡ some d = sym at ∙ ap (λ z. deadline_of q.entries z) same ∙ dx in
    let due_same : due ≡ d = ground arith in
    subst (λ en. Le en (record { deadline = e; event = y }))
      (λ i. record { deadline = due_same i; event = same i }) (least y e dy)
Ordered-next q r now event due events r' at least b rest (suc i) zero x y d e less first second dx
      dy =
    absurd (omega arith)
Ordered-next q r now event due events r' at least b rest (suc i) (suc j) x y d e less first second
      dx dy =
    rest.ordered i j x y d e (omega arith) first second
      (still_due q r now event events r' x b rest (contains-get_elem? events i x first) ∙ dx)
      (still_due q r now event events r' y b rest (contains-get_elem? events j y second) ∙ dy)

pub Delivered-next :
    (q r : DeadlineQueue) (now : ℕ) (event : TimedEvent) (due : ℕ) (events : List TimedEvent)
    (r' : DeadlineQueue)
    → deadline_of q.entries event ≡ some due
    → due ≤ now
    → ((x : TimedEvent) (d : ℕ)
        → deadline_of q.entries x ≡ some d
        → Le (record { deadline = due; event = event }) (record { deadline = d; event = x }))
    → Becomes q (without q event) r
    → length q.entries ≡ suc (length r.entries)
    → Delivered r now events r'
    → Delivered q now (event ∷ events) r'
unfolding later contains is_due
Delivered-next q r now event due events r' at early least b size rest =
    let same : (x : TimedEvent) → event_eq event x ≡ true → deadline_of q.entries x ≡ some due =
      λ x w. subst (λ y. deadline_of q.entries y ≡ some due) ((event_eq_iff event x).0 w) at in
    record {
      valid = rest.valid;
      capacity_kept = rest.capacity_kept ∙ b.capacity_kept;
      size = omega (arith, rest.size);
      remaining = λ x.
          rest.remaining x ∙ ap (later now) (b.deadlines x) ∙ elim (Bool-cases (event_eq event x)) [
            | inl w ↦
                rw (w, same x w) (let due_now : leb due now ≡ true = ground arith in ground arith)
            | inr w ↦ rw w refl
          ];
      delivered = λ x.
          ap (λ c. event_eq event x || c) (rest.delivered x ∙ ap (is_due now) (b.deadlines x))
          ∙ elim (Bool-cases (event_eq event x)) [
            | inl w ↦
                rw (w, same x w) (let due_now : leb due now ≡ true = ground arith in ground arith)
            | inr w ↦ rw w refl
          ];
      ordered = Ordered-next q r now event due events r' at least b rest;
    }
