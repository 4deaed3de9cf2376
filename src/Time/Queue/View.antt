-- ===== src/Time/Queue/View.antt =====
-- kernel/src/time.rs: a deadline queue as a finite map from events to deadlines.
use genrt.Prelude.{
  ℕ, suc, ◌+◌, ◌≤◌, ◌<◌, ◌≡◌, inl, inr, refl, sym, ◌∙◌, subst, Bool, true, ◌&&◌, Bool-cases, Option,
  none, some, Option-cases, [], ◌∷◌, arith, length, ◌==◌, if◌then◌else◌,
}
use genrt.Time.Event.{TimedEvent, event_eq, event_eq_iff, DeadlineEntry}
use genrt.Time.Queue.{Entries, DeadlineQueue, find_from}
use genrt.Time.Queue.Order.{entry_at, IsHeap, tally, tally-entry_at}

-- The deadline of the first entry with the event.
unfoldable pub deadline_of : Entries → TimedEvent → Option ℕ
deadline_of [] x = none
deadline_of (e ∷ es) x = if event_eq e.event x then some e.deadline else deadline_of es x

abbrev pub has_event : TimedEvent → DeadlineEntry → Bool
has_event x e = event_eq e.event x

abbrev pub has_both : TimedEvent → ℕ → DeadlineEntry → Bool
has_both x d e = event_eq e.event x && e.deadline == d

-- A heap whose events differ, within its capacity.
pub record IsValid (q : DeadlineQueue) : Type 0 where
  pub heap : IsHeap q.entries
  pub distinct : (x : TimedEvent) → tally (has_event x) q.entries ≤ 1
  pub bounded : length q.entries ≤ q.capacity

pub has_both-has_event :
    (es : Entries) (x : TimedEvent) (d : ℕ) → tally (has_both x d) es ≤ tally (has_event x) es
unfolding tally
has_both-has_event [] x d = omega arith
has_both-has_event (e ∷ es) x d = ground (arith, has_both-has_event es x d)

pub deadline_of-absent :
    (es : Entries) (x : TimedEvent) → tally (has_event x) es ≡ 0 → deadline_of es x ≡ none
unfolding tally deadline_of
deadline_of-absent [] x h = refl
deadline_of-absent (e ∷ es) x h = ground (arith, deadline_of-absent es x)

pub deadline_of-held :
    (es : Entries) (x : TimedEvent) (d : ℕ)
    → tally (has_event x) es ≤ 1
    → 0 < tally (has_both x d) es
    → deadline_of es x ≡ some d
unfolding tally deadline_of
deadline_of-held [] x d h k = absurd (omega arith)
deadline_of-held (e ∷ es) x d h k =
    ground (arith, has_both-has_event es x d, deadline_of-held es x d)

pub deadline_of-some :
    (es : Entries) (x : TimedEvent) (d : ℕ)
    → deadline_of es x ≡ some d
    → 0 < tally (has_both x d) es
unfolding tally deadline_of
deadline_of-some [] x d h = ground arith
deadline_of-some (e ∷ es) x d h = ground (arith, deadline_of-some es x d)

pub deadline_of-none :
    (es : Entries) (x : TimedEvent) → deadline_of es x ≡ none → tally (has_event x) es ≡ 0
unfolding tally deadline_of
deadline_of-none [] x h = refl
deadline_of-none (e ∷ es) x h = ground (arith, deadline_of-none es x)

-- The same entries with the event, counted, give the same deadline.
pub deadline_of-same :
    (es fs : Entries) (x : TimedEvent)
    → tally (has_event x) es ≤ 1
    → tally (has_event x) fs ≡ tally (has_event x) es
    → ((d : ℕ) → tally (has_both x d) fs ≡ tally (has_both x d) es)
    → deadline_of fs x ≡ deadline_of es x
deadline_of-same es fs x h same both = elim (Option-cases (deadline_of es x)) [
  | inl e ↦ deadline_of-absent fs x (same ∙ deadline_of-none es x e) ∙ sym e
  | inr (d, e) ↦
      deadline_of-held fs x d (omega arith) (omega (arith, both d, deadline_of-some es x d e))
      ∙ sym e
]

-- What the search finds, from its first place on.
find_from-some :
    (es : Entries) (x : TimedEvent) (base i : ℕ)
    → find_from es x base ≡ some i
    → (j : ℕ) × (i ≡ base + j) × (j < length es) × (event_eq (entry_at es j).event x ≡ true)
unfolding find_from entry_at
find_from-some [] x base i h = ground arith
find_from-some (e ∷ es) x base i h = elim (Bool-cases (event_eq e.event x)) [
  | inl w ↦ (0, ground arith, omega arith, w)
  | inr w ↦
      let (j, at, inside, same) = find_from-some es x (base + 1) i (ground arith) in
      (suc j, omega arith, omega arith, same)
]

pub find_from-found :
    (es : Entries) (x : TimedEvent) (i : ℕ)
    → find_from es x 0 ≡ some i
    → (i < length es) × ((entry_at es i).event ≡ x)
find_from-found es x i h =
    let (j, at, inside, same) = find_from-some es x 0 i h in
    subst (λ k. (k < length es) × ((entry_at es k).event ≡ x)) (sym (at ∙ omega arith))
      (inside, (event_eq_iff (entry_at es j).event x).0 same)

pub find_from-none :
    (es : Entries) (x : TimedEvent) (base : ℕ)
    → find_from es x base ≡ none
    → tally (has_event x) es ≡ 0
unfolding find_from tally
find_from-none [] x base h = refl
find_from-none (e ∷ es) x base h = ground (arith, find_from-none es x (base + 1))

-- An entry with the deadline that the map gives.
pub deadline_of-entry :
    (es : Entries) (x : TimedEvent) (d : ℕ)
    → deadline_of es x ≡ some d
    → (i : ℕ) × (i < length es) × (entry_at es i ≡ record { deadline = d; event = x })
unfolding deadline_of entry_at
deadline_of-entry [] x d h = ground arith
deadline_of-entry (e ∷ es) x d h = elim (Bool-cases (event_eq e.event x)) [
  | inl w ↦
      let same = (event_eq_iff e.event x).0 w in
      let due : e.deadline ≡ d = ground arith in
      (0, omega arith, λ i. record { deadline = due i; event = same i })
  | inr w ↦
      let (i, inside, at) = deadline_of-entry es x d (ground arith) in (suc i, omega arith, at)
]

-- The map gives the deadline of each entry.
pub deadline_of-entry_at :
    (es : Entries) (i : ℕ)
    → tally (has_event (entry_at es i).event) es ≤ 1
    → i < length es
    → deadline_of es (entry_at es i).event ≡ some (entry_at es i).deadline
deadline_of-entry_at es i few inside =
    let e = entry_at es i in
    let itself = (event_eq_iff e.event e.event).1 refl in
    deadline_of-held es e.event e.deadline few
      (grind (arith, tally-entry_at (has_both e.event e.deadline) es i inside))
