-- ===== src/Time/Event.antt =====
-- kernel/src/time.rs: timed events and the order of the entries that carry them.
use genrt.Prelude.{ℕ, ◌≡◌, ◌↔◌, Bool, true, false, ◌&&◌, ◌||◌, arith, ltb, ◌==◌}
use genrt.Sched.Ids.{CpuId, ThreadId, WaitToken, thread_eq, token_eq, thread_eq_iff, token_eq_iff}

pub data TimedEvent : Type 0 where
  wait_deadline : (cpu : CpuId) (token : WaitToken) → TimedEvent
  quantum_expired : (cpu : CpuId) (thread : ThreadId) → TimedEvent

-- `TimedEvent::wait_deadline`: the token's home CPU owns the event.
pub wait_deadline_of : WaitToken → TimedEvent
wait_deadline_of token = wait_deadline token.cpu token

unfoldable pub cpu_of : TimedEvent → CpuId
cpu_of (wait_deadline cpu token) = cpu
cpu_of (quantum_expired cpu thread) = cpu

-- The derived `PartialEq`.
unfoldable pub event_eq : TimedEvent → TimedEvent → Bool
event_eq (wait_deadline c t) (wait_deadline c' t') = c == c' && token_eq t t'
event_eq (quantum_expired c t) (quantum_expired c' t') = c == c' && thread_eq t t'
event_eq (wait_deadline c t) (quantum_expired c' t') = false
event_eq (quantum_expired c t) (wait_deadline c' t') = false

-- The tuple that `sort_key` returns.
pub record SortKey : Type 0 where
  pub class : ℕ
  pub index : ℕ
  pub generation : ℕ
  pub sequence : ℕ

unfoldable pub sort_key : TimedEvent → SortKey
sort_key (wait_deadline cpu token) = record {
  class = 0;
  index = token.thread.index;
  generation = token.thread.generation;
  sequence = token.sequence;
}
sort_key (quantum_expired cpu thread) = record {
  class = 1;
  index = thread.index;
  generation = thread.generation;
  sequence = 0;
}

-- `<` of two tuples.
unfoldable pub key_less : SortKey → SortKey → Bool
key_less a b =
    ltb a.class b.class
    || (a.class == b.class
        && (ltb a.index b.index
            || (a.index == b.index
                && (ltb a.generation b.generation
                    || (a.generation == b.generation && ltb a.sequence b.sequence)))))

pub record DeadlineEntry : Type 0 where
  pub deadline : ℕ
  pub event : TimedEvent

-- The comparison of `DeadlineQueue::less`.
unfoldable pub entry_less : DeadlineEntry → DeadlineEntry → Bool
entry_less l r =
    ltb l.deadline r.deadline
    || (l.deadline == r.deadline && key_less (sort_key l.event) (sort_key r.event))

-- One entry may stand before another: it is not after it.
abbrev pub Le : DeadlineEntry → DeadlineEntry → Type 0
Le a b = entry_less b a ≡ false

key_less_irrefl : (a : SortKey) → key_less a a ≡ false
unfolding key_less
key_less_irrefl a = ground arith

key_less_asym : (a b : SortKey) → key_less a b ≡ true → key_less b a ≡ false
unfolding key_less
key_less_asym a b h = ground arith

key_less_trans :
    (a b c : SortKey) → key_less b a ≡ false → key_less c b ≡ false → key_less c a ≡ false
unfolding key_less
key_less_trans a b c h k = ground arith

pub Le_refl : (a : DeadlineEntry) → Le a a
unfolding entry_less
Le_refl a = ground (arith, key_less_irrefl (sort_key a.event))

pub Le_trans : (a b c : DeadlineEntry) → Le a b → Le b c → Le a c
unfolding entry_less
Le_trans a b c h k =
    ground (arith, key_less_trans (sort_key a.event) (sort_key b.event) (sort_key c.event))

pub less-Le : (a b : DeadlineEntry) → entry_less a b ≡ true → Le a b
unfolding entry_less
less-Le a b h = ground (arith, key_less_asym (sort_key a.event) (sort_key b.event))

-- What stands before another has no later deadline.
pub Le-deadline : (a b : DeadlineEntry) → Le a b → ltb b.deadline a.deadline ≡ false
unfolding entry_less
Le-deadline a b h = ground arith

pub event_eq_iff : (a b : TimedEvent) → (event_eq a b ≡ true) ↔ (a ≡ b)
unfolding event_eq
event_eq_iff (wait_deadline c t) (wait_deadline c' t') =
    (λ h. ground (arith, (token_eq_iff t t').0), λ h. ground (arith, (token_eq_iff t t').1))
event_eq_iff (quantum_expired c t) (quantum_expired c' t') =
    (λ h. ground (arith, (thread_eq_iff t t').0), λ h. ground (arith, (thread_eq_iff t t').1))
event_eq_iff (wait_deadline c t) (quantum_expired c' t') = (λ h. ground arith, λ h. ground arith)
event_eq_iff (quantum_expired c t) (wait_deadline c' t') = (λ h. ground arith, λ h. ground arith)
