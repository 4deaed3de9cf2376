-- ===== src/Time/Queue.antt =====
-- kernel/src/time.rs: the deadline queue, a binary heap in a vector that was reserved at boot. An
-- index out of range panics. The loops run on fuel.
use genrt.Prelude.{
  ℕ, zero, suc, ◌+◌, ◌-◌, ◌*◌, ◌/◌, Bool, true, false, ◌&&◌, Option, none, some, List, [], ◌∷◌,
  ◌++◌, ltb, leb, ◌==◌, if◌then◌else◌, length, get_elem?, set, take, Result, ok, err,
}
use genrt.Prelude.Running.{Run, done, panic, out_of_fuel, ◌>>=◌, expect}
use genrt.Time.Event.{TimedEvent, event_eq, DeadlineEntry, entry_less}
mod Examples
pub mod Order
pub mod Up
pub mod Down
pub mod Place
pub mod Remove
pub mod View
pub mod Effect
pub mod Refine

pub data TimeInitError : Type 0 where
  invalid_cpu_count already_initialized capacity_overflow out_of_memory : TimeInitError

-- `capacity` is what was reserved for the vector.
pub record DeadlineQueue : Type 0 where
  pub entries : List DeadlineEntry
  pub capacity : ℕ

abbrev pub Entries : Type 0
Entries = List DeadlineEntry

unfoldable pub try_with_capacity : (ℕ → Bool) → ℕ → Result DeadlineQueue TimeInitError
try_with_capacity can_reserve capacity =
    if can_reserve capacity
    then ok (record { entries = []; capacity = capacity })
    else err out_of_memory

-- The place of the first entry with the event, counted from `index`.
unfoldable pub find_from : Entries → TimedEvent → ℕ → Option ℕ
find_from [] event index = none
find_from (e ∷ es) event index =
    let rest = find_from es event (index + 1) in if event_eq e.event event then some index else rest

unfoldable pub find_event_index : DeadlineQueue → TimedEvent → Option ℕ
unfolding find_from
find_event_index q event = find_from q.entries event 0

unfoldable pub event_pending : DeadlineQueue → TimedEvent → Bool
unfolding find_event_index
event_pending q event = elim (find_event_index q event) [ none ↦ false | some i ↦ true ]

unfoldable pub next_deadline : DeadlineQueue → Option ℕ
next_deadline q = elim (get_elem? q.entries 0) [ none ↦ none | some e ↦ some e.deadline ]

abbrev pub parent : ℕ → ℕ
parent index = (index - 1) / 2

abbrev pub left : ℕ → ℕ
left index = index * 2 + 1

unfoldable pub less : Entries → ℕ → ℕ → Run Bool
less es lhs rhs = do
  l ← expect (get_elem? es lhs)
  r ← expect (get_elem? es rhs)
  done (entry_less l r)

unfoldable pub swap : Entries → ℕ → ℕ → Run Entries
swap es i j = do
  x ← expect (get_elem? es i)
  y ← expect (get_elem? es j)
  done (set (set es i y) j x)

unfoldable pub sift_up : ℕ → Entries → ℕ → Run Entries
sift_up zero es index = out_of_fuel
sift_up (suc fuel) es index =
    let rise : Run Entries =
      swap es index (parent index) >>= λ es'. sift_up fuel es' (parent index) in
    let turn : Run Entries =
      less es index (parent index) >>= λ above. if above then rise else done es in
    if ltb 0 index then turn else done es

-- The child that `sift_down` compares with its parent.
unfoldable pub best_child : Entries → ℕ → Run ℕ
best_child es index =
    if ltb (left index + 1) (length es)
    then (less es (left index + 1) (left index) >>= λ smaller.
        done (if smaller then left index + 1 else left index))
    else done (left index)

unfoldable pub sift_down : ℕ → Entries → ℕ → Run Entries
sift_down zero es index = out_of_fuel
sift_down (suc fuel) es index =
    let turn : Run Entries = best_child es index >>= λ best.
    let sink : Run Entries = swap es index best >>= λ es'. sift_down fuel es' best in
    less es best index >>= λ below. if below then sink else done es in
    if leb (length es) (left index) then done es else turn

abbrev pub with_entries : DeadlineQueue → Entries → DeadlineQueue
with_entries q es = record q { entries = es }

-- The deadline of an entry replaced, and the entry moved to its place.
unfoldable pub reschedule : Entries → ℕ → ℕ → Run Entries
reschedule es index deadline = expect (get_elem? es index) >>= λ old.
    let es' : Entries = set es index (record old { deadline = deadline }) in
    let later : Run Entries =
      if ltb old.deadline deadline then sift_down (length es' + 1) es' index else done es' in
    if ltb deadline old.deadline then sift_up (index + 1) es' index else later

unfoldable pub schedule : DeadlineQueue → ℕ → TimedEvent → Run DeadlineQueue
unfolding reschedule find_event_index
schedule q deadline event = elim (find_event_index q event) [
  | some index ↦ do es ← reschedule q.entries index deadline; done (with_entries q es)
  | none ↦ if length q.entries == q.capacity then panic else (do
    es ←
        sift_up (length q.entries + 1)
          (q.entries ++ record { deadline = deadline; event = event } ∷ []) (length q.entries)
    done (with_entries q es))
]

-- The entry that stands at `index` once the last was moved there finds its place.
unfoldable pub settle : Entries → ℕ → Run Entries
settle es index =
    let down : Run Entries = sift_down (length es + 1) es index in
    let choose : Run Entries = less es index (parent index) >>= λ above.
    if above then sift_up (index + 1) es index else down in
    if ltb index (length es) then (if ltb 0 index then choose else down) else done es

-- On an empty queue the subtraction of one underflows.
unfoldable pub remove_at : Entries → ℕ → Run (DeadlineEntry × Entries)
unfolding settle
remove_at es index = if length es == 0 then panic else (do
  swapped ← swap es index (length es - 1)
  removed ← expect (get_elem? swapped (length es - 1))
  rest ← settle (take (length es - 1) swapped) index
  done (removed, rest))

unfoldable pub cancel : DeadlineQueue → TimedEvent → Run (DeadlineQueue × Bool)
unfolding find_event_index remove_at
cancel q event = elim (find_event_index q event) [
  | none ↦ done (q, false)
  | some index ↦ do r ← remove_at q.entries index; done (with_entries q r.1, true)
]

unfoldable pub pop_expired : DeadlineQueue → ℕ → Run (DeadlineQueue × Option TimedEvent)
unfolding remove_at
pop_expired q now = elim (get_elem? q.entries 0) [
  | none ↦ done (q, none)
  | some entry ↦
      if ltb now entry.deadline
      then done (q, none)
      else (do r ← remove_at q.entries 0; done (with_entries q r.1, some r.0.event))
]
