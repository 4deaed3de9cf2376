-- ===== src/Time/Convert/Roundtrip.antt =====
-- kernel/src/time.rs: a counter value converted to civil time and back.
use genrt.Prelude.{
  ℕ, ◌+◌, ◌*◌, ◌/◌, ◌%◌, ◌^◌, ◌≤◌, ◌<◌, ◌≡◌, inl, inr, sym, ◌∙◌, subst, Bool-cases, arith, ok, ltb,
  usize_max,
}
use native.Mathlib.Nat.{div-add-mod', mod-lt, mod-eq_of_lt}
use genrt.Time.Convert.{
  MonotonicTime, billion, try_from, counter_to_monotonic_time, monotonic_time_to_counter,
}
use genrt.Time.Convert.Round.{
  wide_counter, wide_reference, wide_counter-least, monotonic_time_to_counter-wide,
}

-- The time of a counter value: normalized, and the greatest not after it.
pub record IsTimeOf (counter frequency : ℕ) (t : MonotonicTime) : Type 0 where
  pub normalized : t.nanoseconds < billion
  pub reached : (t.seconds * billion + t.nanoseconds) * frequency ≤ counter * billion
  pub last : counter * billion < (t.seconds * billion + t.nanoseconds + 1) * frequency

small_quotient : (a b c : ℕ) → a < b * c → 0 < b → a / b < c
small_quotient a b c h pos =
    let split = div-add-mod' a b in
    elim (Bool-cases (ltb (a / b) c)) [
      | inl e ↦ ground arith
      | inr e ↦
          let big : c ≤ a / b = ground arith in
          let scaled : c * b ≤ a / b * b = grind arith in absurd (omega arith)
    ]

-- The time of a counter value is normalized, not after it, and the last such in nanoseconds.
pub counter_to_monotonic_time-IsTimeOf :
    (counter frequency : ℕ) (t : MonotonicTime)
    → counter_to_monotonic_time counter frequency ≡ ok t
    → IsTimeOf counter frequency t
unfolding counter_to_monotonic_time
counter_to_monotonic_time-IsTimeOf counter frequency t h =
    let pos : 0 < frequency = ground arith in
    let r = counter % frequency in
    let whole = div-add-mod' counter frequency in
    let part = div-add-mod' (r * billion) frequency in
    let left = mod-lt (r * billion) pos in
    let below : r < frequency = mod-lt counter pos in
    let few : r * billion / frequency < billion =
      small_quotient (r * billion) frequency billion (omega arith) pos in
    let seconds : t.seconds ≡ counter / frequency = ground arith in
    let nanoseconds : t.nanoseconds ≡ r * billion / frequency % 2 ^ 32 = ground arith in
    let narrow : t.nanoseconds ≡ r * billion / frequency =
      nanoseconds ∙ mod-eq_of_lt (omega arith) in
    let whole' : t.seconds * frequency + r ≡ counter =
      subst (λ q. q * frequency + r ≡ counter) (sym seconds) whole in
    let part' : t.nanoseconds * frequency + r * billion % frequency ≡ r * billion =
      subst (λ q. q * frequency + r * billion % frequency ≡ r * billion) (sym narrow) part in
    record { normalized = omega arith; reached = omega arith; last = omega arith }

-- A count below the greatest has an earlier time.
no_earlier :
    (counter frequency : ℕ) (t : MonotonicTime)
    → frequency ≤ billion
    → IsTimeOf counter frequency t
    → counter ≤ wide_counter t.seconds t.nanoseconds frequency
no_earlier counter frequency t h v =
    let c = wide_counter t.seconds t.nanoseconds frequency in
    let reach = (wide_counter-least t.seconds t.nanoseconds frequency c).0 (omega arith) in
    omega (arith, v.last)

-- At a frequency up to 1 GHz a counter value converts to a time that converts back to it.
pub counter-roundtrip :
    (counter frequency : ℕ) (t : MonotonicTime)
    → counter ≤ usize_max
    → frequency ≤ billion
    → counter_to_monotonic_time counter frequency ≡ ok t
    → monotonic_time_to_counter t.seconds t.nanoseconds frequency ≡ ok counter
unfolding wide_reference try_from counter_to_monotonic_time
counter-roundtrip counter frequency t small slow h =
    let v = counter_to_monotonic_time-IsTimeOf counter frequency t h in
    let at_most = (wide_counter-least t.seconds t.nanoseconds frequency counter).1 v.reached in
    let at_least = no_earlier counter frequency t slow v in
    monotonic_time_to_counter-wide t.seconds t.nanoseconds frequency ∙ ground (arith, v.normalized)
