-- ===== src/Time/Convert/Examples.antt =====
-- kernel/src/time.rs: conversions at concrete frequencies.
use genrt.Prelude.{◌+◌, ◌*◌, ◌≤◌, ◌≡◌, ◌↔◌, refl, ok, checked_add, arith}
use genrt.Time.Convert.{billion, counter_to_monotonic_time, monotonic_time_to_counter}
use genrt.Time.Convert.Round.{
  wide_reference, monotonic_time_to_counter-wide, monotonic_time_to_counter-least,
}
use genrt.Time.Convert.Roundtrip.{counter-roundtrip}

monotonic_time_to_counter-wide_example :
    monotonic_time_to_counter 7 999_999_999 19_200_000 ≡ wide_reference 7 999_999_999 19_200_000
monotonic_time_to_counter-wide_example = monotonic_time_to_counter-wide 7 999_999_999 19_200_000

one_and_a_bit : monotonic_time_to_counter 1 1 1_000_000 ≡ ok 1_000_001
unfolding monotonic_time_to_counter checked_add
one_and_a_bit = refl

monotonic_time_to_counter-least_example :
    (1_000_001 ≤ 1_000_000) ↔ ((1 * billion + 1) * 1_000_000 ≤ 1_000_000 * billion)
monotonic_time_to_counter-least_example =
    monotonic_time_to_counter-least 1 1 1_000_000 1_000_001 1_000_000 one_and_a_bit

half_past :
    counter_to_monotonic_time 1_500_001 1_000_000
    ≡ ok (record { seconds = 1; nanoseconds = 500_001_000 })
unfolding counter_to_monotonic_time
half_past = refl

counter-roundtrip_example : monotonic_time_to_counter 1 500_001_000 1_000_000 ≡ ok 1_500_001
counter-roundtrip_example =
    counter-roundtrip 1_500_001 1_000_000 (record { seconds = 1; nanoseconds = 500_001_000 })
      (omega arith) (omega arith) half_past
