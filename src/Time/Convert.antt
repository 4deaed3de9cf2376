-- ===== src/Time/Convert.antt =====
-- kernel/src/time.rs: the conversions between the counter and civil time. `u64` and `u128`
-- arithmetic is exact where the code checks it, and bounded where the theorems say so.
use genrt.Prelude.{
  ℕ, zero, suc, ◌+◌, ◌-◌, ◌*◌, ◌/◌, ◌%◌, ◌^◌, ◌≤◌, ◌<◌, ◌≡◌, ◌≢◌, ◌⊎◌, ◌↔◌, min, max, inl, inr,
  refl, sym, ap, ◌∙◌, subst, Bool, true, false, not, ◌&&◌, ◌||◌, Bool-cases, Option, none, some,
  Option-cases, List, [], ◌∷◌, ◌++◌, map, reverse, arith, length, get_elem?, get_or, set, take,
  drop, replicate, Result, ok, err, ok_or, Result-cases, ok_then, ◌>>=◌, ◌>>◌, Fallible, returns,
  panics, length-set, length-append, length-take, length-drop, length-map, length-replicate,
  take-append-drop, get_elem?-set_self, get_elem?-set_ne, ltb, leb, ◌==◌, if◌then◌else◌, ltb→lt,
  lt→ltb, leb→le, ==_iff, usize_max, checked_add, checked_sub, saturating_add, checked_add-some,
  get_elem?-length,
}
mod Examples
pub mod Round
pub mod Roundtrip

pub data TimeConversionError : Type 0 where
  invalid_frequency overflow : TimeConversionError

pub record MonotonicTime : Type 0 where
  pub seconds : ℕ
  pub nanoseconds : ℕ

abbrev pub billion : ℕ
billion = 1_000_000_000

abbrev pub u128_max : ℕ
u128_max = 2 ^ 128 - 1

pub checked_mul : ℕ → ℕ → Option ℕ
checked_mul a b = if leb (a * b) usize_max then some (a * b) else none

-- `div_ceil` of the standard library, on either width.
pub div_ceil : ℕ → ℕ → ℕ
div_ceil numerator denominator =
    if numerator % denominator == 0 then numerator / denominator else numerator / denominator + 1

-- `u64::try_from` of a `u128`.
pub try_from : ℕ → Option ℕ
try_from n = if leb n usize_max then some n else none

-- `saturating_mul` on `u128`.
pub saturating_mul : ℕ → ℕ → ℕ
saturating_mul a b = min (a * b) u128_max

pub scale_to_counts : ℕ → ℕ → ℕ → ℕ
unfolding div_ceil saturating_mul
scale_to_counts counter_freq_hz units denom_per_second =
    let freq = max counter_freq_hz 1 in
    let counts = div_ceil (saturating_mul units freq) denom_per_second in
    if units == 0 then 0 else min (max counts 1) usize_max

pub ns_to_counts : ℕ → ℕ → ℕ
unfolding scale_to_counts
ns_to_counts counter_freq_hz ns = scale_to_counts counter_freq_hz ns 1_000_000_000

pub us_to_counts : ℕ → ℕ → ℕ
unfolding scale_to_counts
us_to_counts counter_freq_hz us = scale_to_counts counter_freq_hz us 1_000_000

pub ms_to_counts : ℕ → ℕ → ℕ
unfolding scale_to_counts
ms_to_counts counter_freq_hz ms = scale_to_counts counter_freq_hz ms 1_000

-- The cast of the quotient to `u32` wraps.
pub counter_to_monotonic_time : ℕ → ℕ → Result MonotonicTime TimeConversionError
counter_to_monotonic_time counter frequency =
    if frequency == 0
    then err invalid_frequency
    else ok (record {
      seconds = counter / frequency;
      nanoseconds = counter % frequency * billion / frequency % 2 ^ 32;
    })

pub fractional_counts : ℕ → ℕ → Result ℕ TimeConversionError
unfolding checked_mul div_ceil try_from
fractional_counts nanoseconds frequency = elim (checked_mul nanoseconds frequency) [
  | some product ↦ ok (div_ceil product billion)
  | none ↦ ok_or (try_from (div_ceil (nanoseconds * frequency) billion)) overflow
]

pub monotonic_time_to_counter : ℕ → ℕ → ℕ → Result ℕ TimeConversionError
unfolding checked_mul fractional_counts
monotonic_time_to_counter seconds nanoseconds frequency =
    let convert : Result ℕ TimeConversionError =
      ok_or (checked_mul seconds frequency) overflow >>= λ whole.
      fractional_counts nanoseconds frequency >>= λ fractional.
      ok_or (checked_add whole fractional) overflow in
    if frequency == 0
    then err invalid_frequency
    else if leb billion nanoseconds
    then err overflow
    else convert

pub monotonic_resolution : ℕ → Result MonotonicTime TimeConversionError
unfolding div_ceil
monotonic_resolution frequency =
    let nanoseconds = max (div_ceil billion frequency) 1 in
    if frequency == 0
    then err invalid_frequency
    else ok
        (record { seconds = nanoseconds / billion; nanoseconds = nanoseconds % billion % 2 ^ 32 })

pub uptime_ms : ℕ → ℕ → ℕ
unfolding ms_to_counts
uptime_ms counter_freq_hz now = now / ms_to_counts counter_freq_hz 1
