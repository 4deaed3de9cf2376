-- ===== src/Time/Convert/Round.antt =====
-- kernel/src/time.rs: the conversions to the counter round up to the least count in time.
use genrt.Prelude.{
  ℕ, ◌+◌, ◌-◌, ◌*◌, ◌≤◌, ◌≡◌, ◌↔◌, sym, ◌∙◌, subst, arith, Result, ok, err, ok_or, leb, ◌==◌,
  if◌then◌else◌, checked_add,
}
use genrt.Time.Convert.{
  TimeConversionError, invalid_frequency, overflow, billion, checked_mul, div_ceil, try_from,
  fractional_counts, monotonic_time_to_counter,
}

-- The conversion in unbounded arithmetic, checked once at its end.
unfoldable pub wide_counter : ℕ → ℕ → ℕ → ℕ
unfolding div_ceil
wide_counter seconds nanoseconds frequency =
    seconds * frequency + div_ceil (nanoseconds * frequency) billion

unfoldable pub wide_reference : ℕ → ℕ → ℕ → Result ℕ TimeConversionError
unfolding try_from wide_counter
wide_reference seconds nanoseconds frequency =
    if frequency == 0
    then err invalid_frequency
    else if leb billion nanoseconds
    then err overflow
    else ok_or (try_from (wide_counter seconds nanoseconds frequency)) overflow

-- With its native product, its wide fallback and its three checks, the conversion is the one in
-- unbounded arithmetic that is checked once.
pub monotonic_time_to_counter-wide :
    (seconds nanoseconds frequency : ℕ)
    → monotonic_time_to_counter seconds nanoseconds frequency
      ≡ wide_reference seconds nanoseconds frequency
unfolding monotonic_time_to_counter fractional_counts checked_mul checked_add try_from
    wide_reference wide_counter
monotonic_time_to_counter-wide seconds nanoseconds frequency = ground arith

div_ceil-le : (a k : ℕ) → (div_ceil a billion ≤ k) ↔ (a ≤ k * billion)
unfolding div_ceil
div_ceil-le a k = (λ h. ground arith, λ h. ground arith)

pub wide_counter-least :
    (seconds nanoseconds frequency k : ℕ)
    → (wide_counter seconds nanoseconds frequency ≤ k)
      ↔ ((seconds * billion + nanoseconds) * frequency ≤ k * billion)
unfolding wide_counter
wide_counter-least seconds nanoseconds frequency k =
    let fraction = div_ceil-le (nanoseconds * frequency) (k - seconds * frequency) in
    (
      λ h. omega (arith, fraction.0 (omega arith)),
      λ h.
          let whole : seconds * frequency ≤ k = omega arith in
          omega (arith, fraction.1 (omega arith)),
    )

wide_reference-ok :
    (seconds nanoseconds frequency c : ℕ)
    → wide_reference seconds nanoseconds frequency ≡ ok c
    → c ≡ wide_counter seconds nanoseconds frequency
unfolding wide_reference try_from
wide_reference-ok seconds nanoseconds frequency c h = ground arith

-- The count that the conversion gives is the least that is not before the requested time.
pub monotonic_time_to_counter-least :
    (seconds nanoseconds frequency c k : ℕ)
    → monotonic_time_to_counter seconds nanoseconds frequency ≡ ok c
    → (c ≤ k) ↔ ((seconds * billion + nanoseconds) * frequency ≤ k * billion)
monotonic_time_to_counter-least seconds nanoseconds frequency c k h =
    subst (λ d. (d ≤ k) ↔ ((seconds * billion + nanoseconds) * frequency ≤ k * billion))
      (sym (
        wide_reference-ok seconds nanoseconds frequency c
          (sym (monotonic_time_to_counter-wide seconds nanoseconds frequency) ∙ h)))
      (wide_counter-least seconds nanoseconds frequency k)
