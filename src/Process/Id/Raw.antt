-- ===== src/Process/Id/Raw.antt =====
-- The raw form of an identity against the identity.
use Prim.Native.Nat.{bit_and}
use genrt.Prelude.{
  ℕ, ◌+◌, ◌*◌, ◌/◌, ◌%◌, ◌≤◌, ◌<◌, ◌≡◌, refl, sym, ap, ◌∙◌, ◌||◌, Option, none, some, arith, ltb,
  leb, ◌==◌, if◌then◌else◌,
}
use genrt.Prelude.Masks.{bit_and-mask}
use genrt.Prelude.Disjoint.{bit_or-quarter}
use genrt.Process.Id.{
  ProcessId, as_raw, from_raw, max_processes, index_mask, u32_max, process_id_index_bits,
  index_bits,
}

-- An identity that the table can hand out.
pub record IsValid (pid : ProcessId) : Type 0 where
  pub index_in : pid.index < max_processes
  pub generation_in : pid.generation ≤ u32_max
  pub positive : 0 < pid.generation

as_raw-sum : (pid : ProcessId) → pid.index < 4 → as_raw pid ≡ pid.generation * 4 + pid.index
unfolding as_raw
as_raw-sum pid h = bit_or-quarter pid.generation pid.index h

index_of-raw : (raw : ℕ) → bit_and raw index_mask ≡ raw % 4
index_of-raw raw = bit_and-mask 2 raw

-- Reading, with the mask as a remainder.
read : ℕ → Option ProcessId
read raw =
    if raw == 0
    then none
    else if ltb u32_max (raw / 4)
    then none
    else if leb max_processes (raw % 4) || raw / 4 == 0
    then none
    else some (record { index = raw % 4; generation = raw / 4 })

from_raw-read : (raw : ℕ) → from_raw raw ≡ read raw
unfolding from_raw read
from_raw-read raw = rw (index_of-raw raw, from_raw) refl

read-sum :
    (g i : ℕ)
    → i < 4
    → g ≤ u32_max
    → 0 < g
    → read (g * 4 + i) ≡ some (record { index = i; generation = g })
unfolding read
read-sum g i h u p =
    let d : (g * 4 + i) / 4 ≡ g = omega arith in
    let r : (g * 4 + i) % 4 ≡ i = omega arith in ground (arith, d, r)

read-some :
    (raw : ℕ) (pid : ProcessId)
    → read raw ≡ some pid
    → IsValid pid × (pid.generation * 4 + pid.index ≡ raw)
unfolding read
read-some raw pid h = ground arith

-- Every valid identity is read back from its raw form.
pub from_raw-as_raw : (pid : ProcessId) → IsValid pid → from_raw (as_raw pid) ≡ some pid
from_raw-as_raw pid v =
    ap from_raw (as_raw-sum pid v.index_in)
    ∙ from_raw-read _
    ∙ read-sum pid.generation pid.index v.index_in v.generation_in v.positive

-- What is read from a number is a valid identity, and that number is its raw form. So no other
-- identity has it.
pub as_raw-from_raw :
    (raw : ℕ) (pid : ProcessId) → from_raw raw ≡ some pid → IsValid pid × (as_raw pid ≡ raw)
as_raw-from_raw raw pid h =
    let (v, e) = read-some raw pid (sym (from_raw-read raw) ∙ h) in
    (v, as_raw-sum pid v.index_in ∙ e)

-- The number of bits that the compiler computes for the table.
bits_of_table : process_id_index_bits max_processes ≡ 2
unfolding process_id_index_bits index_bits
bits_of_table = refl
