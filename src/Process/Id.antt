-- ===== src/Process/Id.antt =====
-- kernel/src/process/id.rs: generation-bearing process identities and their raw form.
pub mod Raw
mod Examples
use Prim.Native.Nat.{bit_and, bit_or}
use genrt.Prelude.{
  ℕ, zero, suc, ◌+◌, ◌-◌, ◌*◌, ◌/◌, ◌%◌, ◌^◌, ◌≤◌, ◌<◌, ◌≡◌, ◌≢◌, ◌⊎◌, ◌↔◌, min, max, inl, inr,
  refl, sym, ap, ◌∙◌, subst, Bool, true, false, not, ◌&&◌, ◌||◌, Bool-cases, Option, none, some,
  Option-cases, List, [], ◌∷◌, ◌++◌, map, reverse, arith, length, get_elem?, get_or, set, take,
  drop, replicate, Result, ok, err, ok_or, Result-cases, ok_then, ◌>>=◌, ◌>>◌, Fallible, returns,
  panics, length-set, length-append, length-take, length-drop, length-map, length-replicate,
  take-append-drop, get_elem?-set_self, get_elem?-set_ne, ltb, leb, ◌==◌, if◌then◌else◌, ltb→lt,
  lt→ltb, leb→le, ==_iff, usize_max, checked_add, checked_sub, saturating_add, checked_add-some,
}

abbrev pub max_processes : ℕ
max_processes = 4

-- The loop of `process_id_index_bits`, on fuel: the capacity doubles, so the slots are enough.
pub index_bits : ℕ → ℕ → ℕ → ℕ → ℕ
index_bits zero slots bits capacity = bits
index_bits (suc fuel) slots bits capacity =
    let rest : ℕ = index_bits fuel slots (bits + 1) (capacity * 2) in
    if ltb capacity slots then rest else bits

pub process_id_index_bits : ℕ → ℕ
unfolding index_bits
process_id_index_bits slots = index_bits slots slots 0 1

-- The constants that the compiler evaluates.
abbrev pub process_id_index_bits_of_table : ℕ
process_id_index_bits_of_table = 2

abbrev pub index_mask : ℕ
index_mask = 2 ^ 2 - 1

abbrev pub u32_max : ℕ
u32_max = 0xffff_ffff

pub record ProcessId : Type 0 where
  pub index : ℕ
  pub generation : ℕ

-- The derived `PartialEq`.
unfoldable pub pid_eq : ProcessId → ProcessId → Bool
pid_eq a b = a.index == b.index && a.generation == b.generation

pub as_raw : ProcessId → ℕ
as_raw pid = bit_or (pid.generation * 2 ^ 2) pid.index

pub from_raw : ℕ → Option ProcessId
from_raw raw =
    if raw == 0
    then none
    else (let index : ℕ = bit_and raw index_mask in
        let generation : ℕ = raw / 2 ^ 2 in
        if ltb u32_max generation
        then none
        else if leb max_processes index || generation == 0
        then none
        else some (record { index = index; generation = generation }))
