-- ===== src/Process/Id/Examples.antt =====
-- A process identity and its raw form.
use genrt.Prelude.{◌≡◌, refl, some, arith}
use genrt.Process.Id.{ProcessId, as_raw, from_raw}
use genrt.Process.Id.Raw.{IsValid, from_raw-as_raw, as_raw-from_raw}

abbrev third : ProcessId
third = record { index = 3; generation = 5 }

third-IsValid : IsValid third
third-IsValid = record {
  index_in = omega arith;
  generation_in = omega arith;
  positive = omega arith;
}

from_raw-as_raw_example : from_raw (as_raw third) ≡ some third
from_raw-as_raw_example = from_raw-as_raw third third-IsValid

reads : from_raw 23 ≡ some third
unfolding from_raw
reads = refl

as_raw-from_raw_example : IsValid third × (as_raw third ≡ 23)
as_raw-from_raw_example = as_raw-from_raw 23 third reads
