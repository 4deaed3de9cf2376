-- ===== src/Fs/Fd/Examples.antt =====
-- A descriptor table over a small mounted index.
use genrt.Prelude.{
  ℕ, zero, suc, ◌<◌, ◌≡◌, refl, true, Option, none, some, [], ◌∷◌, ◌++◌, arith, length, get_elem?,
  replicate, ok,
}
use genrt.Fs.Bytes.{Bytes, root}
use genrt.Fs.Ramfs.{MountedRamfs, data_of}
use genrt.Fs.Fd.{
  FdTable, FileHandle, ram_file, ram_dir, read_slice, advance_read, open_ram_file, open_ram_dir,
  handle_of, user_entry,
}
use genrt.Fs.Fd.{new, max_fds}
use genrt.Fs.Fd.Invariant.{IsValid, opens_file, Step-IsValid}
use genrt.Fs.Fd.Slots.{open-Opens, Opens}
use genrt.Fs.Fd.Reading.{read_slice-pieces}

abbrev mounted : MountedRamfs
mounted = record {
  files =
      record { path = 47 ∷ 97 ∷ []; contents = 9 ∷ [] }
      ∷ record { path = 47 ∷ 98 ∷ []; contents = 1 ∷ 2 ∷ 3 ∷ 4 ∷ [] }
      ∷ [];
  dirs = record { path = root; entries = [] } ∷ [];
}

abbrev one_open : FdTable
one_open = record { entries = none ∷ none ∷ none ∷ some (ram_file 1 0 true) ∷ none ∷ none ∷ [] }

open-Opens_example :
    Opens one_open (ram_file 0 0 true) (open_ram_file one_open 0)
    × Opens one_open (ram_dir 0 0) (open_ram_dir one_open 0)
open-Opens_example = open-Opens one_open 0

open_at : handle_of one_open 3 ≡ some (ram_file 1 0 true)
unfolding handle_of user_entry
open_at = refl

data_at : data_of (some mounted) 1 ≡ some (1 ∷ 2 ∷ 3 ∷ 4 ∷ [])
unfolding data_of
data_at = refl

read_slice-pieces_example :
    (a b : Bytes) × (t' : FdTable) × (read_slice (some mounted) one_open 3 3 ≡ ok a)
    × (advance_read (some mounted) one_open 3 (length a) ≡ (t', ok tt))
    × (read_slice (some mounted) t' 3 2 ≡ ok b)
    × (read_slice (some mounted) one_open 3 5 ≡ ok (a ++ b))
read_slice-pieces_example =
    read_slice-pieces (some mounted) one_open 3 1 0 3 2 (1 ∷ 2 ∷ 3 ∷ 4 ∷ []) open_at data_at
      (omega arith)

nothing_open :
    (n g : ℕ) (v : Option FileHandle) → get_elem? (replicate n none) g ≡ some v → v ≡ none
nothing_open zero g v h = ground (arith, h)
nothing_open (suc n) zero v h = ground (arith, h)
nothing_open (suc n) (suc g) v h = nothing_open n g v h

new-IsValid : IsValid (some mounted) new
unfolding new
new-IsValid = record {
  size = refl;
  stdio = λ g low. below g low;
  fits = λ g h at. absurd (ground (arith, nothing_open max_fds g (some h) at));
}
  where
    below :
        (g : ℕ) → g < 3 → get_elem? {A = Option FileHandle} (replicate max_fds none) g ≡ some none
    below zero low = refl
    below (suc zero) low = refl
    below (suc (suc zero)) low = refl
    below (suc (suc (suc g))) low = absurd (omega arith)

Step-IsValid_example : IsValid (some mounted) (open_ram_file new 1).0
Step-IsValid_example =
    Step-IsValid (some mounted) new (open_ram_file new 1).0 new-IsValid
      (opens_file new 1 (1 ∷ 2 ∷ 3 ∷ 4 ∷ []) data_at)
