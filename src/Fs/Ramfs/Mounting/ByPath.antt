-- ===== src/Fs/Ramfs/Mounting/ByPath.antt =====
-- Lookups by path in a mounted index.
use genrt.Prelude.{ℕ, ◌+◌, ◌≡◌, refl, ap, ◌∙◌, Bool, none, some, List, arith, get_elem?, ok}
use genrt.Prelude.Sorting.{Any}
use genrt.Fs.Bytes.{Bytes}
use genrt.Fs.Ramfs.{
  RamFile, MountedRamfs, find_file, lookup_dir, lookup_file, data_by_path, data_of,
}
use genrt.Fs.Ramfs.Mounting.{new, sort_files}
use genrt.Fs.Ramfs.Mounting.Lookup.{find_file-there, find_dir-paths, find_path-absent}
use genrt.Fs.Ramfs.Mounting.Index.{paths_of}
use genrt.Fs.Ramfs.Mounting.Mounted.{new-Shape, sort_files-Any}

file_found :
    (fs : MountedRamfs) (f : RamFile) (j : ℕ)
    → lookup_file fs f.path ≡ some (0 + j)
    → get_elem? fs.files j ≡ some f
    → data_by_path (some fs) f.path ≡ some f.contents
unfolding data_by_path data_of
file_found fs f j found at = rw (found ∙ ap some zero_add, data_by_path) (rw (at, data_of) refl)
  where
    zero_add : 0 + j ≡ j
    zero_add = omega arith

-- After a successful mount, looking up the path of any of the given files answers the contents of
-- that file.
pub new-data_by_path :
    (can_reserve : ℕ → Bool) (files : List RamFile) (explicit_dirs : List Bytes) (fs : MountedRamfs)
    (f : RamFile)
    → new can_reserve files explicit_dirs ≡ ok fs
    → Any (λ g. g ≡ f) files
    → data_by_path (some fs) f.path ≡ some f.contents
unfolding lookup_file
new-data_by_path can_reserve files explicit_dirs fs f h a =
    let s = new-Shape can_reserve files explicit_dirs fs h in
    let (j, found, at) =
      find_file-there (sort_files files) f 0 s.distinct (sort_files-Any files f a) in
    file_found fs f j (ap (λ z. find_file f.path z 0) s.same_files ∙ found)
      (ap (λ z. get_elem? z j) s.same_files ∙ at)

-- After a successful mount, no given file's path is that of a directory.
pub new-no_conflict :
    (can_reserve : ℕ → Bool) (files : List RamFile) (explicit_dirs : List Bytes) (fs : MountedRamfs)
    (f : RamFile)
    → new can_reserve files explicit_dirs ≡ ok fs
    → Any (λ g. g ≡ f) files
    → lookup_dir fs f.path ≡ none
unfolding lookup_dir
new-no_conflict can_reserve files explicit_dirs fs f h a =
    let s = new-Shape can_reserve files explicit_dirs fs h in
    find_dir-paths f.path fs.dirs 0 ∙ find_path-absent (paths_of fs.dirs) f.path 0 (s.apart f a)
