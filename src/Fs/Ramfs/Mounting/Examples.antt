-- ===== src/Fs/Ramfs/Mounting/Examples.antt =====
-- A small archive, mounted.
use genrt.Prelude.{ℕ, ◌≡◌, refl, inl, Bool, true, none, some, List, [], ◌∷◌, ok}
use genrt.Fs.Bytes.{Bytes, root}
use genrt.Fs.Ramfs.{RamFile, MountedRamfs, lookup_dir, data_by_path, file, directory}
use genrt.Fs.Ramfs.{parent_path, basename, validate_absolute_path, file_ino, dir_ino, find_dir}
use genrt.Prelude.Sorting.{sort_by, insert_by}
use genrt.Fs.Bytes.{bytes_eq, bytes_leb, rposition}
use genrt.Fs.Ramfs.Mounting.{
  new, dedup, dedup_after, push_dir_path, push_explicit_dirs, push_file_parents, index_of,
  populate_dir_entries, add_files, add_dirs, add_child, append_dir_entry, append_to, finish_dirs,
  sort_files, sort_entries, reject_duplicates, adjacent_equal, reject_file_dir_conflicts, any_equal,
  validate_all, push_dir_with_parents, push_parent_dirs, push_prefixes, try_copy_bytes,
}
use genrt.Fs.Ramfs.Mounting.ByPath.{new-data_by_path, new-no_conflict}

abbrev granted : ℕ → Bool
granted n = true

-- "/b/x" and "/a", and the directory "/c/d".
abbrev x_path : Bytes
x_path = 47 ∷ 98 ∷ 47 ∷ 120 ∷ []

abbrev x_file : RamFile
x_file = record { path = x_path; contents = 1 ∷ 2 ∷ 3 ∷ 4 ∷ [] }

abbrev a_file : RamFile
a_file = record { path = 47 ∷ 97 ∷ []; contents = 9 ∷ [] }

abbrev d_path : Bytes
d_path = 47 ∷ 99 ∷ 47 ∷ 100 ∷ []

abbrev files : List RamFile
files = x_file ∷ a_file ∷ []

abbrev mounted : MountedRamfs
mounted = record {
  files = a_file ∷ x_file ∷ [];
  dirs =
      record {
        path = root;
        entries =
            record { name = 97 ∷ []; kind = file; ino = 1 }
            ∷ record { name = 98 ∷ []; kind = directory; ino = 0x8000_0001 }
            ∷ record { name = 99 ∷ []; kind = directory; ino = 0x8000_0002 }
            ∷ [];
      }
      ∷ record {
        path = 47 ∷ 98 ∷ [];
        entries = record { name = 120 ∷ []; kind = file; ino = 2 } ∷ [];
      }
      ∷ record {
        path = 47 ∷ 99 ∷ [];
        entries = record { name = 100 ∷ []; kind = directory; ino = 0x8000_0003 } ∷ [];
      }
      ∷ record { path = d_path; entries = [] }
      ∷ [];
}

mounts : new granted files (d_path ∷ []) ≡ ok mounted
unfolding new dedup dedup_after push_dir_path push_explicit_dirs push_file_parents index_of
    populate_dir_entries add_files add_dirs add_child append_dir_entry append_to finish_dirs
    sort_files sort_entries reject_duplicates adjacent_equal reject_file_dir_conflicts any_equal
    validate_all push_dir_with_parents push_parent_dirs push_prefixes try_copy_bytes sort_by
    insert_by bytes_eq bytes_leb rposition parent_path basename validate_absolute_path file_ino
    dir_ino lookup_dir find_dir
mounts = refl

new-data_by_path_example : data_by_path (some mounted) x_path ≡ some (1 ∷ 2 ∷ 3 ∷ 4 ∷ [])
new-data_by_path_example =
    new-data_by_path granted files (d_path ∷ []) mounted x_file mounts (inl refl)

new-no_conflict_example : lookup_dir mounted x_path ≡ none
new-no_conflict_example =
    new-no_conflict granted files (d_path ∷ []) mounted x_file mounts (inl refl)
