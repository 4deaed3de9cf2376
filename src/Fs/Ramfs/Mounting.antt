-- ===== src/Fs/Ramfs/Mounting.antt =====
-- kernel/src/fs/ramfs.rs: `MountedRamfs::new` and the helpers that build the index.
pub mod Lookup
pub mod Paths
pub mod Index
pub mod Mounted
pub mod ByPath
mod Examples
use genrt.Prelude.{
  ℕ, zero, suc, ◌+◌, ◌-◌, Bool, true, false, ◌||◌, Option, none, some, List, [], ◌∷◌, ◌++◌, ◌==◌,
  if◌then◌else◌, length, get_elem?, get_or, set, take, Result, ok, err, ok_or, ◌>>=◌, ◌>>◌, map,
}
use genrt.Prelude.Sorting.{sort_by}
use genrt.Fs.Bytes.{Bytes, slash, root, bytes_eq, bytes_leb}
use genrt.Fs.Ramfs.{
  RamFile, RamDir, DirEntry, DirEntryKind, file, directory, MountedRamfs, MountError,
  duplicate_path, invalid_path, out_of_memory, lookup_dir, validate_absolute_path, parent_path,
  basename, file_ino, dir_ino,
}

-- `windows(2)` with equal keys.
pub adjacent_equal {ℓ} : {A : Type ℓ} → (A → Bytes) → List A → Bool
adjacent_equal key [] = false
adjacent_equal key (x ∷ []) = false
adjacent_equal key (x ∷ y ∷ ys) = bytes_eq (key x) (key y) || adjacent_equal key (y ∷ ys)

-- `reject_duplicate_files`, `reject_duplicate_paths` and `reject_duplicate_dir_entries`.
pub reject_duplicates {ℓ} : {A : Type ℓ} → (A → Bytes) → List A → Result (Unit {0}) MountError
reject_duplicates key xs = if adjacent_equal key xs then err duplicate_path else ok tt

pub any_equal : Bytes → List Bytes → Bool
any_equal p [] = false
any_equal p (d ∷ ds) = bytes_eq d p || any_equal p ds

pub reject_file_dir_conflicts : List RamFile → List Bytes → Result (Unit {0}) MountError
reject_file_dir_conflicts [] dirs = ok tt
reject_file_dir_conflicts (f ∷ fs) dirs =
    let rest = reject_file_dir_conflicts fs dirs in
    if any_equal f.path dirs then err duplicate_path else rest

-- `dedup`: of each run of equal paths, the first stays.
pub dedup_after : Bytes → List Bytes → List Bytes
dedup_after x [] = x ∷ []
dedup_after x (y ∷ ys) = elim (bytes_eq x y) [
  | true ↦ dedup_after x ys
  | false ↦ x ∷ dedup_after y ys
]

pub dedup : List Bytes → List Bytes
unfolding dedup_after
dedup [] = []
dedup (x ∷ xs) = dedup_after x xs

pub sort_files : List RamFile → List RamFile
sort_files = sort_by (λ lhs rhs. bytes_leb lhs.path rhs.path)

pub sort_entries : List DirEntry → List DirEntry
sort_entries = sort_by (λ lhs rhs. bytes_leb lhs.name rhs.name)

pub validate_all : List Bytes → Result (Unit {0}) MountError
validate_all [] = ok tt
validate_all (d ∷ ds) = validate_absolute_path d >> validate_all ds

abbrev pub empty_dir : Bytes → RamDir
empty_dir p = record { path = p; entries = [] }

-- The last loop of `populate_dir_entries`.
pub finish_dirs : List RamDir → Result (List RamDir) MountError
finish_dirs [] = ok []
finish_dirs (d ∷ ds) = do
  reject_duplicates (λ e. e.name) (sort_entries d.entries)
  rest ← finish_dirs ds
  ok (record d { entries = sort_entries d.entries } ∷ rest)

module _ (can_reserve : ℕ → Bool) where
  pub try_copy_bytes : Bytes → Result Bytes MountError
  try_copy_bytes bytes = if can_reserve (length bytes) then ok bytes else err out_of_memory

  pub push_dir_path : List Bytes → Bytes → Result (List Bytes) MountError
  push_dir_path dirs p =
      if can_reserve 1
      then (do path ← try_copy_bytes p; ok (dirs ++ path ∷ []))
      else err out_of_memory

  -- The loop of `push_parent_dirs`, with `left` bytes of the path from the cursor on.
  pub push_prefixes : ℕ → ℕ → Bytes → List Bytes → Result (List Bytes) MountError
  push_prefixes zero cursor p dirs = ok dirs
  push_prefixes (suc left) cursor p dirs = do
    pushed ← if get_or p cursor 0 == slash then push_dir_path dirs (take cursor p) else ok dirs
    push_prefixes left (cursor + 1) p pushed

  pub push_parent_dirs : List Bytes → Bytes → Result (List Bytes) MountError
  push_parent_dirs dirs p = do
    validate_absolute_path p
    pushed ← push_dir_path dirs root
    push_prefixes (length p - 1) 1 p pushed

  pub push_dir_with_parents : List Bytes → Bytes → Result (List Bytes) MountError
  push_dir_with_parents dirs p = do
    validate_absolute_path p
    pushed ← push_parent_dirs dirs p
    push_dir_path pushed p

  pub push_explicit_dirs : List Bytes → List Bytes → Result (List Bytes) MountError
  push_explicit_dirs dirs [] = ok dirs
  push_explicit_dirs dirs (d ∷ ds) = do
    pushed ← push_dir_with_parents dirs d
    push_explicit_dirs pushed ds

  pub push_file_parents : List Bytes → List RamFile → Result (List Bytes) MountError
  push_file_parents dirs [] = ok dirs
  push_file_parents dirs (f ∷ fs) = do
    pushed ← push_parent_dirs dirs f.path
    push_file_parents pushed fs

  pub append_to : List RamDir → ℕ → DirEntry → List RamDir
  append_to [] index entry = []
  append_to (d ∷ ds) zero entry = record d { entries = d.entries ++ entry ∷ [] } ∷ ds
  append_to (d ∷ ds) (suc index) entry = d ∷ append_to ds index entry

  pub append_dir_entry :
      MountedRamfs → ℕ → Bytes → DirEntryKind → ℕ → Result MountedRamfs MountError
  append_dir_entry fs parent_index name kind ino =
      if can_reserve 1
      then ok (record fs {
        dirs = append_to fs.dirs parent_index (record { name = name; kind = kind; ino = ino });
      })
      else err out_of_memory

  -- One turn of the loops of `populate_dir_entries`.
  pub add_child : MountedRamfs → Bytes → DirEntryKind → ℕ → Result MountedRamfs MountError
  add_child fs p kind ino = do
    parent ← parent_path p
    parent_index ← ok_or (lookup_dir fs parent) invalid_path
    base ← basename p
    name ← try_copy_bytes base
    append_dir_entry fs parent_index name kind ino

  pub add_files : ℕ → List RamFile → MountedRamfs → Result MountedRamfs MountError
  add_files index [] fs = ok fs
  add_files index (f ∷ rest) fs = do
    fs' ← add_child fs f.path file (file_ino index)
    add_files (index + 1) rest fs'

  -- No turn changes a path, so the paths are those before the loop.
  pub add_dirs : ℕ → List RamDir → MountedRamfs → Result MountedRamfs MountError
  add_dirs index [] fs = ok fs
  add_dirs index (d ∷ rest) fs = do
    fs' ← if bytes_eq d.path root then ok fs else add_child fs d.path directory (dir_ino index)
    add_dirs (index + 1) rest fs'

  pub populate_dir_entries : MountedRamfs → Result MountedRamfs MountError
  populate_dir_entries fs = do
    with_files ← add_files 0 fs.files fs
    with_dirs ← add_dirs 0 with_files.dirs with_files
    dirs ← finish_dirs with_dirs.dirs
    ok (record with_dirs { dirs = dirs })

  -- The index before its entries: the sorted files, and the directories without duplicates.
  pub index_of : List RamFile → List Bytes → Result MountedRamfs MountError
  index_of files dir_paths = do
    reject_file_dir_conflicts files dir_paths
    if can_reserve (length dir_paths)
        then ok (record { files = files; dirs = map empty_dir dir_paths })
        else err out_of_memory

  -- `MountedRamfs::new`.
  pub new : List RamFile → List Bytes → Result MountedRamfs MountError
  new files explicit_dirs = do
    reject_duplicates (λ f. f.path) (sort_files files)
    validate_all explicit_dirs
    reject_duplicates (λ d. d) (sort_by bytes_leb explicit_dirs)
    with_root ← push_dir_path [] root
    with_dirs ← push_explicit_dirs with_root (sort_by bytes_leb explicit_dirs)
    dir_paths ← push_file_parents with_dirs (sort_files files)
    fs ← index_of (sort_files files) (dedup (sort_by bytes_leb dir_paths))
    populate_dir_entries fs
