-- ===== src/Fs/Ramfs.antt =====
-- kernel/src/fs/ramfs.rs: the immutable index of files and directories. The global `RAMFS` is an
-- argument `Option MountedRamfs` of the functions that read it. Whether the heap grants a
-- reservation of that many elements is the parameter `can_reserve`.
pub mod Mounting
use genrt.Prelude.{
  ℕ, zero, suc, ◌+◌, ◌-◌, Bool, true, false, not, ◌&&◌, ◌||◌, Option, none, some, List, [], ◌∷◌,
  ◌++◌, ltb, ◌==◌, if◌then◌else◌, length, get_elem?, get_or, take, drop, Result, ok, err, ok_or,
  ◌>>=◌, ◌>>◌, map,
}
use genrt.Prelude.Sorting.{sort_by}
use genrt.Fs.Bytes.{Bytes, slash, root, bytes_eq, bytes_leb, rposition}

pub record RamFile : Type 0 where
  pub path : Bytes
  pub contents : Bytes

pub data DirEntryKind : Type 0 where
  file directory : DirEntryKind

-- `RamDirEntry`, and `DirEntryRef` that borrows its three fields.
pub record DirEntry : Type 0 where
  pub name : Bytes
  pub kind : DirEntryKind
  pub ino : ℕ

pub record RamDir : Type 0 where
  pub path : Bytes
  pub entries : List DirEntry

pub record MountedRamfs : Type 0 where
  pub files : List RamFile
  pub dirs : List RamDir

pub data MountError : Type 0 where
  already_mounted duplicate_path invalid_path out_of_memory : MountError

pub mount : Option MountedRamfs → MountedRamfs → Option MountedRamfs × Result (Unit {0}) MountError
mount (some fs) new = (some fs, err already_mounted)
mount none new = (some new, ok tt)

-- The first place whose path is the one asked for.
unfoldable pub find_file : Bytes → List RamFile → ℕ → Option ℕ
find_file p [] index = none
find_file p (f ∷ fs) index =
    let rest = find_file p fs (suc index) in if bytes_eq f.path p then some index else rest

unfoldable pub find_dir : Bytes → List RamDir → ℕ → Option ℕ
find_dir p [] index = none
find_dir p (d ∷ ds) index =
    let rest = find_dir p ds (suc index) in if bytes_eq d.path p then some index else rest

unfoldable pub lookup_file : MountedRamfs → Bytes → Option ℕ
lookup_file fs p = find_file p fs.files 0

unfoldable pub lookup_dir : MountedRamfs → Bytes → Option ℕ
lookup_dir fs p = find_dir p fs.dirs 0

-- The functions below read the global index.
unfoldable pub data_of : Option MountedRamfs → ℕ → Option Bytes
data_of none index = none
data_of (some fs) index = elim (get_elem? fs.files index) [ none ↦ none | some f ↦ some f.contents ]

unfoldable pub data_by_path : Option MountedRamfs → Bytes → Option Bytes
unfolding data_of
data_by_path none p = none
data_by_path (some fs) p = elim (lookup_file fs p) [ none ↦ none | some i ↦ data_of (some fs) i ]

unfoldable pub dir_path : Option MountedRamfs → ℕ → Option Bytes
dir_path none index = none
dir_path (some fs) index = elim (get_elem? fs.dirs index) [ none ↦ none | some d ↦ some d.path ]

unfoldable pub dir_entry_count : Option MountedRamfs → ℕ → Option ℕ
dir_entry_count none index = none
dir_entry_count (some fs) index = elim (get_elem? fs.dirs index) [
  | none ↦ none
  | some d ↦ some (length d.entries)
]

unfoldable pub dir_entry_at : Option MountedRamfs → ℕ → ℕ → Option DirEntry
dir_entry_at none index offset = none
dir_entry_at (some fs) index offset = elim (get_elem? fs.dirs index) [
  | none ↦ none
  | some d ↦ get_elem? d.entries offset
]

pub counts : Option MountedRamfs → ℕ × ℕ
counts none = (0, 0)
counts (some fs) = (length fs.files, length fs.dirs)

unfoldable pub validate_absolute_path : Bytes → Result (Unit {0}) MountError
validate_absolute_path [] = err invalid_path
validate_absolute_path (b ∷ bs) =
    if not (b == slash)
      || (ltb 1 (length (b ∷ bs)) && get_or (b ∷ bs) (length (b ∷ bs) - 1) 0 == slash)
    then err invalid_path
    else ok tt

unfoldable pub parent_path : Bytes → Result Bytes MountError
parent_path p = do
  validate_absolute_path p
  elim (rposition slash p) [
    | none ↦ err invalid_path
    | some pos ↦ if pos == 0 then ok root else ok (take pos p)
  ]

non_empty : Bytes → Result Bytes MountError
non_empty [] = err invalid_path
non_empty (b ∷ bs) = ok (b ∷ bs)

unfoldable pub basename : Bytes → Result Bytes MountError
unfolding non_empty
basename p = do
  validate_absolute_path p
  elim (rposition slash p) [ none ↦ err invalid_path | some pos ↦ non_empty (drop (pos + 1) p) ]

unfoldable pub file_ino : ℕ → ℕ
file_ino index = 1 + index

unfoldable pub dir_ino : ℕ → ℕ
dir_ino index = 0x8000_0000 + index
