-- ===== src/Fs/Fd.antt =====
-- kernel/src/fs/fd.rs: the fixed-size table of a process' open descriptors. A method on `&mut self`
-- returns the new table; where it returns an error, the table is unchanged. The mounted index that
-- the methods read is an argument.
pub mod Slots
pub mod Reading
pub mod Invariant
mod Examples
use genrt.Prelude.{
  ℕ, zero, suc, ◌+◌, ◌-◌, Bool, true, false, Option, none, some, List, [], ◌∷◌, min, ltb,
  if◌then◌else◌, length, get_elem?, set, take, drop, replicate, map, Result, ok, err, ok_or,
  saturating_add,
}
use genrt.Fs.Bytes.{Bytes}
use genrt.Fs.Ramfs.{MountedRamfs, DirEntry, data_of, dir_entry_count, dir_entry_at}

abbrev pub max_fds : ℕ
max_fds = 32

abbrev pub first_user_fd : ℕ
first_user_fd = 3

pub data FdError : Type 0 where
  bad_fd is_directory not_directory too_many_open_files unsupported : FdError

pub data FileHandle : Type 0 where
  ram_file : (file_index offset : ℕ) (readable : Bool) → FileHandle
  ram_dir : (dir_index offset : ℕ) → FileHandle

pub record FdDirEntry : Type 0 where
  pub offset : ℕ
  pub entry : DirEntry

pub record FdTable : Type 0 where
  pub entries : List (Option FileHandle)

pub new : FdTable
new = record { entries = replicate max_fds none }

pub close_all : FdTable → FdTable
close_all t = record { entries = map (λ entry. none) t.entries }

-- `iter().position(Option::is_none)`.
pub first_free : List (Option FileHandle) → Option ℕ
first_free [] = none
first_free (none ∷ es) = some 0
first_free (some handle ∷ es) = elim (first_free es) [ none ↦ none | some i ↦ some (suc i) ]

-- What both ways to open share: the lowest free user descriptor gets the handle.
pub open_handle : FdTable → FileHandle → FdTable × Result ℕ FdError
unfolding first_free
open_handle t handle = elim (first_free (drop first_user_fd t.entries)) [
  | none ↦ (t, err too_many_open_files)
  | some offset ↦ (
    record { entries = set t.entries (offset + first_user_fd) (some handle) },
    ok (offset + first_user_fd),
  )
]

pub open_ram_file : FdTable → ℕ → FdTable × Result ℕ FdError
unfolding open_handle
open_ram_file t file_index = open_handle t (ram_file file_index 0 true)

pub open_ram_dir : FdTable → ℕ → FdTable × Result ℕ FdError
unfolding open_handle
open_ram_dir t dir_index = open_handle t (ram_dir dir_index 0)

-- `user_entry`, and `user_entry_mut` with `ok_or` of it.
pub user_entry : FdTable → ℕ → Option (Option FileHandle)
user_entry t fd = if ltb fd first_user_fd then none else get_elem? t.entries fd

-- The write through `user_entry_mut`.
pub write_entry : FdTable → ℕ → Option FileHandle → FdTable
write_entry t fd entry = record { entries = set t.entries fd entry }

pub close : FdTable → ℕ → FdTable × Result (Unit {0}) FdError
unfolding user_entry write_entry
close t fd = elim (user_entry t fd) [
  | none ↦ (t, err bad_fd)
  | some none ↦ (t, err bad_fd)
  | some (some handle) ↦ (write_entry t fd none, ok tt)
]

pub is_open : FdTable → ℕ → Bool
unfolding user_entry
is_open t fd = elim (user_entry t fd) [ none ↦ false | some none ↦ false | some (some h) ↦ true ]

-- `user_entry(fd).and_then(|entry| *entry)`.
pub handle_of : FdTable → ℕ → Option FileHandle
unfolding user_entry
handle_of t fd = elim (user_entry t fd) [ none ↦ none | some entry ↦ entry ]

-- The bytes from an offset on, at most so many.
pub slice_from : Bytes → ℕ → ℕ → Bytes
slice_from bytes offset max_len =
    let start : ℕ = min offset (length bytes) in
    let end : ℕ = min (saturating_add start max_len) (length bytes) in
    take (end - start) (drop start bytes)

pub read_slice : Option MountedRamfs → FdTable → ℕ → ℕ → Result Bytes FdError
unfolding handle_of slice_from
read_slice fs t fd max_len = elim (handle_of t fd) [
  | some (ram_file file_index offset true) ↦ elim (data_of fs file_index) [
    | none ↦ err bad_fd
    | some bytes ↦ ok (slice_from bytes offset max_len)
  ]
  | some (ram_file file_index offset false) ↦ err bad_fd
  | some (ram_dir dir_index offset) ↦ err is_directory
  | none ↦ err bad_fd
]

pub advance_read : Option MountedRamfs → FdTable → ℕ → ℕ → FdTable × Result (Unit {0}) FdError
unfolding handle_of write_entry
advance_read fs t fd amount = elim (handle_of t fd) [
  | some (ram_file file_index offset true) ↦ elim (data_of fs file_index) [
    | none ↦ (t, err bad_fd)
    | some bytes ↦ (
      write_entry t fd
          (some (ram_file file_index (min (saturating_add offset amount) (length bytes)) true)),
      ok tt,
    )
  ]
  | some (ram_file file_index offset false) ↦ (t, err bad_fd)
  | some (ram_dir dir_index offset) ↦ (t, err is_directory)
  | none ↦ (t, err bad_fd)
]

pub fd_dir_entry_at : Option MountedRamfs → FdTable → ℕ → ℕ → Result (Option FdDirEntry) FdError
unfolding handle_of
fd_dir_entry_at fs t fd relative_offset = elim (handle_of t fd) [
  | some (ram_dir dir_index offset) ↦
      let at : ℕ = saturating_add offset relative_offset in
      elim (dir_entry_at fs dir_index at) [
        | none ↦ ok none
        | some e ↦ ok (some (record { offset = at; entry = e }))
      ]
  | some (ram_file file_index offset readable) ↦ err not_directory
  | none ↦ err bad_fd
]

pub advance_dir_read : Option MountedRamfs → FdTable → ℕ → ℕ → FdTable × Result (Unit {0}) FdError
unfolding handle_of write_entry
advance_dir_read fs t fd amount = elim (handle_of t fd) [
  | some (ram_dir dir_index offset) ↦ elim (dir_entry_count fs dir_index) [
    | none ↦ (t, err bad_fd)
    | some count ↦ (
      write_entry t fd (some (ram_dir dir_index (min (saturating_add offset amount) count))),
      ok tt,
    )
  ]
  | some (ram_file file_index offset readable) ↦ (t, err not_directory)
  | none ↦ (t, err bad_fd)
]
