-- ===== src/Memory/User.antt =====
-- kernel/src/memory/user.rs: validation of user ranges, and the copy of a string from them. The
-- page tables, the translation probe and the bytes at user addresses are the machine's.
use genrt.Prelude.{
  ℕ, zero, suc, ◌+◌, ◌-◌, ◌*◌, ◌%◌, ◌≡◌, max, min, Bool, true, false, not, ◌&&◌, ◌||◌, Option, none,
  some, List, [], ◌∷◌, ◌++◌, Result, ok, err, length, ltb, leb, ◌==◌, if◌then◌else◌, checked_add,
}
use genrt.Prelude.Running.{Run, done, panic, out_of_fuel, ◌>>=◌}
use genrt.Memory.Types.{page_size, align_down}
mod Examples
pub mod Valid
pub mod Copy
pub mod Whole

pub data UserCopyError : Type 0 where
  empty too_large name_too_long address_overflow not_user_range not_mapped : UserCopyError
  not_readable not_writable no_current_address_space out_of_memory : UserCopyError

pub data AccessKind : Type 0 where
  read write : AccessKind

pub record UserMappingInfo : Type 0 where
  pub pa : ℕ
  pub user : Bool
  pub readable : Bool
  pub writable : Bool
  pub executable : Bool

-- What the code asks the architecture layer, and the bytes that it reads.
pub record Machine : Type 0 where
  pub current_user_address_space : Option ℕ
  pub query_user_mapping : ℕ → ℕ → Option UserMappingInfo
  pub current_user_page_readable : ℕ → Bool
  pub byte_at : ℕ → ℕ

abbrev pub user_text_base : ℕ
user_text_base = 0x40_0000_0000

abbrev pub user_stack_top : ℕ
user_stack_top = 0x80_0000_0000

abbrev pub max_user_copy : ℕ
max_user_copy = 1024

-- The result of a check.
pub data Checked : Type 0 where
  accepted : Checked
  refused : UserCopyError → Checked

pub check_mapping : UserMappingInfo → AccessKind → Checked
check_mapping mapping read =
    if not mapping.user
    then refused not_user_range
    else if not mapping.readable
    then refused not_readable
    else accepted
check_mapping mapping write =
    if not mapping.user
    then refused not_user_range
    else if not mapping.writable
    then refused not_writable
    else accepted

-- The walk over the pages from the cursor to the end.
pub walk_pages : ℕ → Machine → ℕ → AccessKind → ℕ → ℕ → Run Checked
walk_pages zero m address_space access cursor end = out_of_fuel
walk_pages (suc fuel) m address_space access cursor end =
    let next : Run Checked = elim (checked_add cursor page_size) [
      | none ↦ done (refused address_overflow)
      | some cursor' ↦ walk_pages fuel m address_space access cursor' end
    ] in
    let look : Run Checked = elim (m.query_user_mapping address_space cursor) [
      | none ↦ done (refused not_mapped)
      | some mapping ↦ elim (check_mapping mapping access) [
        | refused e ↦ done (refused e)
        | accepted ↦ next
      ]
    ] in
    if ltb cursor end then look else done accepted

abbrev pub is_read : AccessKind → Bool
is_read read = true
is_read write = false

-- The part of the range check that asks the machine.
pub check_pages : Machine → ℕ → ℕ → AccessKind → Run Checked
unfolding walk_pages
check_pages m ptr end access =
    let walk : Run Checked = elim m.current_user_address_space [
      | none ↦ done (refused no_current_address_space)
      | some address_space ↦
          walk_pages (end - align_down ptr page_size + 1) m address_space access
            (align_down ptr page_size) end
    ] in
    if is_read access && align_down ptr page_size == align_down (end - 1) page_size
    then done (if m.current_user_page_readable ptr then accepted else refused not_readable)
    else walk

pub validate_user_range_unbounded : Machine → ℕ → ℕ → AccessKind → Run Checked
unfolding check_pages
validate_user_range_unbounded m ptr len access =
    let check : Run Checked = elim (checked_add ptr len) [
      | none ↦ done (refused address_overflow)
      | some end ↦
          if ltb ptr user_text_base || ltb user_stack_top end || leb end ptr
          then done (refused not_user_range)
          else check_pages m ptr end access
    ] in
    if len == 0 then done (refused empty) else check

pub validate_user_range : Machine → ℕ → ℕ → AccessKind → Run Checked
unfolding validate_user_range_unbounded
validate_user_range m ptr len access =
    if len == 0
    then done (refused empty)
    else if ltb max_user_copy len
    then done (refused too_large)
    else validate_user_range_unbounded m ptr len access

-- A string that is being read, and the room that was reserved for it.
pub record Buffer : Type 0 where
  pub path : List ℕ
  pub capacity : ℕ

-- The reading of one chunk: it ends the string, fails, or is read to its end.
pub data Chunk : Type 0 where
  terminated : List ℕ → Chunk
  failed : UserCopyError → Chunk
  unfinished : Buffer → Chunk

-- A byte added; room for 64 more is reserved where there is none.
pub push_byte : (ℕ → Bool) → ℕ → Buffer → ℕ → Option Buffer
push_byte can_reserve max_len b byte =
    let additional : ℕ = min (max_len - length b.path) 64 in
    if length b.path == b.capacity
    then (if can_reserve additional
        then some (record { path = b.path ++ byte ∷ []; capacity = length b.path + additional })
        else none)
    else some (record b { path = b.path ++ byte ∷ [] })

-- The next `left` bytes from `cursor`.
pub read_chunk : (ℕ → Bool) → Machine → ℕ → ℕ → ℕ → Buffer → Chunk
unfolding push_byte
read_chunk can_reserve m max_len zero cursor b = unfinished b
read_chunk can_reserve m max_len (suc left) cursor b =
    let byte : ℕ = m.byte_at cursor in
    let store : Chunk = elim (push_byte can_reserve max_len b byte) [
      | none ↦ failed out_of_memory
      | some b' ↦ read_chunk can_reserve m max_len left (cursor + 1) b'
    ] in
    if byte == 0
    then terminated b.path
    else if length b.path == max_len
    then failed name_too_long
    else store

-- The bytes up to the end of the page, or up to one past the longest string.
abbrev pub chunk_len : ℕ → ℕ → ℕ → ℕ → ℕ
chunk_len page_end cursor max_len scanned = min (page_end - cursor) (max_len + 1 - scanned)

pub copy_loop : ℕ → (ℕ → Bool) → Machine → ℕ → ℕ → ℕ → Buffer → Run (Result (List ℕ) UserCopyError)
unfolding validate_user_range_unbounded read_chunk
copy_loop zero can_reserve m max_len cursor scanned b = out_of_fuel
copy_loop (suc fuel) can_reserve m max_len cursor scanned b =
    let advance : ℕ → Buffer → Run (Result (List ℕ) UserCopyError) = λ len b'.
      elim (checked_add cursor len) [
        | none ↦ done (err address_overflow)
        | some cursor' ↦ copy_loop fuel can_reserve m max_len cursor' (scanned + len) b'
      ] in
    let scan : ℕ → Run (Result (List ℕ) UserCopyError) = λ len.
      validate_user_range_unbounded m cursor len read >>= λ checked. elim checked [
        | refused e ↦ done (err e)
        | accepted ↦ elim (read_chunk can_reserve m max_len len cursor b) [
          | terminated path ↦ done (ok path)
          | failed e ↦ done (err e)
          | unfinished b' ↦ advance len b'
        ]
      ] in
    let page : Run (Result (List ℕ) UserCopyError) =
      elim (checked_add (align_down cursor page_size) page_size) [
        | none ↦ done (err address_overflow)
        | some page_end ↦ scan (chunk_len page_end cursor max_len scanned)
      ] in
    if leb scanned max_len then page else done (err name_too_long)

pub copy_cstr_from_user : (ℕ → Bool) → Machine → ℕ → ℕ → Run (Result (List ℕ) UserCopyError)
unfolding copy_loop
copy_cstr_from_user can_reserve m ptr max_len =
    copy_loop (max_len + 2) can_reserve m max_len ptr 0 (record { path = []; capacity = 0 })

pub copy_path_cstr_from_user : (ℕ → Bool) → Machine → ℕ → Run (Result (List ℕ) UserCopyError)
unfolding copy_cstr_from_user
copy_path_cstr_from_user can_reserve m path_ptr =
    copy_cstr_from_user can_reserve m path_ptr 4096 >>= λ r. elim r [
      | err e ↦ done (err e)
      | ok path ↦ if length path == 0 then done (err empty) else done (ok path)
    ]
