-- ===== src/Fs/Path.antt =====
-- kernel/src/fs/path.rs: resolution of an existing pathname over the mounted index. Whether the heap
-- grants a reservation of that many bytes is the parameter `can_reserve`.
pub mod Names
pub mod Asks
pub mod Steps
pub mod Resolve
mod Examples
use genrt.Prelude.{
  ℕ, zero, suc, ◌+◌, ◌-◌, ◌*◌, ◌/◌, ◌%◌, ◌^◌, ◌≤◌, ◌<◌, ◌≡◌, ◌≢◌, ◌⊎◌, ◌↔◌, min, max, inl, inr,
  refl, sym, ap, ◌∙◌, subst, Bool, true, false, not, ◌&&◌, ◌||◌, Bool-cases, Option, none, some,
  Option-cases, List, [], ◌∷◌, ◌++◌, map, reverse, arith, length, get_elem?, get_or, set, take,
  drop, replicate, Result, ok, err, ok_or, Result-cases, ok_then, ◌>>=◌, ◌>>◌, Fallible, returns,
  panics, length-set, length-append, length-take, length-drop, length-map, length-replicate,
  take-append-drop, get_elem?-set_self, get_elem?-set_ne, ltb, leb, ◌==◌, if◌then◌else◌, ltb→lt,
  lt→ltb, leb→le, ==_iff, usize_max, checked_add, checked_sub, saturating_add, checked_add-some,
  get_elem?-length,
}
use genrt.Fs.Bytes.{Bytes, slash, root, bytes_eq, rposition}
use genrt.Fs.Ramfs.{MountedRamfs, lookup_dir, lookup_file, dir_path}

abbrev pub path_max : ℕ
path_max = 4096

abbrev pub dot : ℕ
dot = 46

pub data ResolvedNode : Type 0 where
  file : (file_index : ℕ) → ResolvedNode
  directory : (dir_index : ℕ) → ResolvedNode

pub record ResolvedPath : Type 0 where
  pub absolute : Bytes
  pub node : ResolvedNode
  pub requires_directory : Bool

pub data PathError : Type 0 where
  empty not_found not_directory name_too_long invalid_base no_memory : PathError

abbrev pub is_directory : ResolvedNode → Bool
is_directory (file i) = false
is_directory (directory d) = true

-- `split` at the separators, with the component before the rest in hand.
pub split_from : Bytes → Bytes → List Bytes
split_from component [] = component ∷ []
split_from component (b ∷ bs) = elim (b == slash) [
  | true ↦ component ∷ split_from [] bs
  | false ↦ split_from (component ++ b ∷ []) bs
]

abbrev pub is_empty : Bytes → Bool
is_empty [] = true
is_empty (b ∷ bs) = false

pub is_dot : Bytes → Bool
is_dot component = bytes_eq component (dot ∷ [])

pub is_dot_dot : Bytes → Bool
is_dot_dot component = bytes_eq component (dot ∷ dot ∷ [])

-- The last component that is not empty, of the components in reverse.
pub find_non_empty : List Bytes → Option Bytes
find_non_empty [] = none
find_non_empty (c ∷ cs) = let rest = find_non_empty cs in if is_empty c then rest else some c

abbrev pub starts_with_slash : Bytes → Bool
starts_with_slash [] = false
starts_with_slash (b ∷ bs) = b == slash

abbrev pub ends_with_slash : Bytes → Bool
ends_with_slash [] = false
ends_with_slash (b ∷ bs) = get_or (b ∷ bs) (length (b ∷ bs) - 1) 0 == slash

pub needs_directory : Bytes → Bool
unfolding find_non_empty is_dot is_dot_dot
needs_directory input =
    ends_with_slash input || elim (find_non_empty (reverse (split_from [] input))) [
      | none ↦ false
      | some component ↦ is_dot component || is_dot_dot component
    ]

-- The variables of the loop over the components.
pub record Walk : Type 0 where
  pub current_dir : ℕ
  pub absolute : Bytes
  pub node : ResolvedNode

-- An early return where a condition fails.
abbrev pub guard : Bool → PathError → Result (Unit {0}) PathError
guard true e = ok tt
guard false e = err e

-- The capacity that is reserved for the result.
pub capacity_of : Bytes → Bytes → ℕ
capacity_of cwd input =
    if starts_with_slash input
    then min (length input) path_max
    else elim (checked_add (length cwd) 1) [
      | none ↦ path_max
      | some first ↦ elim (checked_add first (length input)) [
        | none ↦ path_max
        | some sum ↦ min sum path_max
      ]
    ]

module _ (fs : MountedRamfs) (can_reserve : ℕ → Bool) where
  pub parent_dir : ℕ → ℕ → Result ℕ PathError
  parent_dir current_dir root_dir = if current_dir == root_dir then ok root_dir else (do
    current_path ← ok_or (dir_path (some fs) current_dir) invalid_base
    separator ← ok_or (rposition slash current_path) invalid_base
    ok_or (lookup_dir fs (if separator == 0 then root else take separator current_path))
        invalid_base)

  -- `replace_with_dir_path`: the new path.
  pub replace_with_dir_path : ℕ → Result Bytes PathError
  replace_with_dir_path dir_index = do
    path ← ok_or (dir_path (some fs) dir_index) invalid_base
    if can_reserve (length path) then ok path else err no_memory

  pub append_component : Bytes → Bytes → Result Bytes PathError
  append_component path component =
      let separator : ℕ = if bytes_eq path root then 0 else 1 in
      elim (checked_add (length path) separator) [
        | none ↦ err name_too_long
        | some first ↦ elim (checked_add first (length component)) [
          | none ↦ err name_too_long
          | some next_len ↦
              if ltb path_max next_len
              then err name_too_long
              else if not (can_reserve (next_len - length path))
              then err no_memory
              else ok ((if separator == 0 then path else path ++ slash ∷ []) ++ component)
        ]
      ]

  -- The node that the path names, with the directory that is current afterwards.
  pub select : Bytes → ℕ → Result (ℕ × ResolvedNode) PathError
  select absolute current_dir = elim (lookup_dir fs absolute) [
    | some dir_index ↦ ok (dir_index, directory dir_index)
    | none ↦ elim (lookup_file fs absolute) [
      | some file_index ↦ ok (current_dir, file file_index)
      | none ↦ err not_found
    ]
  ]

  pub step : ℕ → Bytes → Walk → Result Walk PathError
  unfolding is_dot is_dot_dot parent_dir replace_with_dir_path append_component select
  step root_dir component w =
      if is_empty component
      then ok w
      else if not (is_directory w.node)
      then err not_directory
      else if is_dot component
      then ok w
      else if is_dot_dot component
      then (do
        parent ← parent_dir w.current_dir root_dir
        absolute ← replace_with_dir_path parent
        ok (record { current_dir = parent; absolute = absolute; node = directory parent }))
      else (do
        absolute ← append_component w.absolute component
        (current, node) ← select absolute w.current_dir
        ok (record { current_dir = current; absolute = absolute; node = node }))

  pub walk : ℕ → List Bytes → Walk → Result Walk PathError
  walk root_dir [] w = ok w
  walk root_dir (c ∷ cs) w = do w' ← step root_dir c w; walk root_dir cs w'

  -- The directory that the traversal starts in.
  pub start_dir : ℕ → ℕ → Bytes → Result ℕ PathError
  start_dir root_dir cwd_dir input =
      if starts_with_slash input
      then ok root_dir
      else (do path ← ok_or (dir_path (some fs) cwd_dir) invalid_base; ok cwd_dir)

  -- The last check, and the result.
  pub finish : Bytes → Walk → Result ResolvedPath PathError
  finish input w =
      if needs_directory input && not (is_directory w.node)
      then err not_directory
      else ok (record {
        absolute = w.absolute;
        node = w.node;
        requires_directory = needs_directory input;
      })

  pub resolve_existing_path : ℕ → Bytes → Result ResolvedPath PathError
  unfolding start_dir finish capacity_of
  resolve_existing_path cwd_dir [] = err empty
  resolve_existing_path cwd_dir (b ∷ bs) = do
    root_dir ← ok_or (lookup_dir fs root) invalid_base
    current_dir ← start_dir root_dir cwd_dir (b ∷ bs)
    cwd ← ok_or (dir_path (some fs) current_dir) invalid_base
    guard (leb (length cwd) path_max) name_too_long
    guard (can_reserve (max (capacity_of cwd (b ∷ bs)) 1)) no_memory
    w ←
        walk root_dir (split_from [] (b ∷ bs))
          (record { current_dir = current_dir; absolute = cwd; node = directory current_dir })
    finish (b ∷ bs) w
