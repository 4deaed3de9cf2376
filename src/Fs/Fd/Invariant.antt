-- ===== src/Fs/Fd/Invariant.antt =====
-- What every operation on a descriptor table keeps.
use genrt.Prelude.{
  ℕ, zero, suc, ◌+◌, ◌≤◌, ◌<◌, ◌≡◌, ◌⊎◌, min, inl, inr, refl, sym, ap, ◌∙◌, subst, true, false,
  Bool-cases, Option, none, some, Option-cases, List, [], ◌∷◌, map, arith, length, get_elem?, set,
  drop, length-set, length-map, get_elem?-set_self, get_elem?-set_ne, ltb, ◌==◌, ==_iff,
  saturating_add, get_elem?-length,
}
use genrt.Fs.Bytes.{Bytes}
use genrt.Fs.Ramfs.{MountedRamfs, data_of, dir_entry_count}
use genrt.Fs.Fd.{
  FdTable, FileHandle, ram_file, ram_dir, first_user_fd, max_fds, close_all, open_handle,
  open_ram_file, first_free, open_ram_dir, user_entry, write_entry, close, handle_of, advance_read,
  advance_dir_read,
}
use genrt.Fs.Fd.Slots.{open_handle-some, open_handle-none}

-- A handle's offset is within its file or directory, which exists.
abbrev pub Fits : Option MountedRamfs → FileHandle → Type 0
Fits fs (ram_file index offset readable) =
    (bytes : Bytes) × (data_of fs index ≡ some bytes) × (offset ≤ length bytes)
Fits fs (ram_dir index offset) = (n : ℕ) × (dir_entry_count fs index ≡ some n) × (offset ≤ n)

pub record IsValid (fs : Option MountedRamfs) (t : FdTable) : Type 0 where
  pub size : length t.entries ≡ max_fds
  pub stdio : (g : ℕ) → g < first_user_fd → get_elem? t.entries g ≡ some none
  pub fits : (g : ℕ) (h : FileHandle) → get_elem? t.entries g ≡ some (some h) → Fits fs h

-- The calls that change a table; a file or a directory is opened by an index that it has.
pub data Step (fs : Option MountedRamfs) : FdTable → FdTable → Type 0 where
  opens_file :
      (t : FdTable) (index : ℕ) (bytes : Bytes)
      → data_of fs index ≡ some bytes
      → Step fs t (open_ram_file t index).0
  opens_dir :
      (t : FdTable) (index n : ℕ)
      → dir_entry_count fs index ≡ some n
      → Step fs t (open_ram_dir t index).0
  closes : (t : FdTable) (fd : ℕ) → Step fs t (close t fd).0
  advances : (t : FdTable) (fd amount : ℕ) → Step fs t (advance_read fs t fd amount).0
  advances_dir : (t : FdTable) (fd amount : ℕ) → Step fs t (advance_dir_read fs t fd amount).0
  clears : (t : FdTable) → Step fs t (close_all t)

module _ (fs : Option MountedRamfs) where
  write-IsValid :
      (t : FdTable) (fd : ℕ) (entry : Option FileHandle)
      → IsValid fs t
      → first_user_fd ≤ fd
      → ((h : FileHandle) → entry ≡ some h → Fits fs h)
      → IsValid fs (record { entries = set t.entries fd entry })
  write-IsValid t fd entry v user good = record {
    size = length-set t.entries fd entry ∙ v.size;
    stdio = λ g low. get_elem?-set_ne t.entries entry (λ e. omega (arith, e)) ∙ v.stdio g low;
    fits = λ g h at. elim (Bool-cases (fd == g)) [
      | inr e ↦
          v.fits g h (sym (get_elem?-set_ne t.entries entry (λ same. ground (arith, same, e))) ∙ at)
      | inl e ↦
          let same : fd ≡ g = (==_iff fd g).0 e in
          let low = get_elem?-length (set t.entries fd entry) g (some h) at in
          let here =
            get_elem?-set_self t.entries fd entry
              (omega (arith, low, same, length-set t.entries fd entry)) in
          good h (some_injective (sym here ∙ ap (get_elem? (set t.entries fd entry)) same ∙ at))
    ];
  }
    where
      some_injective :
          {a b : Option FileHandle} → ◌≡◌ {A = Option (Option FileHandle)} (some a) (some b) → a ≡ b
      some_injective h = ground (arith, h)

  open-IsValid :
      (t : FdTable) (handle : FileHandle)
      → IsValid fs t
      → Fits fs handle
      → IsValid fs (open_handle t handle).0
  open-IsValid t handle v good = elim (Option-cases (first_free (drop first_user_fd t.entries))) [
    | inl e ↦ subst (IsValid fs) (sym (ap (λ z. z.0) (open_handle-none t handle e))) v
    | inr (i, e) ↦ subst (IsValid fs) (sym (ap (λ z. z.0) (open_handle-some t handle i e))) (
        write-IsValid t (i + first_user_fd) (some handle) v (omega arith)
          (λ h same. subst (Fits fs) (ground (arith, same)) good))
  ]

  user_entry-user :
      (t : FdTable) (fd : ℕ) (h : FileHandle) → handle_of t fd ≡ some h → first_user_fd ≤ fd
  unfolding handle_of user_entry
  user_entry-user t fd h e = ground (arith, e)

  -- A call leaves the table as it is, or writes an entry that fits into a user slot.
  abbrev Writes : FdTable → ℕ → FdTable → Type 0
  Writes t fd t' =
      (t' ≡ t)
      ⊎ ((entry : Option FileHandle) × (first_user_fd ≤ fd)
          × ((h : FileHandle) → entry ≡ some h → Fits fs h)
          × (t' ≡ record { entries = set t.entries fd entry }))

  Writes-IsValid :
      (t : FdTable) (fd : ℕ) (t' : FdTable) → IsValid fs t → Writes t fd t' → IsValid fs t'
  Writes-IsValid t fd t' v (inl same) = subst (IsValid fs) (sym same) v
  Writes-IsValid t fd t' v (inr (entry, user, good, same)) =
      subst (IsValid fs) (sym same) (write-IsValid t fd entry v user good)

  close-Writes : (t : FdTable) (fd : ℕ) → Writes t fd (close t fd).0
  unfolding close user_entry write_entry
  close-Writes t fd = elim (Bool-cases (ltb fd first_user_fd)) [
    | inl e ↦ inl (ground (arith, e))
    | inr e ↦ elim (Option-cases (get_elem? t.entries fd)) [
      | inl f ↦ inl (ground (arith, e, f))
      | inr (none, f) ↦ inl (ground (arith, e, f))
      | inr (some h, f) ↦
          inr (none, ground (arith, e), λ h same. ground (arith, same), ground (arith, e, f))
    ]
  ]

  only : (a : FileHandle) → Fits fs a → (h : FileHandle) → some a ≡ some h → Fits fs h
  only a good h same = subst (Fits fs) (ground (arith, same)) good

  advance_read-Writes : (t : FdTable) (fd amount : ℕ) → Writes t fd (advance_read fs t fd amount).0
  unfolding advance_read write_entry
  advance_read-Writes t fd amount = elim (Option-cases (handle_of t fd)) [
    | inl e ↦ inl (rw (e, advance_read) refl)
    | inr (ram_dir d offset, e) ↦ inl (rw (e, advance_read) refl)
    | inr (ram_file i offset false, e) ↦ inl (rw (e, advance_read) refl)
    | inr (ram_file i offset true, e) ↦ elim (Option-cases (data_of fs i)) [
      | inl f ↦ inl (rw (e, advance_read) (rw f refl))
      | inr (bytes, f) ↦ inr (
        some (ram_file i (min (saturating_add offset amount) (length bytes)) true),
        user_entry-user t fd (ram_file i offset true) e,
        only _ (bytes, f, omega arith),
        rw (e, advance_read) (rw f refl),
      )
    ]
  ]

  advance_dir_read-Writes :
      (t : FdTable) (fd amount : ℕ) → Writes t fd (advance_dir_read fs t fd amount).0
  unfolding advance_dir_read write_entry
  advance_dir_read-Writes t fd amount = elim (Option-cases (handle_of t fd)) [
    | inl e ↦ inl (rw (e, advance_dir_read) refl)
    | inr (ram_file i offset readable, e) ↦ inl (rw (e, advance_dir_read) refl)
    | inr (ram_dir d offset, e) ↦ elim (Option-cases (dir_entry_count fs d)) [
      | inl f ↦ inl (rw (e, advance_dir_read) (rw f refl))
      | inr (n, f) ↦ inr (
        some (ram_dir d (min (saturating_add offset amount) n)),
        user_entry-user t fd (ram_dir d offset) e,
        only _ (n, f, omega arith),
        rw (e, advance_dir_read) (rw f refl),
      )
    ]
  ]

  cleared :
      (es : List (Option FileHandle)) (g : ℕ) (v : Option FileHandle)
      → get_elem? (map (λ entry. none) es) g ≡ some v
      → v ≡ none
  cleared [] g v h = ground (arith, h)
  cleared (e ∷ es) zero v h = ground (arith, h)
  cleared (e ∷ es) (suc g) v h = cleared es g v h

  cleared_there :
      (es : List (Option FileHandle)) (g : ℕ) (v : Option FileHandle)
      → get_elem? es g ≡ some v
      → get_elem? {A = Option FileHandle} (map (λ entry. none) es) g ≡ some none
  cleared_there [] g v h = ground (arith, h)
  cleared_there (e ∷ es) zero v h = refl
  cleared_there (e ∷ es) (suc g) v h = cleared_there es g v h

  close_all-IsValid : (t : FdTable) → IsValid fs t → IsValid fs (close_all t)
  unfolding close_all
  close_all-IsValid t v = record {
    size = length-map t.entries (λ entry. none) ∙ v.size;
    stdio = λ g low. cleared_there t.entries g none (v.stdio g low);
    fits = λ g h at. absurd (ground (arith, cleared t.entries g (some h) at));
  }

  -- Every call, an opening being of a file or directory that exists, on a table of 32 entries, whose
  -- reserved descriptors are empty and whose handles' offsets are within their file or directory,
  -- leaves such a table.
  pub Step-IsValid : (t t' : FdTable) → IsValid fs t → Step fs t t' → IsValid fs t'
  unfolding open_ram_file open_ram_dir
  Step-IsValid _ _ v (opens_file t index bytes e) = open-IsValid t _ v (bytes, e, omega arith)
  Step-IsValid _ _ v (opens_dir t index n e) = open-IsValid t _ v (n, e, omega arith)
  Step-IsValid _ _ v (closes t fd) = Writes-IsValid t fd _ v (close-Writes t fd)
  Step-IsValid _ _ v (advances t fd amount) =
      Writes-IsValid t fd _ v (advance_read-Writes t fd amount)
  Step-IsValid _ _ v (advances_dir t fd amount) =
      Writes-IsValid t fd _ v (advance_dir_read-Writes t fd amount)
  Step-IsValid _ _ v (clears t) = close_all-IsValid t v
