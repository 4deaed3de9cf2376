-- ===== src/Fs/Fd/Slots.antt =====
-- Opening gives the lowest free user descriptor, and closing it gives the table back.
use genrt.Prelude.{
  ℕ, zero, suc, ◌+◌, ◌-◌, ◌≤◌, ◌<◌, ◌≡◌, ◌≢◌, inl, inr, refl, sym, ap, ◌∙◌, subst, true, Option,
  none, some, Option-cases, List, [], ◌∷◌, arith, length, get_elem?, set, drop, Result, ok, err,
  length-drop, get_elem?-set_self, get_elem?-set_ne, get_elem?-length,
}
use native.Mathlib.Numerals.{unary_clauses}
use genrt.Fs.Fd.{
  FdTable, FdError, FileHandle, ram_file, ram_dir, first_free, first_user_fd, open_handle,
  open_ram_file, open_ram_dir, user_entry, write_entry, close, is_open, handle_of,
  too_many_open_files,
}

abbrev Slots : Type 0
Slots = List (Option FileHandle)

-- Where the search stops, the slot is empty and all before it are taken.
first_free-some :
    (es : Slots) (i : ℕ)
    → first_free es ≡ some i
    → (get_elem? es i ≡ some none)
      × ((j : ℕ) → j < i → (handle : FileHandle) × (get_elem? es j ≡ some (some handle)))
unfolding first_free
first_free-some [] i h = ground arith
first_free-some (none ∷ es) zero h = (refl, λ j below. absurd (omega arith))
first_free-some (none ∷ es) (suc i) h = ground arith
first_free-some (some handle ∷ es) i h = elim (Option-cases (first_free es)) [
  | inl e ↦ ground arith
  | inr (k, e) ↦
      let (empty, taken) = first_free-some es k e in
      let i-suc : i ≡ suc k = ground arith in rw i-suc (empty, before handle es k taken)
]
  where
    before :
        (handle : FileHandle) (es : Slots) (k : ℕ)
        → ((j : ℕ) → j < k → (handle : FileHandle) × (get_elem? es j ≡ some (some handle)))
        → (j : ℕ) → j < suc k
        → (h : FileHandle) × (get_elem? (some handle ∷ es) j ≡ some (some h))
    before handle es k taken zero low = (handle, refl)
    before handle es k taken (suc j) low = taken j (omega arith)

first_free-none :
    (es : Slots) (j : ℕ)
    → first_free es ≡ none
    → j < length es
    → (handle : FileHandle) × (get_elem? es j ≡ some (some handle))
unfolding first_free
first_free-none [] j h k = absurd (omega arith)
first_free-none (none ∷ es) j h k = ground arith
first_free-none (some handle ∷ es) zero h k = (handle, refl)
first_free-none (some handle ∷ es) (suc j) h k = elim (Option-cases (first_free es)) [
  | inl e ↦ first_free-none es j e (omega arith)
  | inr (i, e) ↦ ground (arith, h)
]

get_elem?-drop : (n i : ℕ) (es : Slots) → get_elem? (drop n es) i ≡ get_elem? es (i + n)
get_elem?-drop zero i es = ap (get_elem? es) (omega arith)
get_elem?-drop (suc n) i [] = refl
get_elem?-drop (suc n) i (e ∷ es) = simp (unary_clauses, get_elem?-drop n i es)

set_back :
    (es : Slots) (i : ℕ) (v : Option FileHandle)
    → get_elem? es i ≡ some none
    → set (set es i v) i none ≡ es
set_back [] i v h = refl
set_back (e ∷ es) zero v h = ground arith
set_back (e ∷ es) (suc i) v h = ap (λ z. e ∷ z) (set_back es i v h)

pub record Opened (t : FdTable) (handle : FileHandle) (fd : ℕ) (t' : FdTable) : Type 0 where
  pub user : first_user_fd ≤ fd
  pub free : get_elem? t.entries fd ≡ some none
  pub lowest : (g : ℕ) → first_user_fd ≤ g → g < fd → is_open t g ≡ true
  pub now : handle_of t' fd ≡ some handle
  pub others : (g : ℕ) → fd ≢ g → get_elem? t'.entries g ≡ get_elem? t.entries g
  pub closes : close t' fd ≡ (t, ok tt)

-- Either the lowest free descriptor, or an error where every user descriptor is open.
abbrev pub Opens : FdTable → FileHandle → FdTable × Result ℕ FdError → Type 0
Opens t handle (t', ok fd) = Opened t handle fd t'
Opens t handle (t', err e) =
    (t' ≡ t)
    × (e ≡ too_many_open_files)
    × ((g : ℕ) → first_user_fd ≤ g → g < length t.entries → is_open t g ≡ true)

open_there :
    (t : FdTable) (g : ℕ) (handle : FileHandle)
    → first_user_fd ≤ g
    → get_elem? (drop first_user_fd t.entries) (g - first_user_fd) ≡ some (some handle)
    → is_open t g ≡ true
unfolding is_open user_entry
open_there t g handle user e =
    let same : g - first_user_fd + first_user_fd ≡ g = omega arith in
    let at : get_elem? t.entries g ≡ some (some handle) =
      ap (get_elem? t.entries) (sym same)
      ∙ sym (get_elem?-drop first_user_fd (g - first_user_fd) t.entries)
      ∙ e in
    ground (arith, at)

take_lowest :
    (t : FdTable) (handle : FileHandle) (i : ℕ)
    → first_free (drop first_user_fd t.entries) ≡ some i
    → Opened t handle
        (i + first_user_fd)
        (record { entries = set t.entries (i + first_user_fd) (some handle) })
unfolding handle_of user_entry close write_entry
take_lowest t handle i e =
    let (empty, taken) = first_free-some (drop first_user_fd t.entries) i e in
    let free : get_elem? t.entries (i + first_user_fd) ≡ some none =
      sym (get_elem?-drop first_user_fd i t.entries) ∙ empty in
    let at =
      get_elem?-set_self t.entries (i + first_user_fd) (some handle)
        (get_elem?-length _ _ _ free) in
    let back = set_back t.entries (i + first_user_fd) (some handle) free in
    record {
      user = omega arith;
      free = free;
      lowest = λ g user low.
          let (h, there) = taken (g - first_user_fd) (omega arith) in open_there t g h user there;
      now = ground (arith, at);
      others = λ g other. get_elem?-set_ne t.entries (some handle) other;
      closes = ground (arith, at, back);
    }

pub open_handle-some :
    (t : FdTable) (handle : FileHandle) (i : ℕ)
    → first_free (drop first_user_fd t.entries) ≡ some i
    → open_handle t handle ≡ (
      record { entries = set t.entries (i + first_user_fd) (some handle) },
      ok (i + first_user_fd),
    )
unfolding open_handle
open_handle-some t handle i e = rw (e, open_handle) refl

pub open_handle-none :
    (t : FdTable) (handle : FileHandle)
    → first_free (drop first_user_fd t.entries) ≡ none
    → open_handle t handle ≡ (t, err too_many_open_files)
unfolding open_handle
open_handle-none t handle e = rw (e, open_handle) refl

open_handle-Opens : (t : FdTable) (handle : FileHandle) → Opens t handle (open_handle t handle)
open_handle-Opens t handle = elim (Option-cases (first_free (drop first_user_fd t.entries))) [
  | inr (i, e) ↦
      subst (Opens t handle) (sym (open_handle-some t handle i e)) (take_lowest t handle i e)
  | inl e ↦ subst (Opens t handle) (sym (open_handle-none t handle e)) (
    refl,
    refl,
    λ g user low.
        let (h, there) =
          first_free-none (drop first_user_fd t.entries) (g - first_user_fd) e
            (omega (arith, length-drop first_user_fd t.entries)) in
        open_there t g h user there,
  )
]

-- Opening a file or a directory gives the lowest free user descriptor, with a handle at offset 0,
-- leaves every other slot alone, and closing that descriptor gives the table back. Only where every
-- user descriptor is open does it fail, and then it changes nothing.
pub open-Opens :
    (t : FdTable) (index : ℕ)
    → Opens t (ram_file index 0 true) (open_ram_file t index)
      × Opens t (ram_dir index 0) (open_ram_dir t index)
unfolding open_ram_file open_ram_dir
open-Opens t index = (open_handle-Opens t _, open_handle-Opens t _)
