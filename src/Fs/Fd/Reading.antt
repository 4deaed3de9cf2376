-- ===== src/Fs/Fd/Reading.antt =====
-- Reading through a descriptor in pieces, and the table's invariant.
use genrt.Prelude.{
  ℕ, zero, suc, ◌+◌, ◌-◌, ◌≤◌, ◌≡◌, min, inl, inr, refl, sym, ap, ◌∙◌, true, Bool-cases, Option,
  some, Option-cases, [], ◌∷◌, ◌++◌, arith, length, get_elem?, take, drop, ok, length-take,
  length-drop, get_elem?-set_self, ltb, leb, usize_max, saturating_add, get_elem?-length,
}
use genrt.Fs.Bytes.{Bytes}
use genrt.Fs.Ramfs.{MountedRamfs, data_of}
use genrt.Fs.Fd.{
  FdTable, FileHandle, ram_file, first_user_fd, user_entry, write_entry, handle_of, slice_from,
  read_slice, advance_read,
}

take-nothing : (n : ℕ) → take {A = ℕ} n [] ≡ []
take-nothing zero = refl
take-nothing (suc n) = refl

drop-nothing : (n : ℕ) → drop {A = ℕ} n [] ≡ []
drop-nothing zero = refl
drop-nothing (suc n) = refl

drop-all : (n : ℕ) (xs : Bytes) → length xs ≤ n → drop n xs ≡ []
drop-all zero [] h = refl
drop-all zero (x ∷ xs) h = absurd (omega arith)
drop-all (suc n) [] h = refl
drop-all (suc n) (x ∷ xs) h = drop-all n xs (omega arith)

suc-left : (n m : ℕ) → suc (n + m) ≡ suc n + m
suc-left n m = omega arith

take-add : (n m : ℕ) (xs : Bytes) → take n xs ++ take m (drop n xs) ≡ take (n + m) xs
take-add zero m xs = ap (λ k. take k xs) (omega arith)
take-add (suc n) m [] = take-nothing m ∙ sym (take-nothing (suc n + m))
take-add (suc n) m (x ∷ xs) =
    ap (λ z. x ∷ z) (take-add n m xs) ∙ ap (λ k. take k (x ∷ xs)) (suc-left n m)

drop-drop : (n m : ℕ) (xs : Bytes) → drop m (drop n xs) ≡ drop (n + m) xs
drop-drop zero m xs = ap (λ k. drop k xs) (omega arith)
drop-drop (suc n) m [] = drop-nothing m ∙ sym (drop-nothing (suc n + m))
drop-drop (suc n) m (x ∷ xs) = drop-drop n m xs ∙ ap (λ k. drop k (x ∷ xs)) (suc-left n m)

-- What a slice is, where the whole file fits the address space.
slice_from-fits :
    (bytes : Bytes) (offset n : ℕ)
    → length bytes ≤ usize_max
    → slice_from bytes offset n ≡ take (min n (length bytes - offset)) (drop offset bytes)
unfolding slice_from saturating_add
slice_from-fits bytes offset n fits = elim (Bool-cases (leb offset (length bytes))) [
  | inl inside ↦
      let at : min offset (length bytes) ≡ offset = ground arith in
      let len : min (min (min offset (length bytes) + n) usize_max) (length bytes)
            - min offset (length bytes)
          ≡ min n (length bytes - offset) =
        omega (arith, at, fits) in
      rw (len, slice_from) (ap (λ z. take (min n (length bytes - offset)) (drop z bytes)) at)
  | inr beyond ↦
      let at : min offset (length bytes) ≡ length bytes = ground arith in
      let len : ℕ =
        min (saturating_add (min offset (length bytes)) n) (length bytes)
        - min offset (length bytes) in
      ap (λ z. take len (drop z bytes)) at
      ∙ ap (take len) (drop-all (length bytes) bytes (omega arith))
      ∙ take-nothing len
      ∙ sym (take-nothing (min n (length bytes - offset)))
      ∙ sym (ap (take (min n (length bytes - offset))) (drop-all offset bytes (ground arith)))
]

-- The offset after `amount` bytes more.
abbrev moved : Bytes → ℕ → ℕ → ℕ
moved bytes offset amount = min (saturating_add offset amount) (length bytes)

slice_from-beyond :
    (bytes : Bytes) (offset n : ℕ)
    → length bytes ≤ usize_max
    → length bytes ≤ offset
    → slice_from bytes offset n ≡ []
slice_from-beyond bytes offset n fits past =
    slice_from-fits bytes offset n fits
    ∙ ap (take (min n (length bytes - offset))) (drop-all offset bytes past)
    ∙ take-nothing _

length-slice_from :
    (bytes : Bytes) (offset n : ℕ)
    → length bytes ≤ usize_max
    → length (slice_from bytes offset n) ≡ min n (length bytes - offset)
length-slice_from bytes offset n fits =
    ap length (slice_from-fits bytes offset n fits)
    ∙ omega (
      arith,
      length-take (min n (length bytes - offset)) (drop offset bytes),
      length-drop offset bytes,
    )

moved-inside :
    (bytes : Bytes) (offset n : ℕ)
    → length bytes ≤ usize_max
    → offset ≤ length bytes
    → moved bytes offset (length (slice_from bytes offset n))
      ≡ offset + min n (length bytes - offset)
unfolding saturating_add
moved-inside bytes offset n fits inside = omega (arith, length-slice_from bytes offset n fits)

moved-beyond :
    (bytes : Bytes) (offset amount : ℕ)
    → length bytes ≤ usize_max
    → length bytes ≤ offset
    → length bytes ≤ moved bytes offset amount
unfolding saturating_add
moved-beyond bytes offset amount fits past = omega arith

slice_from-pieces :
    (bytes : Bytes) (offset n m : ℕ)
    → length bytes ≤ usize_max
    → slice_from bytes offset n
        ++ slice_from bytes (moved bytes offset (length (slice_from bytes offset n))) m
      ≡ slice_from bytes offset (n + m)
slice_from-pieces bytes offset n m fits = elim (Bool-cases (leb offset (length bytes))) [
  | inl e ↦
      let inside : offset ≤ length bytes = ground arith in
      let rest = drop offset bytes in
      let k : ℕ = min n (length bytes - offset) in
      ap (λ z. slice_from bytes offset n ++ slice_from bytes z m)
        (moved-inside bytes offset n fits inside)
      ∙ ap (λ z. z ++ slice_from bytes (offset + k) m) (slice_from-fits bytes offset n fits)
      ∙ ap (λ z. take k rest ++ z)
          (slice_from-fits bytes (offset + k) m fits
            ∙ ap (take (min m (length bytes - (offset + k)))) (sym (drop-drop offset k bytes)))
      ∙ take-add k (min m (length bytes - (offset + k))) rest
      ∙ ap (λ c. take c rest) (omega arith)
      ∙ sym (slice_from-fits bytes offset (n + m) fits)
  | inr e ↦
      let past : length bytes ≤ offset = ground arith in
      ap (λ z. z ++ slice_from bytes (moved bytes offset (length (slice_from bytes offset n))) m)
        (slice_from-beyond bytes offset n fits past)
      ∙ slice_from-beyond bytes _ m fits (moved-beyond bytes offset _ fits past)
      ∙ sym (slice_from-beyond bytes offset (n + m) fits past)
]

pub handle_of-write_entry :
    (t : FdTable) (fd : ℕ) (handle : FileHandle) (v : Option FileHandle)
    → handle_of t fd ≡ some handle
    → handle_of (write_entry t fd v) fd ≡ v
unfolding handle_of user_entry write_entry
handle_of-write_entry t fd handle v h = elim (Bool-cases (ltb fd first_user_fd)) [
  | inl e ↦ ground arith
  | inr e ↦ elim (Option-cases (get_elem? t.entries fd)) [
    | inl absent ↦ ground arith
    | inr (entry, there) ↦
        let at = get_elem?-set_self t.entries fd v (get_elem?-length t.entries fd entry there) in
        ground (arith, at)
  ]
]

-- On an open file whose size fits the address space, with `a` the bytes that a read of at most `n`
-- answers: once the descriptor is advanced by them, which succeeds, the `b` that a read of at most
-- `m` answers follows on from them, so that both are what one read of at most `n + m` answers.
pub read_slice-pieces :
    (fs : Option MountedRamfs) (t : FdTable) (fd index offset n m : ℕ) (bytes : Bytes)
    → handle_of t fd ≡ some (ram_file index offset true)
    → data_of fs index ≡ some bytes
    → length bytes ≤ usize_max
    → (a b : Bytes) × (t' : FdTable) × (read_slice fs t fd n ≡ ok a)
      × (advance_read fs t fd (length a) ≡ (t', ok tt))
      × (read_slice fs t' fd m ≡ ok b)
      × (read_slice fs t fd (n + m) ≡ ok (a ++ b))
unfolding read_slice advance_read
read_slice-pieces fs t fd index offset n m bytes opened there fits = (
  slice_from bytes offset n,
  slice_from bytes (moved bytes offset (length (slice_from bytes offset n))) m,
  write_entry t fd
      (some (ram_file index (moved bytes offset (length (slice_from bytes offset n))) true)),
  rw (opened, read_slice) (rw there refl),
  rw (opened, advance_read) (rw there refl),
  rw (handle_of-write_entry t fd (ram_file index offset true) _ opened, read_slice) (rw there refl),
  rw (opened, read_slice) (rw there (ap ok (sym (slice_from-pieces bytes offset n m fits)))),
)
