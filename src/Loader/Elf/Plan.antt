-- ===== src/Loader/Elf/Plan.antt =====
-- kernel/src/loader/elf.rs: where an accepted segment goes.
use genrt.Prelude.{
  ℕ, ◌+◌, ◌-◌, ◌%◌, ◌≤◌, ◌<◌, ◌≡◌, refl, subst, subst₃, true, false, not, ◌&&◌, ◌||◌, Option, none,
  some, arith, ok, ltb, leb, ◌==◌, usize_max, checked_add, checked_sub, checked_add-some,
}
use genrt.Prelude.Checked.{
  WhenOk, returned, failed, WhenOk-then, WhenOk-seq, WhenOk-test, WhenOk-some, WhenOk-any,
  WhenOk-value,
}
use native.Mathlib.Nat.{div-mul-le_self}
use genrt.Memory.Types.{page_size, align_up, align_down}
use genrt.Memory.Types.Align.{align_up-least, align_down-greatest}
use genrt.Memory.User.{user_text_base, user_stack_top}
use genrt.Loader.Elf.{
  ProgramHeader, Placement, u64_to_usize, readable, writable, executable, validate_program_flags,
  validate_load_alignment, validate_user_range, place, check_segment,
}

-- A segment of the image, on whole pages of user space that hold all of it, and no page more.
pub record IsPlaced (image_len offset vaddr filesz memsz : ℕ) (p : Placement) : Type 0 where
  pub at : p.vaddr ≡ vaddr
  pub from : p.offset ≡ offset
  pub bytes : p.file_end ≡ p.offset + filesz
  pub inside_file : p.file_end ≤ image_len
  pub first_page : p.map_start % page_size ≡ 0
  pub whole_pages : p.map_size % page_size ≡ 0
  pub above_text : user_text_base ≤ p.map_start
  pub below_top : p.map_start + p.map_size ≤ user_stack_top
  pub starts_before : p.map_start ≤ vaddr
  pub ends_after : vaddr + memsz ≤ p.map_start + p.map_size
  pub first_used : vaddr < p.map_start + page_size
  pub last_used : p.map_start + p.map_size < vaddr + memsz + page_size

-- What the header must say of an accepted segment.
pub record IsAccepted (image_len : ℕ) (ph : ProgramHeader) (p : Placement) : Type 0 where
  pub placed : IsPlaced image_len ph.p_offset ph.p_vaddr ph.p_filesz ph.p_memsz p
  pub not_empty : 0 < ph.p_memsz
  pub file_fits : ph.p_filesz ≤ ph.p_memsz
  pub can_read : readable ph.p_flags ≡ true
  pub protected : (writable ph.p_flags && executable ph.p_flags) ≡ false

checked_sub-some : (a b c : ℕ) → checked_sub a b ≡ some c → c ≡ a - b
unfolding checked_sub
checked_sub-some a b c h = ground arith

align_up-close : (v r : ℕ) → align_up v page_size ≡ some r → r < v + page_size
unfolding align_up
align_up-close v r h = ground (arith, div-mul-le_self (v + (page_size - 1)) page_size)

validate_user_range-bounds :
    (start size : ℕ)
    → WhenOk
        (λ _. (user_text_base ≤ start) × (0 < size) × (start + size ≤ user_stack_top))
        (validate_user_range start size)
unfolding validate_user_range checked_add
validate_user_range-bounds start size = WhenOk-some (checked_add start size) _ λ end h.
    WhenOk-test (ltb start user_text_base || leb end start || ltb user_stack_top end) (λ w. failed)
      (λ w. returned (let (same, small) = checked_add-some start size h in ground arith))

place-IsPlaced :
    (image_len offset vaddr filesz memsz : ℕ)
    → WhenOk
        (IsPlaced image_len offset vaddr filesz memsz)
        (place image_len offset vaddr filesz memsz)
unfolding place
place-IsPlaced image_len offset vaddr filesz memsz =
    WhenOk-some (checked_add offset filesz) _ λ file_end f.
      WhenOk-seq
        (WhenOk-test {P = λ _. file_end ≤ image_len} (ltb image_len file_end) (λ w. failed)
          (λ w. returned (ground arith)))
        λ _ fits. WhenOk-some (checked_add vaddr memsz) _ λ seg_end s.
          WhenOk-seq (validate_user_range-bounds vaddr memsz) λ _ inner.
            WhenOk-some (align_up seg_end page_size) _ λ map_end u.
              WhenOk-seq
                (validate_user_range-bounds (align_down vaddr page_size)
                  (map_end - align_down vaddr page_size))
                λ _ outer.
                  WhenOk-some (checked_sub map_end (align_down vaddr page_size)) _ λ map_size z.
                    let up = align_up-least seg_end page_size map_end (omega arith) u in
                    let down = align_down-greatest vaddr page_size (omega arith) in
                    let (f_at, f_small) = checked_add-some offset filesz f in
                    let (s_at, s_small) = checked_add-some vaddr memsz s in
                    let difference : map_size ≡ map_end - align_down vaddr page_size =
                      checked_sub-some _ _ _ z in
                    returned (record {
                      at = refl;
                      from = refl;
                      bytes = f_at;
                      inside_file = fits;
                      first_page = down.0;
                      whole_pages = omega (arith, up.0, down.0);
                      above_text = outer.0;
                      below_top = omega (arith, outer.2);
                      starts_before = down.1;
                      ends_after = omega (arith, up.1, down.1, outer.1);
                      first_used = down.2;
                      last_used = omega (arith, outer.1, up.1, align_up-close seg_end map_end u);
                    })

u64_to_usize-same : (v : ℕ) → WhenOk (λ u. u ≡ v) (u64_to_usize v)
unfolding u64_to_usize
u64_to_usize-same v = WhenOk-test (leb v usize_max) (λ e. returned refl) (λ e. failed)

validate_program_flags-ok :
    (flags : ℕ)
    → WhenOk
        (λ _. (readable flags ≡ true) × ((writable flags && executable flags) ≡ false))
        (validate_program_flags flags)
unfolding validate_program_flags
validate_program_flags-ok flags =
    WhenOk-test (not (readable flags) || (writable flags && executable flags)) (λ e. failed)
      (λ e. returned (ground arith))

-- What a check of a segment gives: nothing to load, or an accepted placement.
data Outcome (image_len : ℕ) (ph : ProgramHeader) : Option Placement → Type 0 where
  nothing : ph.p_memsz ≡ 0 → Outcome image_len ph none
  to_load : {p : Placement} → IsAccepted image_len ph p → Outcome image_len ph (some p)

check_segment-Outcome :
    (image_len : ℕ) (ph : ProgramHeader)
    → WhenOk (Outcome image_len ph) (check_segment image_len ph)
unfolding check_segment
check_segment-Outcome image_len ph = WhenOk-then (u64_to_usize-same ph.p_offset) λ offset o.
    WhenOk-then (u64_to_usize-same ph.p_vaddr) λ vaddr v.
      WhenOk-then (u64_to_usize-same ph.p_filesz) λ filesz f.
        WhenOk-then (u64_to_usize-same ph.p_memsz) λ memsz m.
          WhenOk-then (u64_to_usize-same ph.p_align) λ align a.
            WhenOk-test (memsz == 0) (λ e. returned (nothing (ground arith)))
              (λ e.
                WhenOk-test (ltb memsz filesz) (λ w. failed)
                  (λ w. WhenOk-then (validate_program_flags-ok ph.p_flags) λ _ l.
                    WhenOk-then (WhenOk-any (validate_load_alignment vaddr offset align)) λ _ _.
                      WhenOk-then (place-IsPlaced image_len offset vaddr filesz memsz) λ p placed.
                        returned (
                          to_load (record {
                            placed =
                                subst₃ (λ x y z. IsPlaced image_len ph.p_offset x y z p) v f m
                                  (subst (λ w. IsPlaced image_len w vaddr filesz memsz p) o placed);
                            not_empty = ground arith;
                            file_fits = ground arith;
                            can_read = l.0;
                            protected = l.1;
                          }))))

to_load_only :
    (image_len : ℕ) (ph : ProgramHeader) (o : Option Placement) (p : Placement)
    → Outcome image_len ph o
    → o ≡ some p
    → IsAccepted image_len ph p
to_load_only image_len ph _ p (nothing e) h = ground arith
to_load_only image_len ph _ p (to_load {p = q} a) h =
    subst (IsAccepted image_len ph) (ground arith) a

-- A segment that is accepted is not empty, readable, and not both writable and executable. Its bytes
-- lie inside the image, from the header's offset on, no more of them than memory is asked for; and
-- it goes to whole pages of user space, from the page that its address is on to the page of its last
-- byte.
pub check_segment-IsAccepted :
    (image_len : ℕ) (ph : ProgramHeader) (p : Placement)
    → check_segment image_len ph ≡ ok (some p)
    → IsAccepted image_len ph p
check_segment-IsAccepted image_len ph p h =
    to_load_only image_len ph (some p) p (WhenOk-value (check_segment-Outcome image_len ph) h) refl
