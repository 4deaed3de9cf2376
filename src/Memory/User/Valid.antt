-- ===== src/Memory/User/Valid.antt =====
-- kernel/src/memory/user.rs: an accepted range lies in user space and is mapped for the access.
use genrt.Prelude.{
  ℕ, zero, suc, ◌+◌, ◌-◌, ◌%◌, ◌≤◌, ◌<◌, ◌≡◌, ◌⊎◌, inl, inr, refl, Bool, true, ◌&&◌, ◌||◌,
  Bool-cases, some, Option-cases, arith, ltb, leb, ◌==◌, usize_max, checked_add, checked_add-some,
}
use genrt.Prelude.Running.{Ends, ends, Ends-map, Ends-test}
use genrt.Memory.Types.{page_size, align_down}
use genrt.Memory.User.{
  UserCopyError, AccessKind, read, write, UserMappingInfo, Machine, user_text_base, user_stack_top,
  Checked, accepted, refused, check_mapping, walk_pages, is_read, check_pages,
  validate_user_range_unbounded,
}

-- The permission that an access asks of a page.
abbrev pub allows : AccessKind → UserMappingInfo → Bool
allows read mapping = mapping.readable
allows write mapping = mapping.writable

-- The page of the address is mapped to the user with the access's permission, or its read probe
-- succeeds.
pub data Accessible (m : Machine) (access : AccessKind) (a : ℕ) : Type 0 where
  walked :
      (address_space : ℕ) (mapping : UserMappingInfo)
      → m.current_user_address_space ≡ some address_space
      → m.query_user_mapping address_space (align_down a page_size) ≡ some mapping
      → mapping.user ≡ true
      → allows access mapping ≡ true
      → Accessible m access a
  probed :
      (b : ℕ)
      → is_read access ≡ true
      → align_down b page_size ≡ align_down a page_size
      → m.current_user_page_readable b ≡ true
      → Accessible m access a

-- Where a check accepts, `P` holds.
pub data Grants {ℓ} (P : Type ℓ) : Checked → Type ℓ where
  granted : P → Grants P accepted
  denied : (e : UserCopyError) → Grants P (refused e)

Checked-grants : {P : Type 0} (c : Checked) → (c ≡ accepted → P) → Grants P c
Checked-grants accepted k = granted (k refl)
Checked-grants (refused e) k = denied e

Checked-cases : (c : Checked) → (c ≡ accepted) ⊎ ((e : UserCopyError) × (c ≡ refused e))
Checked-cases accepted = inl refl
Checked-cases (refused e) = inr (e, refl)

Grants-map {ℓ κ} : {P : Type ℓ} {Q : Type κ} {c : Checked} → Grants P c → (P → Q) → Grants Q c
Grants-map (granted p) k = granted (k p)
Grants-map (denied e) k = denied e

pub Grants-cases {ℓ} :
    {P : Type ℓ} {c : Checked}
    → Grants P c
    → ((c ≡ accepted) × P) ⊎ ((e : UserCopyError) × (c ≡ refused e))
Grants-cases (granted p) = inl (refl, p)
Grants-cases (denied e) = inr (e, refl)

same_page :
    (cursor a : ℕ)
    → cursor % page_size ≡ 0
    → cursor ≤ a
    → a < cursor + page_size
    → align_down a page_size ≡ cursor
unfolding align_down
same_page cursor a h p q = ground arith

check_mapping-allows :
    (mapping : UserMappingInfo) (access : AccessKind)
    → check_mapping mapping access ≡ accepted
    → (mapping.user ≡ true) × (allows access mapping ≡ true)
unfolding check_mapping
check_mapping-allows mapping read h = ground arith
check_mapping-allows mapping write h = ground arith

abbrev AllAccessible : Machine → AccessKind → ℕ → ℕ → Type 0
AllAccessible m access from end = (a : ℕ) → from ≤ a → a < end → Accessible m access a

walk_pages-Grants :
    (fuel : ℕ) (m : Machine) (address_space : ℕ) (access : AccessKind) (cursor end : ℕ)
    → m.current_user_address_space ≡ some address_space
    → cursor % page_size ≡ 0
    → end ≤ user_stack_top
    → 0 < fuel
    → end < cursor + fuel
    → Ends
        (Grants (AllAccessible m access cursor end))
        (walk_pages fuel m address_space access cursor end)
unfolding walk_pages checked_add
walk_pages-Grants zero m s access cursor end here paged small pos enough = absurd (omega arith)
walk_pages-Grants (suc fuel) m s access cursor end here paged small pos enough =
    Ends-test (ltb cursor end)
      (λ e. elim (Option-cases (m.query_user_mapping s cursor)) [
        | inl w ↦ simp w (ends (denied _))
        | inr (mapping, w) ↦ rw w (elim (Checked-cases (check_mapping mapping access)) [
          | inr (e', z) ↦ rw z (ends (denied _))
          | inl z ↦
              let fits : leb (cursor + page_size) usize_max ≡ true = ground arith in
              rw (z, fits)
                (Ends-map
                  (walk_pages-Grants fuel m s access (cursor + page_size) end here (omega arith)
                    small (ground arith) (omega arith))
                  λ c g. Grants-map g λ rest a p q. elim (Bool-cases (ltb a (cursor + page_size))) [
                    | inl near ↦
                        let (to_user, permitted) = check_mapping-allows mapping access z in
                        walked s mapping here (rw (same_page cursor a paged p (ground arith)) w)
                          to_user permitted
                    | inr far ↦ rest a (ground arith) q
                  ])
        ])
      ])
      (λ e. ends (granted λ a p q. absurd (ground arith)))

check_pages-Grants :
    (m : Machine) (ptr end : ℕ) (access : AccessKind)
    → end ≤ user_stack_top
    → ptr < end
    → Ends (Grants (AllAccessible m access ptr end)) (check_pages m ptr end access)
unfolding check_pages align_down
check_pages-Grants m ptr end access small some_bytes =
    Ends-test (is_read access && align_down ptr page_size == align_down (end - 1) page_size)
      (λ e. elim (Bool-cases (m.current_user_page_readable ptr)) [
        | inl w ↦ rw w (ends (granted λ a p q. probed ptr (ground arith) (ground arith) w))
        | inr w ↦ rw w (ends (denied _))
      ])
      (λ e. elim (Option-cases m.current_user_address_space) [
        | inl w ↦ simp w (ends (denied _))
        | inr (s, w) ↦ simp w (
            Ends-map
              (walk_pages-Grants (end - align_down ptr page_size + 1) m s access
                (align_down ptr page_size) end w (ground arith) small (omega arith) (omega arith))
              λ c g. Grants-map g λ all a p q. all a (ground arith) q)
      ])

-- A range of user space, each of its bytes accessible.
pub record IsUserRange (m : Machine) (access : AccessKind) (ptr len : ℕ) : Type 0 where
  pub some_bytes : 0 < len
  pub above_text : user_text_base ≤ ptr
  pub below_top : ptr + len ≤ user_stack_top
  pub accessible : (a : ℕ) → ptr ≤ a → a < ptr + len → Accessible m access a

-- The validation ends, and a range that it accepts is not empty, lies between the text base and the
-- stack top without wrapping, and has each of its bytes on a page that is mapped to the user with the
-- permission that the access asks for, or, for a read within one page, that the probe can read.
pub validate_user_range_unbounded-IsUserRange :
    (m : Machine) (ptr len : ℕ) (access : AccessKind)
    → Ends (Grants (IsUserRange m access ptr len)) (validate_user_range_unbounded m ptr len access)
unfolding validate_user_range_unbounded
validate_user_range_unbounded-IsUserRange m ptr len access =
    Ends-test (len == 0) (λ e. ends (denied _))
      (λ e. elim (Option-cases (checked_add ptr len)) [
        | inl w ↦ simp w (ends (denied _))
        | inr (end, w) ↦
            let (at, small) = checked_add-some ptr len w in
            rw w (
              Ends-test (ltb ptr user_text_base || ltb user_stack_top end || leb end ptr)
                (λ z. ends (denied _))
                (λ z.
                  Ends-map (check_pages-Grants m ptr end access (ground arith) (ground arith))
                    λ c g. Grants-map g λ all. record {
                      some_bytes = ground arith;
                      above_text = ground arith;
                      below_top = ground arith;
                      accessible = λ a p q. all a p (omega arith);
                    }))
      ])
