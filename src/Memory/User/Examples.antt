-- ===== src/Memory/User/Examples.antt =====
-- kernel/src/memory/user.rs: a short string at the text base.
use genrt.Prelude.{
  ℕ, ◌+◌, ◌≡◌, refl, true, false, some, List, ok, length, ◌==◌, if◌then◌else◌, arith,
}
use genrt.Prelude.Running.{done, Ends}
use genrt.Memory.User.{
  Machine, write, user_text_base, copy_cstr_from_user, validate_user_range_unbounded,
}
use genrt.Memory.User.Valid.{Grants, IsUserRange, validate_user_range_unbounded-IsUserRange}
use genrt.Memory.User.Copy.{Copied, IsString, copy_cstr_from_user-IsString}
use genrt.Memory.User.Whole.{IsReadable, copy_cstr_from_user-whole}

-- Every page can be read and written; two bytes before a zero stand at the text base.
abbrev small : Machine
small = record {
  current_user_address_space = some 1;
  query_user_mapping = λ s a.
      some (record { pa = a; user = true; readable = true; writable = true; executable = false });
  current_user_page_readable = λ a. true;
  byte_at = λ a. if a == user_text_base then 97 else if a == user_text_base + 1 then 98 else 0;
}

validate_user_range_unbounded-IsUserRange_example :
    Ends
      (Grants (IsUserRange small write user_text_base 5000))
      (validate_user_range_unbounded small user_text_base 5000 write)
validate_user_range_unbounded-IsUserRange_example =
    validate_user_range_unbounded-IsUserRange small user_text_base 5000 write

copy_cstr_from_user-IsString_example :
    Ends (Copied small user_text_base 16) (copy_cstr_from_user (λ k. true) small user_text_base 16)
copy_cstr_from_user-IsString_example =
    copy_cstr_from_user-IsString (λ k. true) small user_text_base 16

small-IsReadable : IsReadable (λ k. true) small user_text_base 2
small-IsReadable = record {
  above_text = omega arith;
  below_top = omega arith;
  probes = λ a p q. refl;
  nonzero = λ i p. ground arith;
  ending = refl;
  room = λ k. refl;
}

copy_cstr_from_user-whole_example :
    (path : List ℕ) × (copy_cstr_from_user (λ k. true) small user_text_base 16 ≡ done (ok path))
    × (length path ≡ 2)
    × IsString small user_text_base 16 path
copy_cstr_from_user-whole_example =
    copy_cstr_from_user-whole (λ k. true) small user_text_base 2 16 small-IsReadable (omega arith)
