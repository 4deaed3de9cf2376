-- ===== src/Fs/Ramfs/Mounting/Paths.antt =====
-- The directory paths that `MountedRamfs::new` collects: every explicit directory, and every
-- directory above a file or a directory.
use genrt.Prelude.{
  ℕ, zero, suc, ◌+◌, ◌-◌, ◌≤◌, ◌<◌, ◌≡◌, inl, inr, refl, sym, ap, ◌∙◌, Bool, true, false,
  Bool-cases, List, [], ◌∷◌, ◌++◌, arith, length, get_or, take, ok, >>=-ok, >>-ok, if◌then◌else◌,
  ◌==◌, ==_iff, subst,
}
use genrt.Prelude.Sorting.{Any}
use genrt.Fs.Bytes.{Bytes, slash, root, bytes_eq, bytes_eq_sound}
use genrt.Fs.Ramfs.{RamFile, validate_absolute_path}
use genrt.Fs.Ramfs.Mounting.{
  dedup, dedup_after, try_copy_bytes, push_dir_path, push_prefixes, push_parent_dirs,
  push_dir_with_parents, push_explicit_dirs, push_file_parents,
}

abbrev pub Has : Bytes → List Bytes → Type 0
Has p ds = Any (λ q. q ≡ p) ds

-- Nothing that was collected is lost.
abbrev pub Keeps : List Bytes → List Bytes → Type 0
Keeps ds ds' = (q : Bytes) → Has q ds → Has q ds'

-- Every proper prefix of the path that ends before a separator, from a place on.
abbrev pub Above : Bytes → ℕ → ℕ → List Bytes → Type 0
Above p from till ds = (c : ℕ) → from ≤ c → c < till → get_or p c 0 ≡ slash → Has (take c p) ds

Has-left : (q : Bytes) (xs ys : List Bytes) → Has q xs → Has q (xs ++ ys)
Has-left q [] ys h = absurd h
Has-left q (x ∷ xs) ys (inl e) = inl e
Has-left q (x ∷ xs) ys (inr h) = inr (Has-left q xs ys h)

Has-last : (q : Bytes) (xs : List Bytes) → Has q (xs ++ q ∷ [])
Has-last q [] = inl refl
Has-last q (x ∷ xs) = inr (Has-last q xs)

dedup_after-Has : (q x : Bytes) (xs : List Bytes) → Has q (x ∷ xs) → Has q (dedup_after x xs)
unfolding dedup_after
dedup_after-Has q x [] h = h
dedup_after-Has q x (y ∷ ys) h = elim (Bool-cases (bytes_eq x y)) [
  | inr e ↦
      rw (e, dedup_after)
        (elim h [ inl here ↦ inl here | inr later ↦ inr (dedup_after-Has q y ys later) ])
  | inl e ↦
      rw (e, dedup_after)
        (dedup_after-Has q x ys (elim h [
          | inl here ↦ inl here
          | inr (inl next) ↦ inl (bytes_eq_sound x y e ∙ next)
          | inr (inr later) ↦ inr later
        ]))
]

pub dedup-Has : (q : Bytes) (xs : List Bytes) → Has q xs → Has q (dedup xs)
unfolding dedup
dedup-Has q [] h = h
dedup-Has q (x ∷ xs) h = dedup_after-Has q x xs h

at_cursor :
    (c cursor : ℕ) (p : Bytes) (ds : List Bytes)
    → (c == cursor) ≡ true
    → get_or p c 0 ≡ slash
    → ((get_or p cursor 0 == slash) ≡ true → Has (take cursor p) ds)
    → Has (take c p) ds
at_cursor c cursor p ds same e here =
    let same' : c ≡ cursor = ground arith in
    rw same' (here ((==_iff _ _).1 (ap (λ z. get_or p z 0) (sym same') ∙ e)))

module _ (can_reserve : ℕ → Bool) where
  push_dir_path-ok :
      (ds : List Bytes) (p : Bytes) (ds' : List Bytes)
      → push_dir_path can_reserve ds p ≡ ok ds'
      → ds' ≡ ds ++ p ∷ []
  unfolding push_dir_path try_copy_bytes
  push_dir_path-ok ds p ds' h = ground arith

  pub push_dir_path-Has :
      (ds : List Bytes) (p : Bytes) (ds' : List Bytes)
      → push_dir_path can_reserve ds p ≡ ok ds'
      → Has p ds' × Keeps ds ds'
  push_dir_path-Has ds p ds' h =
      rw (push_dir_path-ok ds p ds' h) (Has-last p ds, λ q a. Has-left q ds (p ∷ []) a)

  -- One turn of the loop over the bytes of a path.
  pushed_if :
      (b : Bool) (ds : List Bytes) (p : Bytes) (ds' : List Bytes)
      → (if b then push_dir_path can_reserve ds p else ok ds) ≡ ok ds'
      → (b ≡ true → Has p ds') × Keeps ds ds'
  pushed_if true ds p ds' h = let (has, keeps) = push_dir_path-Has ds p ds' h in (λ e. has, keeps)
  pushed_if false ds p ds' h = (λ e. ground arith, λ q a. subst (Has q) (ground arith) a)

  push_prefixes-Above :
      (left cursor : ℕ) (p : Bytes) (ds ds' : List Bytes)
      → push_prefixes can_reserve left cursor p ds ≡ ok ds'
      → Above p cursor (cursor + left) ds' × Keeps ds ds'
  unfolding push_prefixes
  push_prefixes-Above zero cursor p ds ds' h =
      (λ c low high e. absurd (omega arith), λ q a. subst (Has q) (ground arith) a)
  push_prefixes-Above (suc left) cursor p ds ds' h =
      let (mid, pushed, rest) = >>=-ok _ (push_prefixes can_reserve left (cursor + 1) p) h in
      let (here, kept) = pushed_if (get_or p cursor 0 == slash) ds (take cursor p) mid pushed in
      let (above, kept') = push_prefixes-Above left (cursor + 1) p mid ds' rest in
      (
        λ c low high e. elim (Bool-cases (c == cursor)) [
          | inl same ↦ kept' (take c p) (at_cursor c cursor p mid same e here)
          | inr other ↦ above c (ground arith) (omega arith) e
        ],
        λ q a. kept' q (kept q a),
      )

  pub push_parent_dirs-Above :
      (p : Bytes) (ds ds' : List Bytes)
      → push_parent_dirs can_reserve ds p ≡ ok ds'
      → Above p 1 (length p) ds' × Keeps ds ds'
  unfolding push_parent_dirs
  push_parent_dirs-Above p ds ds' h =
      let (_, _, h1) = >>-ok (validate_absolute_path p) _ h in
      let (mid, pushed, rest) = >>=-ok _ (push_prefixes can_reserve (length p - 1) 1 p) h1 in
      let (above, kept') = push_prefixes-Above (length p - 1) 1 p mid ds' rest in
      (
        λ c low high e. above c low (omega arith) e,
        λ q a. kept' q ((push_dir_path-Has ds root mid pushed).1 q a),
      )

  push_dir_with_parents-Above :
      (p : Bytes) (ds ds' : List Bytes)
      → push_dir_with_parents can_reserve ds p ≡ ok ds'
      → Above p 1 (length p) ds' × Has p ds' × Keeps ds ds'
  unfolding push_dir_with_parents
  push_dir_with_parents-Above p ds ds' h =
      let (_, _, h1) = >>-ok (validate_absolute_path p) _ h in
      let (mid, parents, last) = >>=-ok _ (λ m. push_dir_path can_reserve m p) h1 in
      let (above, kept) = push_parent_dirs-Above p ds mid parents in
      let (has, kept') = push_dir_path-Has mid p ds' last in
      (λ c low high e. kept' (take c p) (above c low high e), has, λ q a. kept' q (kept q a))

  pub push_explicit_dirs-Above :
      (es : List Bytes) (ds ds' : List Bytes)
      → push_explicit_dirs can_reserve ds es ≡ ok ds'
      → ((p : Bytes) → Has p es → Above p 1 (length p) ds' × Has p ds') × Keeps ds ds'
  unfolding push_explicit_dirs
  push_explicit_dirs-Above [] ds ds' h = (λ p a. absurd a, λ q a. subst (Has q) (ground arith) a)
  push_explicit_dirs-Above (e ∷ es) ds ds' h =
      let (mid, first, rest) = >>=-ok _ (λ m. push_explicit_dirs can_reserve m es) h in
      let (above, has, kept) = push_dir_with_parents-Above e ds mid first in
      let (later, kept') = push_explicit_dirs-Above es mid ds' rest in
      (
        λ p a. elim a [
          | inl same ↦
              subst (λ z. Above z 1 (length z) ds' × Has z ds') same
                (λ c low high s. kept' (take c e) (above c low high s), kept' e has)
          | inr there ↦ later p there
        ],
        λ q a. kept' q (kept q a),
      )

  pub push_file_parents-Above :
      (fs : List RamFile) (ds ds' : List Bytes)
      → push_file_parents can_reserve ds fs ≡ ok ds'
      → ((f : RamFile) → Any (λ g. g ≡ f) fs → Above f.path 1 (length f.path) ds') × Keeps ds ds'
  unfolding push_file_parents
  push_file_parents-Above [] ds ds' h = (λ p a. absurd a, λ q a. subst (Has q) (ground arith) a)
  push_file_parents-Above (g ∷ fs) ds ds' h =
      let (mid, first, rest) = >>=-ok _ (λ m. push_file_parents can_reserve m fs) h in
      let (above, kept) = push_parent_dirs-Above g.path ds mid first in
      let (later, kept') = push_file_parents-Above fs mid ds' rest in
      (
        λ f a. elim a [
          | inl same ↦
              subst (λ z. Above z.path 1 (length z.path) ds') same
                (λ c low high s. kept' (take c g.path) (above c low high s))
          | inr there ↦ later f there
        ],
        λ q a. kept' q (kept q a),
      )
