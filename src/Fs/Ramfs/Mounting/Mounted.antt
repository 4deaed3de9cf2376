-- ===== src/Fs/Ramfs/Mounting/Mounted.antt =====
-- `MountedRamfs::new` against lookups by path.
use genrt.Prelude.{
  ℕ, ◌≡◌, inl, inr, ok_then, sym, ◌∙◌, Bool, false, Bool-cases, List, [], ◌∷◌, arith, length, take,
  ok, >>-ok, subst,
}
use genrt.Prelude.Sorting.{Any, sort_by, sort_by-Any, sort_by-Ascending}
use genrt.Fs.Bytes.{Bytes, root, bytes_leb, bytes_leb_total, bytes_leb_trans}
use genrt.Fs.Ramfs.{RamFile, MountedRamfs}
use genrt.Fs.Ramfs.Mounting.{
  new, dedup, push_dir_path, push_explicit_dirs, push_file_parents, index_of, sort_files,
  reject_duplicates, reject_file_dir_conflicts, any_equal, validate_all, populate_dir_entries,
}
use genrt.Fs.Ramfs.Mounting.Lookup.{Distinct, by, adjacent_equal-Distinct}
use genrt.Fs.Ramfs.Mounting.Paths.{
  Has, Above, dedup-Has, push_dir_path-Has, push_explicit_dirs-Above, push_file_parents-Above,
}
use genrt.Fs.Ramfs.Mounting.Index.{paths_of, paths_of-empty, populate-SameIndex}

no_conflict :
    (xs : List RamFile) (ps : List Bytes) (f : RamFile)
    → reject_file_dir_conflicts xs ps ≡ ok tt
    → Any (λ g. g ≡ f) xs
    → any_equal f.path ps ≡ false
unfolding reject_file_dir_conflicts
no_conflict [] ps f h a = absurd a
no_conflict (x ∷ xs) ps f h (inl e) = subst (λ z. any_equal z.path ps ≡ false) e (ground arith)
no_conflict (x ∷ xs) ps f h (inr later) = no_conflict xs ps f (ground arith) later

sort_files-Distinct :
    (xs : List RamFile) (u : Unit {0})
    → reject_duplicates (λ f. f.path) (sort_files xs) ≡ ok u
    → Distinct (λ f. f.path) (sort_files xs)
unfolding reject_duplicates sort_files
sort_files-Distinct xs u h =
    adjacent_equal-Distinct (λ f. f.path) (sort_files xs)
      (sort_by-Ascending (by (λ f. f.path)) (λ x y. bytes_leb_total x.path y.path)
        (λ x y z. bytes_leb_trans x.path y.path z.path) xs)
      (ground arith)

-- What is known of an index that was built from files and explicit directories.
pub record Shape (files : List RamFile) (explicit_dirs : List Bytes) (fs : MountedRamfs)
    : Type 0 where
  pub same_files : fs.files ≡ sort_files files
  pub distinct : Distinct (λ f. f.path) (sort_files files)
  pub has_root : Has root (paths_of fs.dirs)
  pub has_explicit : (d : Bytes) → Has d explicit_dirs → Has d (paths_of fs.dirs)
  pub above_explicit : (d : Bytes) → Has d explicit_dirs → Above d 1 (length d) (paths_of fs.dirs)
  pub above_files :
      (f : RamFile) → Any (λ g. g ≡ f) files → Above f.path 1 (length f.path) (paths_of fs.dirs)
  pub apart : (f : RamFile) → Any (λ g. g ≡ f) files → any_equal f.path (paths_of fs.dirs) ≡ false

pub sort_files-Any :
    (xs : List RamFile) (f : RamFile) → Any (λ g. g ≡ f) xs → Any (λ g. g ≡ f) (sort_files xs)
unfolding sort_files
sort_files-Any xs f a = sort_by-Any _ (λ g. g ≡ f) xs a

sorted-Has : (q : Bytes) (ds : List Bytes) → Has q ds → Has q (dedup (sort_by bytes_leb ds))
sorted-Has q ds h = dedup-Has q _ (sort_by-Any bytes_leb (λ z. z ≡ q) ds h)

index_of-ok :
    (can_reserve : ℕ → Bool) (xs : List RamFile) (ps : List Bytes) (fs : MountedRamfs)
    → index_of can_reserve xs ps ≡ ok fs
    → (fs.files ≡ xs) × (paths_of fs.dirs ≡ ps) × (reject_file_dir_conflicts xs ps ≡ ok tt)
unfolding index_of
index_of-ok can_reserve xs ps fs h =
    let (u, e, h1) = >>-ok (reject_file_dir_conflicts xs ps) _ h in
    elim (Bool-cases (can_reserve (length ps))) [
      | inl fits ↦ ground (arith, paths_of-empty ps)
      | inr full ↦ ground arith
    ]

pub new-Shape :
    (can_reserve : ℕ → Bool) (files : List RamFile) (explicit_dirs : List Bytes) (fs : MountedRamfs)
    → new can_reserve files explicit_dirs ≡ ok fs
    → Shape files explicit_dirs fs
unfolding new
new-Shape can_reserve files explicit_dirs fs h =
    let (u, distinct, h1) = >>-ok (reject_duplicates (λ f. f.path) (sort_files files)) _ h in
    let (_, _, h2) = >>-ok (validate_all explicit_dirs) _ h1 in
    let (_, _, h3) = >>-ok (reject_duplicates (λ d. d) (sort_by bytes_leb explicit_dirs)) _ h2 in
    ok_then (push_dir_path can_reserve [] root) _ h3 (λ with_root e1 h4.
      ok_then (push_explicit_dirs can_reserve with_root (sort_by bytes_leb explicit_dirs)) _ h4
        (λ with_dirs e2 h5.
          ok_then (push_file_parents can_reserve with_dirs (sort_files files)) _ h5 (λ ps e3 h6.
            ok_then (index_of can_reserve (sort_files files) (dedup (sort_by bytes_leb ps))) _ h6
              (λ fs0 e4 h7. shape u distinct with_root with_dirs ps fs0 e1 e2 e3 e4 h7))))
  where
    shape :
        (u : Unit {0})
        → reject_duplicates (λ f. f.path) (sort_files files) ≡ ok u
        → (with_root with_dirs ps : List Bytes) (fs0 : MountedRamfs)
        → push_dir_path can_reserve [] root ≡ ok with_root
        → push_explicit_dirs can_reserve with_root (sort_by bytes_leb explicit_dirs) ≡ ok with_dirs
        → push_file_parents can_reserve with_dirs (sort_files files) ≡ ok ps
        → index_of can_reserve (sort_files files) (dedup (sort_by bytes_leb ps)) ≡ ok fs0
        → populate_dir_entries can_reserve fs0 ≡ ok fs
        → Shape files explicit_dirs fs
    shape u distinct with_root with_dirs ps fs0 e1 e2 e3 e4 h7 =
        let (files0, paths0, conflicts) = index_of-ok can_reserve _ _ fs0 e4 in
        let (files1, paths1) = populate-SameIndex can_reserve fs0 fs h7 in
        let paths : paths_of fs.dirs ≡ dedup (sort_by bytes_leb ps) = paths1 ∙ paths0 in
        let (explicit, kept1) = push_explicit_dirs-Above can_reserve _ with_root with_dirs e2 in
        let (parents, kept2) = push_file_parents-Above can_reserve _ with_dirs ps e3 in
        let there : (q : Bytes) → Has q ps → Has q (paths_of fs.dirs) =
          λ q a. subst (Has q) (sym paths) (sorted-Has q ps a) in
        record {
          same_files = files1 ∙ files0;
          distinct = sort_files-Distinct files u distinct;
          has_root =
              there root
                (kept2 root (kept1 root (push_dir_path-Has can_reserve [] root with_root e1).0));
          has_explicit = λ d a.
              there d
                (kept2 d ((explicit d (sort_by-Any bytes_leb (λ z. z ≡ d) explicit_dirs a)).1));
          above_explicit = λ d a c low high s. there (take c d) (
              kept2 (take c d)
                ((explicit d (sort_by-Any bytes_leb (λ z. z ≡ d) explicit_dirs a)).0 c low high s));
          above_files = λ f a c low high s.
              there (take c f.path) (parents f (sort_files-Any files f a) c low high s);
          apart = λ f a.
              subst (λ z. any_equal f.path z ≡ false) (sym paths)
                (no_conflict (sort_files files) _ f conflicts (sort_files-Any files f a));
        }
