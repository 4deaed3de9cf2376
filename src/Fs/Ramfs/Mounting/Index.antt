-- ===== src/Fs/Ramfs/Mounting/Index.antt =====
-- What `MountedRamfs::new` builds: its files are the sorted input, and its directories the collected
-- paths, each once.
use genrt.Prelude.{
  ℕ, zero, suc, ◌+◌, ◌≡◌, inl, inr, ok_then, refl, ap, ◌∙◌, Bool, Bool-cases, List, [], ◌∷◌, map,
  arith, ok, >>=-ok, >>-ok, if◌then◌else◌, ok_or,
}
use genrt.Fs.Bytes.{Bytes, root, bytes_eq}
use genrt.Fs.Ramfs.{
  RamFile, RamDir, DirEntry, DirEntryKind, MountedRamfs, parent_path, lookup_dir, basename,
  invalid_path, directory, file, file_ino, dir_ino,
}
use genrt.Fs.Ramfs.Mounting.{
  populate_dir_entries, add_files, add_dirs, add_child, append_dir_entry, append_to, finish_dirs,
  empty_dir, reject_duplicates, sort_entries, try_copy_bytes,
}

abbrev pub paths_of : List RamDir → List Bytes
paths_of = map (λ d. d.path)

-- The same files, and directories of the same paths.
abbrev pub SameIndex : MountedRamfs → MountedRamfs → Type 0
SameIndex fs fs' = (fs'.files ≡ fs.files) × (paths_of fs'.dirs ≡ paths_of fs.dirs)

append_to-paths :
    (can_reserve : ℕ → Bool) (ds : List RamDir) (i : ℕ) (e : DirEntry)
    → paths_of (append_to can_reserve ds i e) ≡ paths_of ds
unfolding append_to
append_to-paths c [] i e = refl
append_to-paths c (d ∷ ds) zero e = refl
append_to-paths c (d ∷ ds) (suc i) e = ap (λ z. d.path ∷ z) (append_to-paths c ds i e)

pub paths_of-empty : (ps : List Bytes) → paths_of (map empty_dir ps) ≡ ps
paths_of-empty [] = refl
paths_of-empty (p ∷ ps) = ap (λ z. p ∷ z) (paths_of-empty ps)

finish_dirs-paths : (ds ds' : List RamDir) → finish_dirs ds ≡ ok ds' → paths_of ds' ≡ paths_of ds
unfolding finish_dirs
finish_dirs-paths [] ds' h = ground arith
finish_dirs-paths (d ∷ ds) ds' h =
    let (_, _, h1) = >>-ok (reject_duplicates (λ e. e.name) (sort_entries d.entries)) _ h in
    let (rest, e, h2) = >>=-ok (finish_dirs ds) _ h1 in ground (arith, finish_dirs-paths ds rest e)

module _ (can_reserve : ℕ → Bool) where
  append_dir_entry-SameIndex :
      (fs : MountedRamfs) (i : ℕ) (name : Bytes) (kind : DirEntryKind) (ino : ℕ)
      (fs' : MountedRamfs)
      → append_dir_entry can_reserve fs i name kind ino ≡ ok fs'
      → SameIndex fs fs'
  unfolding append_dir_entry
  append_dir_entry-SameIndex fs i name kind ino fs' h = elim (Bool-cases (can_reserve 1)) [
    | inl e ↦ ground (
      arith,
      append_to-paths can_reserve fs.dirs i (record { name = name; kind = kind; ino = ino }),
    )
    | inr e ↦ ground arith
  ]

  add_child-SameIndex :
      (fs : MountedRamfs) (p : Bytes) (kind : DirEntryKind) (ino : ℕ) (fs' : MountedRamfs)
      → add_child can_reserve fs p kind ino ≡ ok fs'
      → SameIndex fs fs'
  unfolding add_child
  add_child-SameIndex fs p kind ino fs' h = ok_then (parent_path p) _ h (λ parent e1 h1.
      ok_then (ok_or (lookup_dir fs parent) invalid_path) _ h1 (λ index e2 h2.
        ok_then (basename p) _ h2 (λ base e3 h3.
          ok_then (try_copy_bytes can_reserve base) _ h3
            (λ name e4 h4. append_dir_entry-SameIndex fs index name kind ino fs' h4))))

  add_files-SameIndex :
      (i : ℕ) (xs : List RamFile) (fs fs' : MountedRamfs)
      → add_files can_reserve i xs fs ≡ ok fs'
      → SameIndex fs fs'
  unfolding add_files
  add_files-SameIndex i [] fs fs' h = ground arith
  add_files-SameIndex i (x ∷ xs) fs fs' h =
      let (mid, e, h1) = >>=-ok _ (λ m. add_files can_reserve (i + 1) xs m) h in
      let s = add_child-SameIndex fs x.path file (file_ino i) mid e in
      let t = add_files-SameIndex (i + 1) xs mid fs' h1 in (t.0 ∙ s.0, t.1 ∙ s.1)

  add_dirs-SameIndex :
      (i : ℕ) (xs : List RamDir) (fs fs' : MountedRamfs)
      → add_dirs can_reserve i xs fs ≡ ok fs'
      → SameIndex fs fs'
  unfolding add_dirs
  add_dirs-SameIndex i [] fs fs' h = ground arith
  add_dirs-SameIndex i (x ∷ xs) fs fs' h =
      let (mid, e, h1) = >>=-ok _ (λ m. add_dirs can_reserve (i + 1) xs m) h in
      let t = add_dirs-SameIndex (i + 1) xs mid fs' h1 in
      let s = one i x fs mid e in (t.0 ∙ s.0, t.1 ∙ s.1)
    where
      one :
          (i : ℕ) (x : RamDir) (fs mid : MountedRamfs)
          → (if bytes_eq x.path root
              then ok fs
              else add_child can_reserve fs x.path directory (dir_ino i))
            ≡ ok mid
          → SameIndex fs mid
      one i x fs mid e = elim (Bool-cases (bytes_eq x.path root)) [
        | inl is_root ↦ ground arith
        | inr other ↦ add_child-SameIndex fs x.path directory (dir_ino i) mid (ground arith)
      ]

  pub populate-SameIndex :
      (fs fs' : MountedRamfs) → populate_dir_entries can_reserve fs ≡ ok fs' → SameIndex fs fs'
  unfolding populate_dir_entries
  populate-SameIndex fs fs' h =
      let (a, ea, h1) = >>=-ok (add_files can_reserve 0 fs.files fs) _ h in
      let (b, eb, h2) = >>=-ok (add_dirs can_reserve 0 a.dirs a) _ h1 in
      let (ds, ed, h3) = >>=-ok (finish_dirs b.dirs) _ h2 in
      let s = add_files-SameIndex 0 fs.files fs a ea in
      let t = add_dirs-SameIndex 0 a.dirs a b eb in
      let u = finish_dirs-paths b.dirs ds ed in ground (arith, s, t, u)
