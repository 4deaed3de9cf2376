-- ===== src/Fs/Path/Names.antt =====
-- The nodes that paths name, and the operations that lead from one to another.
use genrt.Prelude.{
  ℕ, suc, ◌+◌, ◌≤◌, ◌≡◌, inl, inr, refl, sym, ap, ◌∙◌, Bool, true, Bool-cases, some, Option-cases,
  List, [], ◌∷◌, ◌++◌, arith, length, get_elem?, take, ok, length-append, length-take, ◌==◌,
  checked_add,
}
use genrt.Fs.Bytes.{Bytes, slash, root, bytes_eq, bytes_eq_sound, rposition}
use genrt.Fs.Ramfs.{MountedRamfs, RamDir, lookup_dir, lookup_file, dir_path, find_dir}
use genrt.Fs.Path.{
  path_max, ResolvedNode, file, directory, is_directory, parent_dir, append_component, select, Walk,
}

-- The path is that of the directory, or one that finds the file.
abbrev pub Names : MountedRamfs → Bytes → ResolvedNode → Type 0
Names fs p (directory d) = dir_path (some fs) d ≡ some p
Names fs p (file i) = lookup_file fs p ≡ some i

find_dir-path :
    (p : Bytes) (ds : List RamDir) (index j : ℕ)
    → find_dir p ds index ≡ some j
    → (k : ℕ) × (d : RamDir) × (j ≡ index + k) × (get_elem? ds k ≡ some d) × (d.path ≡ p)
unfolding find_dir
find_dir-path p [] index j h = ground arith
find_dir-path p (d ∷ ds) index j h = elim (Bool-cases (bytes_eq d.path p)) [
  | inl e ↦ (0, d, ground (arith, e, h), refl, bytes_eq_sound d.path p e)
  | inr e ↦
      let (k, d', at, there, same) = find_dir-path p ds (suc index) j (ground (arith, e, h)) in
      (suc k, d', omega (arith, at), there, same)
]

lookup_dir-dir_path :
    (fs : MountedRamfs) (p : Bytes) (d : ℕ)
    → lookup_dir fs p ≡ some d
    → dir_path (some fs) d ≡ some p
unfolding lookup_dir dir_path
lookup_dir-dir_path fs p d h =
    let (k, dir, at, there, same) = find_dir-path p fs.dirs 0 d h in
    let k-d : d ≡ k = omega (arith, at) in rw (k-d, dir_path) (rw (there, dir_path) (ap some same))

-- What holds of the loop's variables.
pub record Good (fs : MountedRamfs) (w : Walk) : Type 0 where
  pub names : Names fs w.absolute w.node
  pub bounded : length w.absolute ≤ path_max
  pub current : is_directory w.node ≡ true → w.node ≡ directory w.current_dir

length-prefix : (p : Bytes) (n : ℕ) → length (take n p) ≤ length p
length-prefix p n = omega (arith, length-take n p)

module _ (fs : MountedRamfs) (can_reserve : ℕ → Bool) where
  pub append_component-bounded :
      (p c q : Bytes) → append_component fs can_reserve p c ≡ ok q → length q ≤ path_max
  unfolding append_component checked_add
  append_component-bounded p c q h =
      ground
        (arith, length-append p c, length-append p (slash ∷ []), length-append (p ++ slash ∷ []) c)

  pub select-Names :
      (p : Bytes) (current d : ℕ) (node : ResolvedNode)
      → select fs can_reserve p current ≡ ok (d, node)
      → Names fs p node × (is_directory node ≡ true → node ≡ directory d)
  unfolding select
  select-Names p current d (file i) h = (ground (arith, h), λ e. ground arith)
  select-Names p current d (directory j) h = elim (Option-cases (lookup_dir fs p)) [
    | inl e ↦ elim (Option-cases (lookup_file fs p)) [
      | inl f ↦ ground (arith, h, e, f)
      | inr (i, f) ↦ ground (arith, h, e, f)
    ]
    | inr (i, e) ↦
        let same : i ≡ j = ground (arith, h, e) in
        let same' : i ≡ d = ground (arith, h, e) in
        (lookup_dir-dir_path fs p j (e ∙ ap some same), λ t. ap directory (sym same ∙ same'))
  ]

  pub parent_dir-path :
      (current root_dir parent : ℕ) (p : Bytes)
      → dir_path (some fs) current ≡ some p
      → length p ≤ path_max
      → parent_dir fs can_reserve current root_dir ≡ ok parent
      → (q : Bytes) × (dir_path (some fs) parent ≡ some q) × (length q ≤ path_max)
  unfolding parent_dir
  parent_dir-path current root_dir parent p at bounded h = elim (Bool-cases (current == root_dir)) [
    | inl e ↦ (p, ap (dir_path (some fs)) (same_root e h) ∙ at, bounded)
    | inr e ↦ elim (Option-cases (rposition slash p)) [
      | inl f ↦ ground (arith, h, e, at, f)
      | inr (i, f) ↦ elim (Bool-cases (i == 0)) [
        | inl z ↦ (
          root,
          lookup_dir-dir_path fs root parent (ground (arith, h, e, at, f, z)),
          ground arith,
        )
        | inr z ↦ (
          take i p,
          lookup_dir-dir_path fs (take i p) parent (ground (arith, h, e, at, f, z)),
          omega (arith, length-prefix p i),
        )
      ]
    ]
  ]
    where
      same_root :
          (current == root_dir) ≡ true
          → parent_dir fs can_reserve current root_dir ≡ ok parent
          → parent ≡ current
      same_root e h = ground (arith, e, h)
