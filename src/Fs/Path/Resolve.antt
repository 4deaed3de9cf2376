-- ===== src/Fs/Path/Resolve.antt =====
-- A resolved pathname names the node that it comes with.
use genrt.Prelude.{
  ℕ, ◌≤◌, ◌≡◌, ◌↔◌, inl, inr, refl, sym, subst, Bool, true, false, Bool-cases, some, List, [], ◌∷◌,
  arith, length, ok, ok_or, ok_then, leb, leb→le, >>-ok, ok_injective, ok_or-ok,
}
use genrt.Fs.Bytes.{Bytes, root}
use genrt.Fs.Ramfs.{MountedRamfs, lookup_dir, dir_path}
use genrt.Fs.Path.{
  path_max, directory, ResolvedPath, PathError, invalid_base, name_too_long, no_memory,
  is_directory, split_from, needs_directory, Walk, step, walk, start_dir, finish, guard,
  resolve_existing_path,
}
use genrt.Fs.Path.Names.{Names, Good}
use genrt.Fs.Path.Asks.{AsksDirectory, needs_directory_iff}
use genrt.Fs.Path.Steps.{step-Good}

module _ (fs : MountedRamfs) (can_reserve : ℕ → Bool) where
  walk-Good :
      (root_dir : ℕ) (components : List Bytes) (w w' : Walk)
      → Good fs w
      → walk fs can_reserve root_dir components w ≡ ok w'
      → Good fs w'
  unfolding walk
  walk-Good root_dir [] w w' g h = subst (Good fs) (ok_injective w w' h) g
  walk-Good root_dir (c ∷ cs) w w' g h =
      ok_then (step fs can_reserve root_dir c w) _ h (λ mid e h1.
        walk-Good root_dir cs mid w' (step-Good fs can_reserve root_dir c w mid g e) h1)

  finish-checked :
      (input : Bytes) (w : Walk) (r : ResolvedPath)
      → finish fs can_reserve input w ≡ ok r
      → (r.absolute ≡ w.absolute)
        × (r.node ≡ w.node)
        × (r.requires_directory ≡ needs_directory input)
        × (r.requires_directory ≡ true → is_directory r.node ≡ true)
  unfolding finish
  finish-checked input w r h = elim (Bool-cases (needs_directory input)) [
    | inl e ↦ elim (Bool-cases (is_directory w.node)) [
      | inl d ↦ (
        ground (arith, h, e, d),
        ground (arith, h, e, d),
        ground (arith, h, e, d),
        λ t. ground (arith, h, e, d, t),
      )
      | inr d ↦ ground (arith, h, e, d)
    ]
    | inr e ↦ (
      ground (arith, h, e),
      ground (arith, h, e),
      ground (arith, h, e),
      λ t. ground (arith, h, e, t),
    )
  ]

  guard-true : (b : Bool) (e : PathError) (u : Unit {0}) → guard b e ≡ ok u → b ≡ true
  guard-true true e u h = refl
  guard-true false e u h = ground arith

  -- A resolved pathname is no longer than the limit. It is the canonical path of the directory, or
  -- the path that finds the file, that comes with it. It is marked to require a directory exactly
  -- where the input ends with a separator, or with a component that is "." or ".."; and then it is a
  -- directory.
  pub resolve_existing_path-Names :
      (cwd_dir : ℕ) (input : Bytes) (r : ResolvedPath)
      → resolve_existing_path fs can_reserve cwd_dir input ≡ ok r
      → (length r.absolute ≤ path_max)
        × Names fs r.absolute r.node
        × ((r.requires_directory ≡ true) ↔ AsksDirectory input)
        × (r.requires_directory ≡ true → is_directory r.node ≡ true)
  unfolding resolve_existing_path
  resolve_existing_path-Names cwd_dir [] r h = ground arith
  resolve_existing_path-Names cwd_dir (b ∷ bs) r h =
      ok_then (ok_or (lookup_dir fs root) invalid_base) _ h (λ root_dir e1 h1.
        ok_then (start_dir fs can_reserve root_dir cwd_dir (b ∷ bs)) _ h1 (λ current e2 h2.
          ok_then (ok_or (dir_path (some fs) current) invalid_base) _ h2 (λ cwd e3 h3.
            let (u, fits, h4) = >>-ok (guard (leb (length cwd) path_max) name_too_long) _ h3 in
            let (v, granted, h5) = >>-ok (guard _ no_memory) _ h4 in
            ok_then (walk fs can_reserve root_dir (split_from [] (b ∷ bs)) _) _ h5 (λ w e6 h6.
              result root_dir current cwd w e3 (guard-true _ name_too_long u fits) e6 h6))))
    where
      result :
          (root_dir current : ℕ) (cwd : Bytes) (w : Walk)
          → ok_or (dir_path (some fs) current) invalid_base ≡ ok cwd
          → leb (length cwd) path_max ≡ true
          → walk fs can_reserve root_dir
              (split_from [] (b ∷ bs))
              (record { current_dir = current; absolute = cwd; node = directory current })
            ≡ ok w
          → finish fs can_reserve (b ∷ bs) w ≡ ok r
          → (length r.absolute ≤ path_max)
            × Names fs r.absolute r.node
            × ((r.requires_directory ≡ true) ↔ AsksDirectory (b ∷ bs))
            × (r.requires_directory ≡ true → is_directory r.node ≡ true)
      result root_dir current cwd w at fits walked finished =
          let start : Good fs
              (record { current_dir = current; absolute = cwd; node = directory current }) =
            record {
              names = ok_or-ok _ invalid_base cwd at;
              bounded = leb→le _ _ fits;
              current = λ e. refl;
            } in
          let g = walk-Good root_dir (split_from [] (b ∷ bs)) _ w start walked in
          let (same, same_node, flag, checked) = finish-checked (b ∷ bs) w r finished in
          (
            subst (λ z. length z ≤ path_max) (sym same) g.bounded,
            subst (λ z. Names fs z r.node) (sym same)
                (subst (Names fs w.absolute) (sym same_node) g.names),
            subst (λ z. (z ≡ true) ↔ AsksDirectory (b ∷ bs)) (sym flag)
                (needs_directory_iff (b ∷ bs)),
            checked,
          )
