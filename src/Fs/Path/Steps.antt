-- ===== src/Fs/Path/Steps.antt =====
-- Each step of the traversal keeps the path and the node together.
use genrt.Prelude.{
  ℕ, ◌≤◌, ◌≡◌, inl, inr, refl, sym, ◌∙◌, subst, Bool, true, Bool-cases, some, Option-cases, arith,
  length, ok, ok_then, ◌>>=◌, ok_injective,
}
use genrt.Fs.Bytes.{Bytes}
use genrt.Fs.Ramfs.{MountedRamfs, dir_path}
use genrt.Fs.Path.{
  path_max, ResolvedNode, directory, is_directory, is_empty, is_dot, is_dot_dot, parent_dir,
  replace_with_dir_path, append_component, select, Walk, step,
}
use genrt.Fs.Path.Names.{Names, Good, append_component-bounded, select-Names, parent_dir-path}

module _ (fs : MountedRamfs) (can_reserve : ℕ → Bool) where
  replace-path :
      (d : ℕ) (q : Bytes)
      → replace_with_dir_path fs can_reserve d ≡ ok q
      → dir_path (some fs) d ≡ some q
  unfolding replace_with_dir_path
  replace-path d q h = elim (Option-cases (dir_path (some fs) d)) [
    | inl e ↦ ground (arith, h, e)
    | inr (p, e) ↦ ground (arith, h, e)
  ]

  to_parent :
      (root_dir parent : ℕ) (q : Bytes) (w : Walk)
      → Good fs w
      → is_directory w.node ≡ true
      → parent_dir fs can_reserve w.current_dir root_dir ≡ ok parent
      → replace_with_dir_path fs can_reserve parent ≡ ok q
      → Good fs (record { current_dir = parent; absolute = q; node = directory parent })
  to_parent root_dir parent q w g here up back =
      let at : dir_path (some fs) w.current_dir ≡ some w.absolute =
        subst (Names fs w.absolute) (g.current here) g.names in
      let (q', there, bounded) =
        parent_dir-path fs can_reserve w.current_dir root_dir parent w.absolute at g.bounded up in
      let there' = replace-path parent q back in
      record {
        names = there';
        bounded =
            subst (λ z. length z ≤ path_max) (some_injective q' q (sym there ∙ there')) bounded;
        current = λ e. refl;
      }
    where
      some_injective : (a b : Bytes) → some a ≡ some b → a ≡ b
      some_injective a b h = ground (arith, h)

  to_component :
      (component q : Bytes) (d : ℕ) (node : ResolvedNode) (w : Walk)
      → append_component fs can_reserve w.absolute component ≡ ok q
      → select fs can_reserve q w.current_dir ≡ ok (d, node)
      → Good fs (record { current_dir = d; absolute = q; node = node })
  to_component component q d node w appended selected =
      let (names, current) = select-Names fs can_reserve q w.current_dir d node selected in
      record {
        names = names;
        bounded = append_component-bounded fs can_reserve w.absolute component q appended;
        current = current;
      }

  pub step-Good :
      (root_dir : ℕ) (component : Bytes) (w w' : Walk)
      → Good fs w
      → step fs can_reserve root_dir component w ≡ ok w'
      → Good fs w'
  unfolding step
  step-Good root_dir component w w' g h = elim (Bool-cases (is_empty component)) [
    | inl e ↦ subst (Good fs) (ground (arith, h, e)) g
    | inr e ↦ elim (Bool-cases (is_directory w.node)) [
      | inr n ↦ ground (arith, h, e, n)
      | inl n ↦ elim (Bool-cases (is_dot component)) [
        | inl d ↦ subst (Good fs) (ground (arith, h, e, n, d)) g
        | inr d ↦ elim (Bool-cases (is_dot_dot component)) [
          | inl dd ↦ up n (ground (arith, h, e, n, d, dd))
          | inr dd ↦ down (ground (arith, h, e, n, d, dd))
        ]
      ]
    ]
  ]
    where
      up :
          is_directory w.node ≡ true
          → (do
            parent ← parent_dir fs can_reserve w.current_dir root_dir
            absolute ← replace_with_dir_path fs can_reserve parent
            ok (record { current_dir = parent; absolute = absolute; node = directory parent }))
            ≡ ok w'
          → Good fs w'
      up n k = ok_then (parent_dir fs can_reserve w.current_dir root_dir) _ k (λ parent e1 h1.
          ok_then (replace_with_dir_path fs can_reserve parent) _ h1 (λ q e2 h2.
            subst (Good fs) (ok_injective _ w' h2) (to_parent root_dir parent q w g n e1 e2)))

      down :
          (do
            absolute ← append_component fs can_reserve w.absolute component
            (current, node) ← select fs can_reserve absolute w.current_dir
            ok (record { current_dir = current; absolute = absolute; node = node }))
            ≡ ok w'
          → Good fs w'
      down k = ok_then (append_component fs can_reserve w.absolute component) _ k (λ q e1 h1.
          ok_then (select fs can_reserve q w.current_dir) _ h1 (λ selected e2 h2.
            subst (Good fs) (ok_injective _ w' h2)
              (to_component component q selected.0 selected.1 w e1 e2)))
