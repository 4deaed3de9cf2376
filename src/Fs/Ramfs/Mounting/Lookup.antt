-- ===== src/Fs/Ramfs/Mounting/Lookup.antt =====
-- Searching the index: in an ascending list with no two equal neighbours, the search for a path
-- finds the one element that has it.
use genrt.Prelude.{
  ℕ, suc, ◌+◌, ◌≡◌, inl, inr, refl, sym, Bool, true, false, Bool-cases, Option, none, some, List,
  [], ◌∷◌, arith, get_elem?, if◌then◌else◌, subst, map, map,
}
use genrt.Prelude.Sorting.{All, Any, All-map, All-Any, Ascending}
use genrt.Fs.Bytes.{Bytes, bytes_eq, bytes_leb, bytes_eq_refl, bytes_eq_sound, bytes_leb_antisym}
use genrt.Fs.Ramfs.{RamFile, RamDir, find_file, find_dir}
use genrt.Fs.Ramfs.Mounting.{adjacent_equal, any_equal}

-- No later element has the key of an earlier one.
abbrev pub Distinct {ℓ} : {A : Type ℓ} → (A → Bytes) → List A → Type 0
Distinct key [] = Unit
Distinct key (x ∷ xs) = All (λ y. bytes_eq (key x) (key y) ≡ false) xs × Distinct key xs

abbrev pub by {ℓ} : {A : Type ℓ} → (A → Bytes) → A → A → Bool
by key x y = bytes_leb (key x) (key y)

-- Two paths with one strictly between cannot be equal.
apart :
    (a b c : Bytes)
    → bytes_eq a b ≡ false
    → bytes_leb a b ≡ true
    → bytes_leb b c ≡ true
    → bytes_eq a c ≡ false
apart a b c ne h k = elim (Bool-cases (bytes_eq a c)) [
  | inr e ↦ e
  | inl e ↦
      let back : bytes_leb b a ≡ true =
        subst (λ z. bytes_leb b z ≡ true) (sym (bytes_eq_sound a c e)) k in
      cc (ne, bytes_leb_antisym a b h back)
]

pub adjacent_equal-Distinct {ℓ} :
    {A : Type ℓ} (key : A → Bytes) (xs : List A)
    → Ascending (by key) xs
    → adjacent_equal key xs ≡ false
    → Distinct key xs
unfolding adjacent_equal
adjacent_equal-Distinct key [] s h = tt
adjacent_equal-Distinct key (x ∷ []) s h = (tt, tt)
adjacent_equal-Distinct key (x ∷ y ∷ ys) s h = elim (Bool-cases (bytes_eq (key x) (key y))) [
  | inl e ↦ absurd (ground arith)
  | inr e ↦ (
    (e, All-map ys (λ z above. apart (key x) (key y) (key z) e s.0.0 above) s.1.0),
    adjacent_equal-Distinct key (y ∷ ys) s.1 (ground arith),
  )
]

differs :
    (x : RamFile) (xs : List RamFile) (f : RamFile)
    → All (λ y. bytes_eq x.path y.path ≡ false) xs
    → Any (λ g. g ≡ f) xs
    → bytes_eq x.path f.path ≡ false
differs x xs f d a = All-Any xs d a (λ y ne e. subst (λ z. bytes_eq x.path z.path ≡ false) e ne)

-- What a search from `index` answers for an element that is there.
pub find_file-there :
    (xs : List RamFile) (f : RamFile) (index : ℕ)
    → Distinct (λ g. g.path) xs
    → Any (λ g. g ≡ f) xs
    → (j : ℕ) × (find_file f.path xs index ≡ some (index + j)) × (get_elem? xs j ≡ some f)
unfolding find_file
find_file-there [] f index d a = absurd a
find_file-there (x ∷ xs) f index d (inl e) =
    (0, rw e (rw (bytes_eq_refl f.path) (ground arith)), ground arith)
find_file-there (x ∷ xs) f index d (inr later) =
    let (j, found, at) = find_file-there xs f (suc index) d.1 later in
    (suc j, rw (differs x xs f d.0 later) (rw found (ground arith)), at)

-- Searching the directories is searching the list of their paths.
pub find_path : Bytes → List Bytes → ℕ → Option ℕ
find_path p [] index = none
find_path p (d ∷ ds) index =
    let rest = find_path p ds (suc index) in if bytes_eq d p then some index else rest

pub find_dir-paths :
    (p : Bytes) (ds : List RamDir) (index : ℕ)
    → find_dir p ds index ≡ find_path p (map (λ d. d.path) ds) index
unfolding find_dir find_path
find_dir-paths p [] index = refl
find_dir-paths p (d ∷ ds) index = rw (find_dir-paths p ds (suc index)) refl

pub find_path-there :
    (ps : List Bytes) (p : Bytes) (index : ℕ)
    → Any (λ q. q ≡ p) ps
    → (j : ℕ) × (find_path p ps index ≡ some j)
unfolding find_path
find_path-there [] p index a = absurd a
find_path-there (q ∷ ps) p index (inl e) = (index, rw e (rw (bytes_eq_refl p) refl))
find_path-there (q ∷ ps) p index (inr later) = elim (Bool-cases (bytes_eq q p)) [
  | inl e ↦ (index, rw e refl)
  | inr e ↦ let (j, found) = find_path-there ps p (suc index) later in (j, rw e found)
]

pub find_path-absent :
    (ps : List Bytes) (p : Bytes) (index : ℕ) → any_equal p ps ≡ false → find_path p ps index ≡ none
unfolding find_path any_equal
find_path-absent [] p index h = refl
find_path-absent (q ∷ ps) p index h = ground (arith, find_path-absent ps p (suc index))
