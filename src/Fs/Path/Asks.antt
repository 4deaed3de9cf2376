-- ===== src/Fs/Path/Asks.antt =====
-- kernel/src/fs/path.rs: which inputs ask for a directory by their syntax.
use genrt.Prelude.{
  ℕ, ◌-◌, ◌≡◌, ◌⊎◌, ◌↔◌, inl, inr, refl, sym, ap, ◌∙◌, subst, true, false, ◌||◌, Bool-cases, some,
  List, [], ◌∷◌, ◌++◌, reverse, arith, length, length-append, get_or, ◌==◌, ==_iff,
}
use mathlib.Core.List.{append-nil, append_assoc, reverse-append}
use genrt.Fs.Bytes.{Bytes, slash, bytes_eq, bytes_eq_sound}
use genrt.Fs.Path.{
  dot, split_from, is_dot, is_dot_dot, find_non_empty, is_empty, ends_with_slash, needs_directory,
}

-- The input ends with a separator, or with a component that is "." or "..".
pub data AsksDirectory : Bytes → Type 0 where
  by_separator : (input before : Bytes) → input ≡ before ++ slash ∷ [] → AsksDirectory input
  by_dots :
      (input dots : Bytes)
      → (dots ≡ dot ∷ []) ⊎ (dots ≡ dot ∷ dot ∷ [])
      → (input ≡ dots) ⊎ ((before : Bytes) × (input ≡ before ++ slash ∷ dots))
      → AsksDirectory input

-- The last component, and where it stands in the input.
last_component :
    (component input : Bytes)
    → (init : List Bytes) × (c : Bytes) × (split_from component input ≡ init ++ c ∷ [])
      × ((component ++ input ≡ c) ⊎ ((before : Bytes) × (input ≡ before ++ slash ∷ c)))
unfolding split_from
last_component component [] = ([], component, refl, inl (append-nil component))
last_component component (b ∷ bs) = elim (Bool-cases (b == slash)) [
  | inl e ↦
      let (init, c, split, at) = last_component [] bs in
      (
        component ∷ init,
        c,
        rw (e, split_from) (ap (λ z. component ∷ z) split),
        inr (elim at [
          | inl same ↦ ([], ap (λ z. z ∷ bs) ((==_iff b slash).0 e) ∙ ap (λ z. slash ∷ z) same)
          | inr (before, at') ↦ (b ∷ before, ap (λ z. b ∷ z) at')
        ]),
      )
  | inr e ↦
      let (init, c, split, at) = last_component (component ++ b ∷ []) bs in
      (
        init,
        c,
        rw (e, split_from) split,
        elim at [
          | inl same ↦ inl (sym (append_assoc component (b ∷ []) bs) ∙ same)
          | inr (before, at') ↦ inr (b ∷ before, ap (λ z. b ∷ z) at')
        ],
      )
]

split_from-append :
    (component before input : Bytes)
    → split_from component (before ++ slash ∷ input)
      ≡ split_from component before ++ split_from [] input
unfolding split_from
split_from-append component [] input = refl
split_from-append component (b ∷ bs) input = elim (Bool-cases (b == slash)) [
  | inl e ↦ rw (e, split_from) (ap (λ z. component ∷ z) (split_from-append [] bs input))
  | inr e ↦ rw (e, split_from) (split_from-append (component ++ b ∷ []) bs input)
]

find_non_empty-last :
    (init : List Bytes) (c : Bytes)
    → is_empty c ≡ false
    → find_non_empty (reverse (init ++ c ∷ [])) ≡ some c
unfolding find_non_empty
find_non_empty-last init c h = rw (reverse-append init (c ∷ [])) (rw h refl)

get_or-last : (before : Bytes) (b : ℕ) → get_or (before ++ b ∷ []) (length before) 0 ≡ b
get_or-last [] b = refl
get_or-last (x ∷ xs) b = get_or-last xs b

snoc :
    (b : ℕ) (bs : Bytes)
    → (before : Bytes) × (b ∷ bs ≡ before ++ get_or (b ∷ bs) (length bs) 0 ∷ [])
snoc b [] = ([], refl)
snoc b (x ∷ xs) = let (before, e) = snoc x xs in (b ∷ before, ap (λ z. b ∷ z) e)

ends_with_slash-snoc : (before : Bytes) → ends_with_slash (before ++ slash ∷ []) ≡ true
ends_with_slash-snoc [] = refl
ends_with_slash-snoc (x ∷ xs) =
    let index : length (x ∷ (xs ++ slash ∷ [])) - 1 ≡ length (x ∷ xs) =
      omega (arith, length-append {0} xs (slash ∷ [])) in
    (==_iff _ slash).1
      (ap (λ k. get_or (x ∷ (xs ++ slash ∷ [])) k 0) index ∙ get_or-last (x ∷ xs) slash)

ends_with_slash-asks : (input : Bytes) → ends_with_slash input ≡ true → AsksDirectory input
ends_with_slash-asks [] h = ground arith
ends_with_slash-asks (b ∷ bs) h =
    let (before, e) = snoc b bs in
    by_separator (b ∷ bs) before (
      e
      ∙ ap (λ z. before ++ z ∷ [])
          (ap (λ k. get_or (b ∷ bs) k 0) (omega arith) ∙ (==_iff _ slash).0 h))

dots-asks : (c : Bytes) → (is_dot c || is_dot_dot c) ≡ true → (c ≡ dot ∷ []) ⊎ (c ≡ dot ∷ dot ∷ [])
unfolding is_dot is_dot_dot
dots-asks c h = elim (Bool-cases (bytes_eq c (dot ∷ []))) [
  | inl e ↦ inl (bytes_eq_sound c _ e)
  | inr e ↦ inr (bytes_eq_sound c _ (ground arith))
]

needs_directory-asks : (input : Bytes) → needs_directory input ≡ true → AsksDirectory input
unfolding needs_directory split_from find_non_empty
needs_directory-asks input h = elim (Bool-cases (ends_with_slash input)) [
  | inl e ↦ ends_with_slash-asks input e
  | inr e ↦ let (init, c, split, at) = last_component [] input in by_last init c split at e
]
  where
    by_last :
        (init : List Bytes) (c : Bytes)
        → split_from [] input ≡ init ++ c ∷ []
        → (input ≡ c) ⊎ ((before : Bytes) × (input ≡ before ++ slash ∷ c))
        → ends_with_slash input ≡ false
        → AsksDirectory input
    by_last init [] split (inl same) e = cc (subst (λ z. needs_directory z ≡ true) same h)
    by_last init [] split (inr (before, at)) e = by_separator input before at
    by_last init (x ∷ xs) split at e =
        let found =
          ap (λ z. find_non_empty (reverse z)) split ∙ find_non_empty-last init (x ∷ xs) refl in
        by_dots input (x ∷ xs) (dots-asks (x ∷ xs) (ground (arith, found, h, e))) at

needs_directory-slash :
    (input : Bytes) → ends_with_slash input ≡ true → needs_directory input ≡ true
unfolding needs_directory
needs_directory-slash input h = rw h refl

needs_directory-dots :
    (input c : Bytes) (init : List Bytes)
    → split_from [] input ≡ init ++ c ∷ []
    → (c ≡ dot ∷ []) ⊎ (c ≡ dot ∷ dot ∷ [])
    → needs_directory input ≡ true
unfolding needs_directory is_dot is_dot_dot bytes_eq
needs_directory-dots input c init split (inl e) =
    let found =
      ap (λ z. find_non_empty (reverse z)) split ∙ find_non_empty-last init c (ap is_empty e) in
    ground (arith, found, e)
needs_directory-dots input c init split (inr e) =
    let found =
      ap (λ z. find_non_empty (reverse z)) split ∙ find_non_empty-last init c (ap is_empty e) in
    ground (arith, found, e)

asks-needs_directory : (input : Bytes) → AsksDirectory input → needs_directory input ≡ true
unfolding split_from
asks-needs_directory input (by_separator _ before e) =
    needs_directory-slash input (ap ends_with_slash e ∙ ends_with_slash-snoc before)
asks-needs_directory input (by_dots _ c (inl d) (inl e)) =
    needs_directory-dots input c [] (ap (split_from []) (e ∙ d) ∙ ap (λ z. z ∷ []) (sym d)) (inl d)
asks-needs_directory input (by_dots _ c (inr d) (inl e)) =
    needs_directory-dots input c [] (ap (split_from []) (e ∙ d) ∙ ap (λ z. z ∷ []) (sym d)) (inr d)
asks-needs_directory input (by_dots _ c (inl d) (inr (before, e))) =
    needs_directory-dots input c (split_from [] before)
      (ap (split_from []) e
        ∙ split_from-append [] before c
        ∙ ap (λ z. split_from [] before ++ z) (ap (split_from []) d ∙ ap (λ z. z ∷ []) (sym d)))
      (inl d)
asks-needs_directory input (by_dots _ c (inr d) (inr (before, e))) =
    needs_directory-dots input c (split_from [] before)
      (ap (split_from []) e
        ∙ split_from-append [] before c
        ∙ ap (λ z. split_from [] before ++ z) (ap (split_from []) d ∙ ap (λ z. z ∷ []) (sym d)))
      (inr d)

-- The test of the input's syntax.
pub needs_directory_iff : (input : Bytes) → (needs_directory input ≡ true) ↔ AsksDirectory input
needs_directory_iff input = (needs_directory-asks input, asks-needs_directory input)
