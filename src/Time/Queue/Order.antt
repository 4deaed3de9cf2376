-- ===== src/Time/Queue/Order.antt =====
-- kernel/src/time.rs: the order of the heap, its entries by place and their number.
use genrt.Prelude.{
  ℕ, zero, suc, ◌+◌, ◌-◌, ◌≤◌, ◌<◌, ◌≡◌, inl, inr, refl, ◌∙◌, subst, Bool, Bool-cases, some, [],
  ◌∷◌, ◌++◌, arith, length, get_elem?, get_or, set, take, length-set, ltb, ◌==◌, if◌then◌else◌,
}
use genrt.Prelude.Running.{Run, done, Ends, Ends-map}
use genrt.Time.Event.{quantum_expired, DeadlineEntry, entry_less, Le, Le_refl, Le_trans}
use genrt.Time.Queue.{Entries, parent, less, swap}

-- What stands for an entry outside the heap.
abbrev nowhere : DeadlineEntry
nowhere = record { deadline = 0; event = quantum_expired 0 (record { index = 0; generation = 0 }) }

unfoldable pub entry_at : Entries → ℕ → DeadlineEntry
entry_at es i = get_or es i nowhere

pub swapped : Entries → ℕ → ℕ → Entries
swapped es i j = set (set es i (entry_at es j)) j (entry_at es i)

-- How many entries pass a test.
unfoldable pub tally : (DeadlineEntry → Bool) → Entries → ℕ
tally p [] = 0
tally p (e ∷ es) = (if p e then 1 else 0) + tally p es

pub get_elem?-entry_at :
    (es : Entries) (i : ℕ) → i < length es → get_elem? es i ≡ some (entry_at es i)
unfolding entry_at
get_elem?-entry_at [] i h = absurd (omega arith)
get_elem?-entry_at (e ∷ es) zero h = refl
get_elem?-entry_at (e ∷ es) (suc i) h = get_elem?-entry_at es i (omega arith)

pub entry_at-set :
    (es : Entries) (i k : ℕ) (v : DeadlineEntry)
    → i < length es
    → entry_at (set es i v) k ≡ (if k == i then v else entry_at es k)
unfolding entry_at
entry_at-set [] i k v h = absurd (omega arith)
entry_at-set (e ∷ es) zero zero v h = refl
entry_at-set (e ∷ es) zero (suc k) v h = ground arith
entry_at-set (e ∷ es) (suc i) zero v h = ground arith
entry_at-set (e ∷ es) (suc i) (suc k) v h = ground (arith, entry_at-set es i k v (omega arith))

pub entry_at-append :
    (es fs : Entries) (k : ℕ)
    → entry_at (es ++ fs) k
      ≡ (if ltb k (length es) then entry_at es k else entry_at fs (k - length es))
unfolding entry_at
entry_at-append [] fs k = ground arith
entry_at-append (e ∷ es) fs zero = ground arith
entry_at-append (e ∷ es) fs (suc k) = ground (arith, entry_at-append es fs k)

pub entry_at-take : (n : ℕ) (es : Entries) (k : ℕ) → k < n → entry_at (take n es) k ≡ entry_at es k
unfolding entry_at
entry_at-take zero es k h = absurd (omega arith)
entry_at-take (suc n) [] k h = refl
entry_at-take (suc n) (e ∷ es) zero h = refl
entry_at-take (suc n) (e ∷ es) (suc k) h = entry_at-take n es k (omega arith)

pub length-swapped : (es : Entries) (i j : ℕ) → length (swapped es i j) ≡ length es
unfolding swapped
length-swapped es i j = length-set _ _ _ ∙ length-set _ _ _

pub entry_at-swapped :
    (es : Entries) (i j k : ℕ)
    → i < length es
    → j < length es
    → entry_at (swapped es i j) k
      ≡ (if k == j then entry_at es i else if k == i then entry_at es j else entry_at es k)
unfolding swapped
entry_at-swapped es i j k hi hj =
    entry_at-set _ j k _ (omega (arith, length-set es i (entry_at es j)))
    ∙ rw (entry_at-set es i k (entry_at es j) hi) refl

pub swap-ok :
    (es : Entries) (i j : ℕ) → i < length es → j < length es → swap es i j ≡ done (swapped es i j)
unfolding swap swapped
swap-ok es i j hi hj = rw (get_elem?-entry_at es i hi, get_elem?-entry_at es j hj) refl

pub less-ok :
    (es : Entries) (i j : ℕ)
    → i < length es
    → j < length es
    → less es i j ≡ done (entry_less (entry_at es i) (entry_at es j))
unfolding less
less-ok es i j hi hj = rw (get_elem?-entry_at es i hi, get_elem?-entry_at es j hj) refl

abbrev pub one_if : Bool → ℕ
one_if b = if b then 1 else 0

pub tally-set :
    (p : DeadlineEntry → Bool) (es : Entries) (i : ℕ) (v : DeadlineEntry)
    → i < length es
    → tally p (set es i v) + one_if (p (entry_at es i)) ≡ tally p es + one_if (p v)
unfolding tally entry_at
tally-set p [] i v h = absurd (omega arith)
tally-set p (e ∷ es) zero v h = omega arith
tally-set p (e ∷ es) (suc i) v h = omega (arith, tally-set p es i v (omega arith))

pub tally-entry_at :
    (p : DeadlineEntry → Bool) (es : Entries) (i : ℕ)
    → i < length es
    → one_if (p (entry_at es i)) ≤ tally p es
unfolding tally entry_at
tally-entry_at p [] i h = absurd (omega arith)
tally-entry_at p (e ∷ es) zero h = omega arith
tally-entry_at p (e ∷ es) (suc i) h = omega (arith, tally-entry_at p es i (omega arith))

pub tally-append :
    (p : DeadlineEntry → Bool) (es fs : Entries) → tally p (es ++ fs) ≡ tally p es + tally p fs
unfolding tally
tally-append p [] fs = omega arith
tally-append p (e ∷ es) fs = omega (arith, tally-append p es fs)

pub tally-swapped :
    (p : DeadlineEntry → Bool) (es : Entries) (i j : ℕ)
    → i < length es
    → j < length es
    → tally p (swapped es i j) ≡ tally p es
unfolding swapped
tally-swapped p es i j hi hj =
    let inside : j < length (set es i (entry_at es j)) =
      omega (arith, length-set es i (entry_at es j)) in
    let inner = entry_at-set es i j (entry_at es j) hi in
    let first = tally-set p es i (entry_at es j) hi in
    let second = tally-set p (set es i (entry_at es j)) j (entry_at es i) inside in
    elim (Bool-cases (j == i)) [ inl e ↦ ground arith | inr e ↦ ground arith ]

-- The last entry taken off.
pub tally-take_last :
    (p : DeadlineEntry → Bool) (n : ℕ) (es : Entries)
    → length es ≡ suc n
    → tally p es ≡ tally p (take n es) + one_if (p (entry_at es n))
unfolding tally entry_at
tally-take_last p n [] h = absurd (omega arith)
tally-take_last p zero (e ∷ []) h = omega arith
tally-take_last p zero (e ∷ f ∷ es) h = absurd (omega arith)
tally-take_last p (suc n) (e ∷ es) h = omega (arith, tally-take_last p n es (omega arith))

-- No entry is before its parent.
abbrev pub IsHeap : Entries → Type 0
IsHeap es = (c : ℕ) → 0 < c → c < length es → Le (entry_at es (parent c)) (entry_at es c)

-- The edges past `i`, from its parent to its children, are in order.
abbrev pub IsBridged : Entries → ℕ → Type 0
IsBridged es i =
    (c : ℕ)
    → 0 < c
    → c < length es
    → parent c ≡ i
    → 0 < i
    → Le (entry_at es (parent i)) (entry_at es c)

-- The same entries, in a heap.
pub record Heaped (es fs : Entries) : Type 0 where
  pub heap : IsHeap fs
  pub size : length fs ≡ length es
  pub same : (p : DeadlineEntry → Bool) → tally p fs ≡ tally p es

pub Heaped-swapped :
    {es : Entries} {i j : ℕ} {m : Run Entries}
    → i < length es
    → j < length es
    → Ends (Heaped (swapped es i j)) m
    → Ends (Heaped es) m
Heaped-swapped hi hj run = Ends-map run λ fs s. record {
  heap = s.heap;
  size = s.size ∙ length-swapped _ _ _;
  same = λ p. s.same p ∙ tally-swapped p _ _ _ hi hj;
}

least_below :
    (k : ℕ) (es : Entries) (i : ℕ)
    → IsHeap es
    → i < k
    → i < length es
    → Le (entry_at es 0) (entry_at es i)
least_below zero es i h f inside = absurd (omega arith)
least_below (suc k) es i h f inside = elim (Bool-cases (ltb 0 i)) [
  | inl e ↦
      Le_trans _ _ _ (least_below k es (parent i) h (ground arith) (ground arith))
        (h i (ground arith) inside)
  | inr e ↦ subst (λ j. Le (entry_at es 0) (entry_at es j)) (ground arith) (Le_refl _)
]

-- The root of a heap is after no entry.
pub root_least :
    (es : Entries) (i : ℕ) → IsHeap es → i < length es → Le (entry_at es 0) (entry_at es i)
root_least es i h inside = least_below (suc i) es i h (omega arith) inside
