-- ===== src/Time/Batch/Held.antt =====
-- kernel/src/time.rs: the events that the expired buffer holds.
use genrt.Prelude.{
  ℕ, zero, suc, ◌+◌, ◌≤◌, ◌<◌, ◌≡◌, inl, inr, refl, ap, ◌∙◌, Bool-cases, some, List, [], ◌∷◌, ◌++◌,
  map, arith, length, set, take, length-set, ltb, leb,
}
use genrt.Prelude.Running.{done, Ends, ends, Ends-test}
use genrt.Time.Event.{TimedEvent}
use genrt.Time.Batch.{ExpiredEvents, push, filled, iter}

-- The batch holds these events.
pub record Holds (batch : ExpiredEvents) (events : List TimedEvent) : Type 0 where
  pub inside : batch.len ≤ length batch.entries
  pub prefix : take batch.len batch.entries ≡ map some events

filled-map : (events : List TimedEvent) → filled (map some events) ≡ done events
unfolding filled
filled-map [] = refl
filled-map (e ∷ es) = rw (filled-map es) refl

pub Holds-iter :
    (batch : ExpiredEvents) (events : List TimedEvent)
    → Holds batch events
    → iter batch ≡ done events
unfolding iter
Holds-iter batch events h = elim (Bool-cases (leb batch.len (length batch.entries))) [
  | inl e ↦ rw (e, h.prefix) (filled-map events)
  | inr e ↦ absurd (ground (arith, h.inside))
]

take-set_next {ℓ} :
    {A : Type ℓ} (xs : List A) (n : ℕ) (v : A)
    → n < length xs
    → take (suc n) (set xs n v) ≡ take n xs ++ v ∷ []
take-set_next [] n v h = absurd (omega arith)
take-set_next (x ∷ xs) zero v h = refl
take-set_next (x ∷ xs) (suc n) v h = ap (λ ys. x ∷ ys) (take-set_next xs n v (omega arith))

map-append_one {ℓ κ} :
    {A : Type ℓ} {B : Type κ} (f : A → B) (xs : List A) (x : A)
    → map f xs ++ f x ∷ [] ≡ map f (xs ++ x ∷ [])
map-append_one f [] x = refl
map-append_one f (y ∷ ys) x = ap (λ zs. f y ∷ zs) (map-append_one f ys x)

pub push-Holds :
    (batch : ExpiredEvents) (events : List TimedEvent) (event : TimedEvent)
    → Holds batch events
    → batch.len < length batch.entries
    → Ends
        (λ b.
          Holds b (events ++ event ∷ [])
          × (b.len ≡ batch.len + 1)
          × (length b.entries ≡ length batch.entries))
        (push batch event)
unfolding push
push-Holds batch events event h room =
    Ends-test (ltb batch.len (length batch.entries))
      (λ w. ends (
        record {
          inside = omega (arith, length-set batch.entries batch.len (some event));
          prefix =
              ap (λ k. take k (set batch.entries batch.len (some event))) {y = suc batch.len}
                (omega arith)
              ∙ take-set_next batch.entries batch.len (some event) room
              ∙ ap (λ xs. xs ++ some event ∷ []) h.prefix
              ∙ map-append_one some events event;
        },
        refl,
        length-set _ _ _,
      ))
      (λ w. absurd (ground arith))
