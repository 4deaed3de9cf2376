-- ===== src/Memory/FrameAlloc/Insert.antt =====
-- `insert_frame_sorted` against insertion into an ascending list.
use genrt.Prelude.{
  ℕ, zero, suc, ◌+◌, ◌≤◌, ◌<◌, ◌≡◌, refl, inl, inr, Bool-cases, some, false, List, [], ◌∷◌, arith,
  length, usize_max, ltb, ltb→lt, lt→ltb, if◌then◌else◌,
}
use genrt.Memory.FrameAlloc.{
  Links, write, next_of, FrameAllocator, insert_after, insert_frame_sorted,
}
use genrt.Memory.FrameAlloc.Chain.{Chain, Above, Absent, Owns, Absent-of_Above, Chain-write}

abbrev pub insert : ℕ → List ℕ → List ℕ
insert f [] = f ∷ []
insert f (x ∷ xs) = if ltb f x then f ∷ x ∷ xs else x ∷ insert f xs

length-insert : (f : ℕ) (xs : List ℕ) → length (insert f xs) ≡ length xs + 1
length-insert f [] = omega arith
length-insert f (x ∷ xs) = ground (arith, length-insert f xs)

insert-Above :
    (lo f : ℕ) (xs : List ℕ) → lo ≤ f → Absent f xs → Above lo xs → Above lo (insert f xs)
insert-Above lo f [] h out s = (h, tt)
insert-Above lo f (x ∷ xs) h out s = ground (arith, insert-Above (suc x) f xs)

-- What the loop leaves behind, seen from the node it started at.
abbrev Placed : Links → Links → ℕ → ℕ → List ℕ → Type 0
Placed l l' frame prev ys =
    Chain l' (next_of l' prev) (insert frame ys) × ((g : ℕ) → g < prev → l' g ≡ l g)

place_last :
    (l : Links) (frame prev : ℕ)
    → prev < frame
    → frame < usize_max
    → Placed l (write (write l frame usize_max) prev frame) frame prev []
place_last l frame prev h m = ((ground arith, m, ground arith), λ g below. ground arith)

place_before :
    (l : Links) (frame prev c : ℕ) (ys : List ℕ)
    → prev < frame
    → frame < c
    → Above (suc c) ys
    → Chain l (some c) (c ∷ ys)
    → Placed l (write (write l frame c) prev frame) frame prev (c ∷ ys)
place_before l frame prev c ys h k s ch = (
  rw (lt→ltb frame c k) (ground arith, omega arith, (ground arith, ch.1, spared)),
  λ g below. ground arith,
)
  where
    beyond : (f : ℕ) → f < c → Absent f ys
    beyond f below = Absent-of_Above f (suc c) ys (omega arith) s

    spared :
        Chain
          (write (write l frame c) prev frame)
          (next_of (write (write l frame c) prev frame) c)
          ys
    spared =
        Chain-write (write l frame c) prev frame _ ys (beyond prev (omega arith))
          (ground (arith, Chain-write l frame c (next_of l c) ys (beyond frame k)))

ltb-above : (a b : ℕ) → b < a → ltb a b ≡ false
ltb-above a b h = ground arith

place_after :
    (l l' : Links) (frame prev c : ℕ) (ys : List ℕ)
    → prev < c
    → c < frame
    → Chain l (some c) (c ∷ ys)
    → next_of l prev ≡ some c
    → Placed l l' frame c ys
    → Placed l l' frame prev (c ∷ ys)
place_after l l' frame prev c ys h k ch e placed = (
  rw (ltb-above frame c k) (rw (placed.1 prev h) e, ch.1, placed.0),
  λ g below. placed.1 g (omega arith),
)

insert_after-Placed :
    (fuel : ℕ) (l : Links) (frame prev : ℕ) (ys : List ℕ)
    → length ys < fuel
    → prev < frame
    → frame < usize_max
    → Above (suc prev) ys
    → Absent frame ys
    → Chain l (next_of l prev) ys
    → (l' : Links) × (insert_after fuel l frame prev ≡ some l') × Placed l l' frame prev ys
unfolding insert_after
insert_after-Placed zero l frame prev ys len h m s out ch = absurd (omega arith)
insert_after-Placed (suc fuel) l frame prev [] len h m s out ch =
    (_, rw (ch, insert_after) refl, place_last l frame prev h m)
insert_after-Placed (suc fuel) l frame prev (c ∷ ys) len h m s out ch =
    elim (Bool-cases (ltb frame c)) [
      | inl before ↦ (
        _,
        rw (ch.0, insert_after) (rw before refl),
        place_before l frame prev c ys h (ltb→lt frame c before) s.1 (refl, ch.1, ch.2),
      )
      | inr after ↦
          let (l', e, placed) =
            insert_after-Placed fuel l frame c ys (omega arith) (ground arith) m s.1 out.1 ch.2 in
          (
            l',
            rw (ch.0, insert_after) (rw (after) e),
            place_after l l' frame prev c ys s.0 (ground arith) (refl, ch.1, ch.2) ch.0 placed,
          )
    ]

owned_head : (a : FrameAllocator) (x : ℕ) (xs : List ℕ) → Owns a (x ∷ xs) → a.head ≡ some x
owned_head a x xs o = o.chain.0

-- Inserting a frame that is not in the free list, below the end marker, never runs out of fuel: the
-- free list afterwards is the ascending list with the frame at its place, counted.
pub insert_frame_sorted-Owns :
    (a : FrameAllocator) (frame : ℕ) (xs : List ℕ)
    → Owns a xs
    → frame < usize_max
    → Absent frame xs
    → (a' : FrameAllocator) × (insert_frame_sorted a frame ≡ some a')
      × Owns a' (insert frame xs)
      × (a'.page_size ≡ a.page_size)
unfolding insert_frame_sorted
insert_frame_sorted-Owns a frame [] o m out = (
  record a {
    links = write a.links frame usize_max;
    head = some frame;
    free_frames = a.free_frames + 1;
  },
  rw (o.chain, insert_frame_sorted) refl,
  record {
    chain = (refl, m, ground arith);
    sorted = (omega arith, tt);
    count = omega (arith, o.count);
  },
  refl,
)
insert_frame_sorted-Owns a frame (x ∷ xs) o m out = elim (Bool-cases (ltb frame x)) [
  | inl before ↦ (
    record a { links = write a.links frame x; head = some frame; free_frames = a.free_frames + 1 },
    rw (o.chain.0, insert_frame_sorted) (rw before refl),
    record {
      chain =
          let c = Chain-write a.links frame x a.head (x ∷ xs) out o.chain in
          rw before (refl, m, (ground arith, c.1, c.2));
      sorted = insert-Above 0 frame (x ∷ xs) (omega arith) out o.sorted;
      count = omega (arith, o.count, length-insert frame (x ∷ xs));
    },
    refl,
  )
  | inr after ↦
      let (l', e, placed) =
        insert_after-Placed (suc a.free_frames) a.links frame x xs (omega (arith, o.count))
          (ground arith) m o.sorted.1 out.1 o.chain.2 in
      (
        record a { links = l'; free_frames = a.free_frames + 1 },
        ground (arith, e),
        record {
          chain = rw after (o.chain.0, o.chain.1, placed.0);
          sorted = insert-Above 0 frame (x ∷ xs) (omega arith) out o.sorted;
          count = omega (arith, o.count, length-insert frame (x ∷ xs));
        },
        refl,
      )
]
