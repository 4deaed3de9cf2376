-- ===== src/Loader/Load/Leak.antt =====
-- kernel/src/loader/elf.rs: no frame is lost in a load, whether it succeeds or not.
use genrt.Prelude.{
  ℕ, ◌+◌, ◌/◌, ◌<◌, ◌≡◌, inl, inr, refl, ap, ◌∙◌, Bool, true, false, ◌&&◌, ◌||◌, Bool-cases, Option,
  none, some, Option-cases, List, [], ◌∷◌, ◌++◌, arith, length, Result, ok, err, Result-cases, ◌==◌,
  if◌then◌else◌,
}
use genrt.Memory.Types.{AddrRange, page_size}
use genrt.Loader.Elf.{ElfLoadError, ProgramHeader, ElfFile, Placement, check_segment, check_file}
use genrt.Loader.Load.{
  UserElfSegment, UserElfImage, World, Kernel, Load, same_range, drop_range, free_contiguous_frames,
  filled_frames, map_segment, load_segment, load_header, load_headers, load_segments, is_none,
  free_loaded_segments, load_user_elf,
}

-- How often a range of frames is among those allocated.
pub held : AddrRange → List AddrRange → ℕ
held r [] = 0
held r (x ∷ xs) = (if same_range x r then 1 else 0) + held r xs

-- How often it backs a segment.
pub backing : AddrRange → List UserElfSegment → ℕ
backing r [] = 0
backing r (s ∷ ss) = (if same_range s.frames r then 1 else 0) + backing r ss

-- Some segment has the frames at address zero.
no_frames : List UserElfSegment → Bool
no_frames [] = false
no_frames (s ∷ ss) = s.frames.start == 0 || no_frames ss

-- The allocator never grants the frame at address zero, which stands for no frames.
abbrev pub NeverZero : Kernel → Type 0
NeverZero k =
    (w : World) (n : ℕ) (f : AddrRange) → k.alloc_contiguous_frames w n ≡ some f → 0 < f.start

drop_range-held :
    (r x : AddrRange) (xs : List AddrRange)
    → 0 < held x xs
    → held r (drop_range x xs) + (if same_range x r then 1 else 0) ≡ held r xs
unfolding drop_range held
drop_range-held r x [] h = absurd (omega arith)
drop_range-held r x (y ∷ ys) h = ground (arith, drop_range-held r x ys)

backing-append :
    (r : AddrRange) (ss : List UserElfSegment) (s : UserElfSegment)
    → backing r (ss ++ s ∷ []) ≡ backing r ss + (if same_range s.frames r then 1 else 0)
unfolding backing
backing-append r [] s = omega arith
backing-append r (t ∷ ts) s = omega (arith, backing-append r ts s)

-- All segments have frames, and those and the frames allocated before are all that are allocated.
record IsBalanced (w : World) (world : World) (segments : List UserElfSegment) : Type 0 where
  balanced : (r : AddrRange) → held r world.live ≡ held r w.live + backing r segments
  framed : no_frames segments ≡ false

free_loaded-held :
    (w world : World) (segments : List UserElfSegment)
    → IsBalanced w world segments
    → (r : AddrRange) → held r (free_loaded_segments world segments).live ≡ held r w.live
unfolding free_loaded_segments held backing no_frames free_contiguous_frames
free_loaded-held w world [] b r = b.balanced r ∙ omega arith
free_loaded-held w world (s ∷ ss) b r =
    let framed = b.framed in
    let own = b.balanced s.frames in
    let here : s.frames.start == 0 ≡ false = ground arith in
    rw (here, free_loaded_segments)
      (free_loaded-held w (free_contiguous_frames world s.frames) ss
        (record {
          balanced = λ q.
              let all = b.balanced q in
              let dropped = drop_range-held q s.frames world.live in ground arith;
          framed = ground arith;
        })
        r)

drop_first : (f : AddrRange) (fs : List AddrRange) → drop_range f (f ∷ fs) ≡ fs
unfolding drop_range
drop_first f fs = let same : same_range f f ≡ true = ground arith in rw same refl

no_frames-append :
    (ss : List UserElfSegment) (s : UserElfSegment)
    → no_frames ss ≡ false
    → 0 < s.frames.start
    → no_frames (ss ++ s ∷ []) ≡ false
unfolding no_frames
no_frames-append [] s h p = ground arith
no_frames-append (t ∷ ts) s h p = ground (arith, no_frames-append ts s)

abbrev BalancedLoad : World → Load → Type 0
BalancedLoad w l = IsBalanced w l.world l.segments

map_segment-IsBalanced :
    (k : Kernel) (image : List ℕ) (w : World) (l : Load) (p : Placement) (flags : ℕ)
    → NeverZero k
    → BalancedLoad w l
    → BalancedLoad w (map_segment k image l p flags)
unfolding map_segment held free_contiguous_frames
map_segment-IsBalanced k image w l p flags never b =
    elim (Option-cases (k.alloc_contiguous_frames l.world (p.map_size / page_size))) [
      | inl e ↦ simp (e, map_segment) b
      | inr (frames, e) ↦
          let taken : World = record l.world { live = frames ∷ l.world.live } in
          let segment : UserElfSegment = record {
            va = p.map_start;
            size = p.map_size;
            frames = frames;
            flags = flags;
          } in
          elim (Option-cases (k.map_user_page_range (filled_frames taken image p frames) segment)) [
            | inl z ↦
                simp (e, z, map_segment)
                  (record {
                    balanced = λ r.
                        let own = b.balanced r in
                        let more = backing-append r l.segments segment in omega arith;
                    framed = no_frames-append l.segments segment b.framed (never _ _ _ e);
                  })
            | inr (fault, z) ↦
                simp (e, z, map_segment)
                  (record {
                    balanced = λ r. ap (held r) (drop_first frames l.world.live) ∙ b.balanced r;
                    framed = b.framed;
                  })
          ]
    ]

load_segment-IsBalanced :
    (k : Kernel) (image : List ℕ) (w : World) (l : Load) (ph : ProgramHeader)
    → NeverZero k
    → BalancedLoad w l
    → BalancedLoad w (load_segment k image l ph)
unfolding load_segment
load_segment-IsBalanced k image w l ph never b =
    elim (Result-cases (check_segment (length image) ph)) [
      | inr (e, z) ↦ simp (z, load_segment) b
      | inl (o, z) ↦ elim (Option-cases o) [
        | inl y ↦ simp (z, y, load_segment) b
        | inr (p, y) ↦ simp (z, y, load_segment) (map_segment-IsBalanced k image w l p _ never b)
      ]
    ]

load_header-IsBalanced :
    (k : Kernel) (image : List ℕ) (w : World) (l : Load) (ph : ProgramHeader)
    → NeverZero k
    → BalancedLoad w l
    → BalancedLoad w (load_header k image l ph)
unfolding load_header
load_header-IsBalanced k image w l ph never b = elim (Bool-cases (ph.p_type == 1)) [
  | inl e ↦ simp e (load_segment-IsBalanced k image w l ph never b)
  | inr e ↦ elim (Bool-cases (ph.p_type == 2 || ph.p_type == 3 || ph.p_type == 7)) [
    | inl z ↦ simp (e, z) b
    | inr z ↦ simp (e, z) b
  ]
]

load_headers-IsBalanced :
    (k : Kernel) (image : List ℕ) (w : World) (phs : List ProgramHeader) (l : Load)
    → NeverZero k
    → BalancedLoad w l
    → BalancedLoad w (load_headers k image phs l)
unfolding load_headers
load_headers-IsBalanced k image w [] l never b = b
load_headers-IsBalanced k image w (ph ∷ phs) l never b =
    let next = load_header-IsBalanced k image w l ph never b in
    elim (Option-cases (load_header k image l ph).error) [
      | inl e ↦
          simp (e, load_headers)
            (load_headers-IsBalanced k image w phs (load_header k image l ph) never next)
      | inr (e', e) ↦ simp (e, load_headers) next
    ]

load_segments-IsBalanced :
    (can_reserve : ℕ → Bool) (k : Kernel) (image : List ℕ) (file : ElfFile) (w : World)
    → NeverZero k
    → BalancedLoad w (load_segments can_reserve k image file w)
unfolding load_segments backing no_frames
load_segments-IsBalanced can_reserve k image file w never =
    let start : IsBalanced w w [] = record { balanced = λ r. omega arith; framed = refl } in
    elim (Option-cases file.segments) [
      | inl e ↦ simp (e, load_segments) start
      | inr (phs, e) ↦ elim (Bool-cases (length phs == 0)) [
        | inl z ↦ simp (e, z, load_segments) start
        | inr z ↦ elim (Bool-cases (can_reserve (length phs))) [
          | inr y ↦ simp (e, z, y, load_segments) start
          | inl y ↦
              let l : Load =
                load_headers k image phs (record { world = w; segments = []; error = none }) in
              let b = load_headers-IsBalanced k image w phs _ never start in
              elim (Bool-cases (length l.segments == 0 && is_none l.error)) [
                | inl x ↦ simp (e, z, y, x, load_segments) b
                | inr x ↦ simp (e, z, y, x, load_segments) b
              ]
        ]
      ]
    ]

-- What a load leaves: where it succeeds, the frames of the image and those from before; where it
-- fails, those from before.
pub data Loaded (w : World) : World × Result UserElfImage ElfLoadError → Type 0 where
  loaded :
      {world : World} {image : UserElfImage}
      → ((r : AddrRange) → held r world.live ≡ held r w.live + backing r image.segments)
      → Loaded w (world, ok image)
  not_loaded :
      {world : World} (e : ElfLoadError)
      → ((r : AddrRange) → held r world.live ≡ held r w.live)
      → Loaded w (world, err e)

-- Where frame zero is never granted: a load that succeeds leaves the frames from before and those of
-- the image's segments allocated, and one that fails at any point those from before, no more and no
-- fewer.
pub load_user_elf-Loaded :
    (minimal_parse : List ℕ → Option ElfFile) (can_reserve : ℕ → Bool) (k : Kernel) (image : List ℕ)
    (w : World)
    → NeverZero k
    → Loaded w (load_user_elf minimal_parse can_reserve k image w)
unfolding load_user_elf
load_user_elf-Loaded minimal_parse can_reserve k image w never =
    elim (Option-cases (minimal_parse image)) [
      | inl e ↦ rw (e, load_user_elf) (not_loaded _ λ r. refl)
      | inr (file, e) ↦ elim (Result-cases (check_file file)) [
        | inr (fault, z) ↦ rw (e, z, load_user_elf) (not_loaded _ λ r. refl)
        | inl (entry, z) ↦
            let l : Load = load_segments can_reserve k image file w in
            let b = load_segments-IsBalanced can_reserve k image file w never in
            elim (Option-cases l.error) [
              | inl y ↦ rw (e, z, y, load_user_elf) (loaded b.balanced)
              | inr (fault, y) ↦
                  rw (e, z, y, load_user_elf)
                    (not_loaded fault (free_loaded-held w l.world l.segments b))
            ]
      ]
    ]
