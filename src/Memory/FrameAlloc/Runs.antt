-- ===== src/Memory/FrameAlloc/Runs.antt =====
-- The search of `alloc_contiguous_aligned` for a run of free frames.
use mathlib.Core.List.{append-nil, append_assoc}
use genrt.Prelude.{
  ℕ, zero, suc, ◌+◌, ◌*◌, ◌<◌, ◌≡◌, refl, ap, sym, ◌∙◌, subst, ==_iff, ◌==◌, inl, inr, Bool-cases,
  Option, none, some, true, List, [], ◌∷◌, ◌++◌, arith, length, if◌then◌else◌,
}
use genrt.Memory.FrameAlloc.{
  Links, next_of, Scan, is_aligned, contiguous, restart, grow, visit, advance, Found, not_found,
  found, scan,
}
use genrt.Memory.FrameAlloc.Chain.{Chain, Chain-head, last_or, head?}
use genrt.Memory.FrameAlloc.Pages.{pages, last_or-snoc, pages-grow, pages-last}

-- The frames `run` at the end of those visited are the pages of a run, or there is none.
pub data IsRun (page align : ℕ) (pre run : List ℕ) (s : Scan) : Type 0 where
  idle : run ≡ [] → s.run_start ≡ none → s.run_len ≡ 0 → IsRun page align pre run s
  running :
      (st k : ℕ)
      → run ≡ pages page st (suc k)
      → s.run_start ≡ some st
      → s.run_end ≡ some (st + k * page)
      → s.run_len ≡ suc k
      → s.candidate_prev ≡ last_or none pre
      → is_aligned align st ≡ true
      → IsRun page align pre run s

pub record IsScan (page align : ℕ) (pre run : List ℕ) (s : Scan) : Type 0 where
  pub seen : s.prev ≡ last_or none (pre ++ run)
  pub same : s.previous_frame ≡ s.prev
  pub run_ok : IsRun page align pre run s

-- What one round adds to the frames seen.
record Visited (page align : ℕ) (all : List ℕ) (frame : ℕ) (s : Scan) : Type 0 where
  pre : List ℕ
  run : List ℕ
  whole : pre ++ run ≡ all ++ frame ∷ []
  run_ok : IsRun page align pre run s

grow-idle :
    (page align : ℕ) (all : List ℕ) (frame : ℕ) (s : Scan)
    → s.prev ≡ last_or none all
    → s.run_start ≡ none
    → s.run_len ≡ 0
    → Visited page align all frame (grow align frame s s.run_start)
grow-idle page align all frame s seen start len =
    simp start (elim (Bool-cases (is_aligned align frame)) [
      | inl aligned ↦ record {
        pre = all;
        run = frame ∷ [];
        whole = refl;
        run_ok = rw aligned (running frame 0 refl refl (ap some (omega arith)) refl seen aligned);
      }
      | inr crooked ↦ record {
        pre = all ++ frame ∷ [];
        run = [];
        whole = append-nil _;
        run_ok = rw crooked (idle refl start len);
      }
    ])

grow-running :
    (page align : ℕ) (pre run : List ℕ) (frame st k : ℕ) (s : Scan)
    → run ≡ pages page st (suc k)
    → s.run_start ≡ some st
    → s.run_len ≡ suc k
    → s.candidate_prev ≡ last_or none pre
    → is_aligned align st ≡ true
    → frame ≡ st + k * page + page
    → Visited page align (pre ++ run) frame (grow align frame s s.run_start)
grow-running page align pre run frame st k s e start len cand aligned next = simp start (record {
  pre = pre;
  run = run ++ frame ∷ [];
  whole = sym (append_assoc pre run _);
  run_ok =
      running st (suc k) (rw (e, next) (grown)) refl (ap some (rw next (omega arith)))
        (omega (arith, len)) cand aligned;
})
  where
    grown : pages page st (suc k) ++ (st + k * page + page) ∷ [] ≡ pages page st (suc (suc k))
    grown =
        let shift : st + suc k * page ≡ st + k * page + page = omega arith in
        rw (← shift) (pages-grow page st k)

contiguous_next :
    (page frame x : ℕ) (p : Option ℕ)
    → contiguous page p frame ≡ true
    → p ≡ some x
    → frame ≡ x + page
contiguous_next page frame x p h e = ground arith

visit_run :
    (page align : ℕ) (pre run : List ℕ) (frame : ℕ) (s : Scan)
    → contiguous page s.previous_frame frame ≡ true
    → s.prev ≡ last_or none (pre ++ run)
    → s.previous_frame ≡ s.prev
    → IsRun page align pre run s
    → Visited page align (pre ++ run) frame (grow align frame s s.run_start)
visit_run page align pre run frame s c seen same (idle e start len) =
    grow-idle page align (pre ++ run) frame s seen start len
visit_run page align pre run frame s c seen same (running st k e start end len cand aligned) =
    grow-running page align pre run frame st k s e start len cand aligned (
      contiguous_next page frame (st + k * page) s.previous_frame c
        (same ∙ seen ∙ ap (λ r. last_or none (pre ++ r)) e ∙ pages-last pre page st k))

visit-Visited :
    (page align : ℕ) (pre run : List ℕ) (frame : ℕ) (s : Scan)
    → IsScan page align pre run s
    → Visited page align (pre ++ run) frame (visit page align frame s)
unfolding visit
visit-Visited page align pre run frame s v =
    elim (Bool-cases (contiguous page s.previous_frame frame)) [
      | inl c ↦ rw c (visit_run page align pre run frame s c v.seen v.same v.run_ok)
      | inr c ↦ rw c (grow-idle page align (pre ++ run) frame (restart s) v.seen refl refl)
    ]

-- What the search answers on the frames `all`: nothing, or a run that `rest` follows.
pub data Searched (page align frames : ℕ) (all : List ℕ) (r : Found) : Type 0 where
  nothing : r ≡ not_found → Searched page align frames all r
  a_run :
      (pre run rest : List ℕ) (s : Scan)
      → r ≡ found s (head? rest)
      → all ≡ (pre ++ run) ++ rest
      → IsRun page align pre run s
      → s.run_len ≡ frames
      → Searched page align frames all r

advance-IsRun :
    (page align : ℕ) (pre run : List ℕ) (f : ℕ) (s : Scan)
    → IsRun page align pre run s
    → IsRun page align pre run (advance f s)
advance-IsRun page align pre run f s (idle e start len) = idle e start len
advance-IsRun page align pre run f s (running st k e start end len cand aligned) =
    running st k e start end len cand aligned

Visited-IsScan :
    (page align : ℕ) (all : List ℕ) (f : ℕ) (s : Scan) (w : Visited page align all f s)
    → IsScan page align w.pre w.run (advance f s)
Visited-IsScan page align all f s w = record {
  seen = sym (ap (last_or none) w.whole ∙ last_or-snoc none all f);
  same = refl;
  run_ok = advance-IsRun page align w.pre w.run f s w.run_ok;
}

regroup :
    (page align : ℕ) (all : List ℕ) (f : ℕ) (s : Scan) (w : Visited page align all f s)
    (rest : List ℕ)
    → (w.pre ++ w.run) ++ rest ≡ all ++ f ∷ rest
regroup page align all f s w rest = ap (λ r. r ++ rest) w.whole ∙ append_assoc all (f ∷ []) rest

Searched-step :
    (page align frames : ℕ) (all : List ℕ) (f : ℕ) (s : Scan) (w : Visited page align all f s)
    (rest : List ℕ) (next : Option ℕ) (later : Found)
    → next ≡ head? rest
    → Searched page align frames ((w.pre ++ w.run) ++ rest) later
    → Searched page align frames
        (all ++ f ∷ rest)
        (if s.run_len == frames then found s next else later)
Searched-step page align frames all f s w rest next later e r =
    elim (Bool-cases (s.run_len == frames)) [
      | inl hit ↦ rw hit (
          a_run w.pre w.run rest s (ap (found s) e) (sym (regroup page align all f s w rest))
            w.run_ok ((==_iff s.run_len frames).0 hit))
      | inr miss ↦
          rw miss (
            subst (λ xs. Searched page align frames xs later) (regroup page align all f s w rest) r)
    ]

pub scan-Searched :
    (fuel page align frames : ℕ) (l : Links) (s : Scan) (h : Option ℕ) (pre run rest : List ℕ)
    → length rest < fuel
    → Chain l h rest
    → IsScan page align pre run s
    → Searched page align frames ((pre ++ run) ++ rest) (scan fuel page align frames l s h)
unfolding scan
scan-Searched zero page align frames l s h pre run rest len c v = absurd (omega arith)
scan-Searched (suc fuel) page align frames l s h pre run [] len c v = rw c (nothing refl)
scan-Searched (suc fuel) page align frames l s h pre run (f ∷ rest) len c v =
    let w = visit-Visited page align pre run f s v in
    rw (c.0, scan)
      (Searched-step page align frames (pre ++ run) f (visit page align f s) w rest (next_of l f) _
        (Chain-head l (next_of l f) rest c.2)
        (scan-Searched fuel page align frames l (advance f (visit page align f s)) (next_of l f)
          w.pre w.run rest (omega arith) c.2
          (Visited-IsScan page align (pre ++ run) f (visit page align f s) w)))
