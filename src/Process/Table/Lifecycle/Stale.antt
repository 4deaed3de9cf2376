-- ===== src/Process/Table/Lifecycle/Stale.antt =====
-- A process identity stops naming anything once its process is consumed, and stays so when the slot is
-- used again.
use genrt.Prelude.{
  ℕ, zero, suc, ◌≤◌, ◌<◌, ◌≡◌, ◌≢◌, inl, inr, refl, sym, ap, ◌∙◌, true, false, Bool-cases, Option,
  none, some, Option-cases, List, [], ◌∷◌, arith, length, get_elem?, set, ok, returns, length-set,
  get_elem?-set_self, get_elem?-set_ne, ◌==◌, ==_iff, get_elem?-length,
}
use genrt.Sched.Ids.{CpuId, ThreadId}
use genrt.Fs.Fd.{FdTable}
use genrt.Process.Id.{ProcessId, u32_max}
use genrt.Process.Table.{
  Process, ProcessSlot, ProcessTable, next_generation, slot, write_slot, is_free, free_process,
  first_free_slot, running_process, release_slot, clear_slot,
}
use genrt.Process.Table.Lifecycle.{
  allocate_process_slot, consume_process_for_join, taken_slot, ReclaimedProcess,
}

next_generation-twice : (g : ℕ) → g ≤ u32_max → next_generation (next_generation g) ≢ g
unfolding next_generation
next_generation-twice g h e = ground (arith, e)

module _ {Image : Type 0} where
  -- What it takes for an identity to name a slot.
  pub slot-some :
      (t : ProcessTable Image) (pid : ProcessId) (s : ProcessSlot Image)
      → slot t pid ≡ some s
      → (get_elem? t.slots pid.index ≡ some s)
        × (s.generation ≡ pid.generation)
        × (is_free s.process ≡ false)
  unfolding slot
  slot-some t pid s h = ground arith

  release_slot-slots :
      (t t' : ProcessTable Image) (pid : ProcessId) (generation : ℕ)
      → release_slot t pid generation ≡ returns t'
      → t'.slots
        ≡ set t.slots pid.index (record { generation = generation; process = free_process })
  unfolding release_slot clear_slot
  release_slot-slots t t' pid generation h = ground arith

  set-set :
      (xs : List (ProcessSlot Image)) (i : ℕ) (u v : ProcessSlot Image)
      → set (set xs i u) i v ≡ set xs i v
  set-set [] i u v = refl
  set-set (x ∷ xs) zero u v = refl
  set-set (x ∷ xs) (suc i) u v = ap (λ z. x ∷ z) (set-set xs i u v)

  consume_one :
      (t t' : ProcessTable Image) (pid : ProcessId) (caller : ThreadId) (r : ReclaimedProcess Image)
      → consume_process_for_join t pid caller ≡ returns (t', ok r)
      → (s : ProcessSlot Image) × (slot t pid ≡ some s)
        × (release_slot (write_slot t pid (taken_slot s)) pid (next_generation s.generation)
            ≡ returns t')
        × (s.process.exit_status ≡ some r.status)
  unfolding consume_process_for_join
  consume_one t t' pid caller r h = elim (Option-cases (slot t pid)) [
    | inl e ↦ ground arith
    | inr (s, e) ↦ (s, e, ground (arith, h), ground (arith, h))
  ]

  written :
      (t : ProcessTable Image) (pid : ProcessId) (s s' : ProcessSlot Image)
      → get_elem? t.slots pid.index ≡ some s
      → pid.index < length (write_slot t pid s').slots
  unfolding write_slot
  written t pid s s' e =
      omega (arith, length-set t.slots pid.index s', get_elem?-length t.slots pid.index s e)

  abbrev cleared : ℕ → ProcessSlot Image
  cleared generation = record { generation = generation; process = free_process }

  -- What consumption leaves in the table.
  pub consumed :
      (t t' : ProcessTable Image) (pid : ProcessId) (caller : ThreadId) (r : ReclaimedProcess Image)
      → consume_process_for_join t pid caller ≡ returns (t', ok r)
      → get_elem? t'.slots pid.index ≡ some (cleared (next_generation pid.generation))
  consumed t t' pid caller r h =
      let (s, found, released, status) = consume_one t t' pid caller r h in
      let (at, generation, live) = slot-some t pid s found in
      let slots = release_slot-slots _ t' pid (next_generation s.generation) released in
      let low : pid.index < length (write_slot t pid (taken_slot s)).slots =
        written t pid s (taken_slot s) at in
      ap (λ z. get_elem? z pid.index) slots
      ∙ get_elem?-set_self _ pid.index (cleared (next_generation s.generation)) low
      ∙ ap (λ g. some (cleared (next_generation g))) generation

  cleared_is_stale :
      (t : ProcessTable Image) (pid : ProcessId) (g : ℕ)
      → get_elem? t.slots pid.index ≡ some (cleared g)
      → slot t pid ≡ none
  unfolding slot is_free free_process
  cleared_is_stale t pid g e = ground (arith, e)

  -- What allocation leaves in the table.
  allocated :
      (t t' : ProcessTable Image) (parent : Option ProcessId) (fds : FdTable) (cwd : ℕ)
      (cpu : CpuId) (pid : ProcessId)
      → allocate_process_slot t true parent fds cwd cpu ≡ (t', ok pid)
      → (s : ProcessSlot Image) × (get_elem? t.slots pid.index ≡ some s)
        × (pid.generation ≡ next_generation s.generation)
        × (t'.slots
            ≡ set t.slots pid.index (record {
              generation = pid.generation;
              process = running_process parent fds cwd cpu;
            }))
  unfolding allocate_process_slot
  allocated t t' parent fds cwd cpu pid h = elim (Option-cases (first_free_slot t.slots)) [
    | inl e ↦ ground arith
    | inr (i, e) ↦ elim (Option-cases (get_elem? t.slots i)) [
      | inl f ↦ ground arith
      | inr (s, f) ↦ (s, ground arith, ground arith, ground arith)
    ]
  ]

  -- The slot of one identity after the slot of another is filled.
  reused :
      (t t' : ProcessTable Image) (pid pid' : ProcessId) (g : ℕ) (p : Process Image)
      → get_elem? t.slots pid.index ≡ some (cleared g)
      → t'.slots ≡ set t.slots pid'.index (record { generation = pid'.generation; process = p })
      → ((pid'.index ≡ pid.index) → pid'.generation ≢ pid.generation)
      → slot t' pid ≡ none
  unfolding slot is_free free_process
  reused t t' pid pid' g p at slots differs = elim (Bool-cases (pid'.index == pid.index)) [
    | inl e ↦
        let same : pid'.index ≡ pid.index = (==_iff pid'.index pid.index).0 e in
        let new : get_elem? t'.slots pid.index
            ≡ some (record { generation = pid'.generation; process = p }) =
          ap (λ z. get_elem? z pid.index) slots
          ∙ ap
              (λ i.
                get_elem? (set t.slots i (record { generation = pid'.generation; process = p }))
                  pid.index)
              same
          ∙ get_elem?-set_self t.slots pid.index _
              (get_elem?-length t.slots pid.index (cleared g) at) in
        ground (arith, new, differs same)
    | inr e ↦
        let other : pid'.index ≢ pid.index = λ same. ground (arith, same) in
        let old : get_elem? t'.slots pid.index ≡ some (cleared g) =
          ap (λ z. get_elem? z pid.index) slots
          ∙ get_elem?-set_ne t.slots (record { generation = pid'.generation; process = p }) other
          ∙ at in
        ground (arith, old)
  ]

  -- Where an identity's process is consumed, the identity names no process in the table that is
  -- left, nor after the next allocation, whose identity is another one.
  pub consume-allocate :
      (t t' t'' : ProcessTable Image) (pid pid' : ProcessId) (caller : ThreadId)
      (r : ReclaimedProcess Image) (parent : Option ProcessId) (fds : FdTable) (cwd : ℕ)
      (cpu : CpuId)
      → pid.generation ≤ u32_max
      → consume_process_for_join t pid caller ≡ returns (t', ok r)
      → allocate_process_slot t' true parent fds cwd cpu ≡ (t'', ok pid')
      → (slot t' pid ≡ none) × (slot t'' pid ≡ none) × (pid' ≢ pid)
  consume-allocate t t' t'' pid pid' caller r parent fds cwd cpu bound consumes allocates =
      let at = consumed t t' pid caller r consumes in
      let (s, there, generation, slots) = allocated t' t'' parent fds cwd cpu pid' allocates in
      let differs : (pid'.index ≡ pid.index) → pid'.generation ≢ pid.generation = λ same e.
        next_generation-twice pid.generation bound (
          sym (
            again t' s pid.index (next_generation pid.generation) at
              (ap (λ i. get_elem? t'.slots i) (sym same) ∙ there))
          ∙ sym generation
          ∙ e) in
      (
        cleared_is_stale t' pid (next_generation pid.generation) at,
        reused t' t'' pid pid' (next_generation pid.generation) _ at slots differs,
        λ e. differs (ap (λ z. z.index) e) (ap (λ z. z.generation) e),
      )
    where
      again :
          (t : ProcessTable Image) (s : ProcessSlot Image) (i g : ℕ)
          → get_elem? t.slots i ≡ some (cleared g)
          → get_elem? t.slots i ≡ some s
          → next_generation s.generation ≡ next_generation g
      again t s i g a b = ground arith
