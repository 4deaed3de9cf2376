-- ===== src/Process/Table/Lifecycle/Exit.antt =====
-- Exit is recorded once, and the one consumer gets it.
use genrt.Prelude.{
  ℕ, ◌<◌, ◌≡◌, inl, inr, refl, ap, ◌∙◌, true, false, Option, none, some, Option-cases, arith,
  length, get_elem?, set, ok, returns, get_elem?-set_self, get_elem?-length,
}
use genrt.Sched.Ids.{ThreadId, WaitToken}
use genrt.Process.Id.{ProcessId}
use genrt.Process.Table.{
  ProcessSlot, ProcessTable, next_generation, is, slot, write_slot, is_free, release_slot,
  clear_slot, ProcessExitStatus, unbind_main_thread,
}
use genrt.Process.Table.Lifecycle.{finish_process, exit_slot, consume_process_for_join, taken_slot}
use genrt.Process.Table.Lifecycle.Stale.{slot-some}

module _ {Image : Type 0} where
  exit-live :
      (s : ProcessSlot Image) (status : ProcessExitStatus)
      → is_free (exit_slot s status).process ≡ false
  unfolding is_free exit_slot
  exit-live s status = refl

  slot_there :
      (t : ProcessTable Image) (pid : ProcessId) (s : ProcessSlot Image)
      → get_elem? t.slots pid.index ≡ some s
      → s.generation ≡ pid.generation
      → is_free s.process ≡ false
      → slot t pid ≡ some s
  unfolding slot
  slot_there t pid s at generation live = ground (arith, at, generation, live)

  slot-write_slot :
      (t : ProcessTable Image) (pid : ProcessId) (s s' : ProcessSlot Image)
      → slot t pid ≡ some s
      → s'.generation ≡ s.generation
      → is_free s'.process ≡ false
      → slot (write_slot t pid s') pid ≡ some s'
  unfolding write_slot
  slot-write_slot t pid s s' found generation live =
      let (at, same, _) = slot-some t pid s found in
      slot_there (write_slot t pid s') pid s'
        (get_elem?-set_self t.slots pid.index s' (get_elem?-length t.slots pid.index s at))
        (generation ∙ same) live

  -- A successful unbinding keeps the slots, and clears the owner of the slot's main thread.
  unbound :
      (t t' : ProcessTable Image) (pid : ProcessId) (s : ProcessSlot Image)
      → slot t pid ≡ some s
      → unbind_main_thread t pid ≡ returns t'
      → (thread : ThreadId) × (s.process.main_thread ≡ some thread)
        × (t'.slots ≡ t.slots)
        × (t'.thread_owners ≡ set t.thread_owners thread.index none)
        × (thread.index < length t.thread_owners)
  unfolding unbind_main_thread
  unbound t t' pid s found h = elim (Option-cases s.process.main_thread) [
    | inl e ↦ ground (arith, found, e)
    | inr (thread, e) ↦ elim (Option-cases (get_elem? t.thread_owners thread.index)) [
      | inl f ↦ ground (arith, found, e, f)
      | inr (owner, f) ↦ (
        thread,
        e,
        ground (arith, found, e, f),
        ground (arith, found, e, f),
        get_elem?-length t.thread_owners thread.index owner f,
      )
    ]
  ]

  finish_one :
      (t t1 : ProcessTable Image) (pid : ProcessId) (s : ProcessSlot Image)
      (status : ProcessExitStatus) (w : Option (Option WaitToken))
      → slot t pid ≡ some s
      → s.process.exit_status ≡ none
      → finish_process t pid status ≡ returns (t1, w)
      → (unbind_main_thread (write_slot t pid (exit_slot s status)) pid ≡ returns t1)
        × (w ≡ some s.process.waiter)
  unfolding finish_process
  finish_one t t1 pid s status w found fresh h = ground (arith, found, fresh, h)

  slot-slots :
      (t t' : ProcessTable Image) (pid : ProcessId) → t'.slots ≡ t.slots → slot t' pid ≡ slot t pid
  unfolding slot
  slot-slots t t' pid e = rw (e, slot) refl

  -- Releasing a slot whose thread has been unbound.
  release_unbound :
      (t : ProcessTable Image) (pid : ProcessId) (s : ProcessSlot Image) (thread : ThreadId) (g : ℕ)
      → slot t pid ≡ some s
      → s.process.main_thread ≡ some thread
      → get_elem? t.thread_owners thread.index ≡ some none
      → release_slot t pid g ≡ returns (clear_slot t pid g)
  unfolding release_slot
  release_unbound t pid s thread g found main owner = ground (arith, found, main, owner)

  taken-live :
      (s : ProcessSlot Image) → is_free s.process ≡ false → is_free (taken_slot s).process ≡ false
  unfolding taken_slot is_free
  taken-live s h = h

  owners :
      (t : ProcessTable Image) (pid : ProcessId) (s : ProcessSlot Image) (thread : ThreadId)
      → get_elem? t.thread_owners thread.index ≡ some none
      → get_elem? (write_slot t pid s).thread_owners thread.index ≡ some none
  unfolding write_slot
  owners t pid s thread h = h

  consume_exited :
      (t : ProcessTable Image) (pid : ProcessId) (s : ProcessSlot Image)
      (status : ProcessExitStatus) (caller thread : ThreadId)
      → slot t pid ≡ some s
      → is s.process.process_consumer caller ≡ true
      → s.process.exit_status ≡ some status
      → s.process.main_thread ≡ some thread
      → get_elem? t.thread_owners thread.index ≡ some none
      → (t2 : ProcessTable Image) × (consume_process_for_join t pid caller
          ≡ returns (t2, ok (record { status = status; image = s.process.image })))
  unfolding consume_process_for_join taken_slot
  consume_exited t pid s status caller thread found consumer exit main owner =
      let (at, same, live) = slot-some t pid s found in
      let there = slot-write_slot t pid s (taken_slot s) found refl (taken-live s live) in
      let released =
        release_unbound (write_slot t pid (taken_slot s)) pid (taken_slot s) thread
          (next_generation s.generation) there main (owners t pid (taken_slot s) thread owner) in
      (
        clear_slot (write_slot t pid (taken_slot s)) pid (next_generation s.generation),
        ground (arith, found, consumer, exit, released),
      )

  finish_again :
      (t : ProcessTable Image) (pid : ProcessId) (s : ProcessSlot Image)
      (status later : ProcessExitStatus)
      → slot t pid ≡ some s
      → s.process.exit_status ≡ some status
      → finish_process t pid later ≡ returns (t, some none)
  unfolding finish_process
  finish_again t pid s status later found exit = ground (arith, found, exit)

  -- Where a process that has not exited, and that a caller has claimed, is finished with a status:
  -- finishing it again changes nothing and answers no waiter, and the caller's consumption gets
  -- that status, with the image of the process, and does not panic.
  pub finish_process-consume :
      (t t1 : ProcessTable Image) (pid : ProcessId) (s : ProcessSlot Image)
      (status later : ProcessExitStatus) (caller : ThreadId) (w : Option (Option WaitToken))
      → slot t pid ≡ some s
      → s.process.exit_status ≡ none
      → is s.process.process_consumer caller ≡ true
      → finish_process t pid status ≡ returns (t1, w)
      → (w ≡ some s.process.waiter)
        × (finish_process t1 pid later ≡ returns (t1, some none))
        × ((t2 : ProcessTable Image) × (consume_process_for_join t1 pid caller
              ≡ returns (t2, ok (record { status = status; image = s.process.image }))))
  unfolding exit_slot
  finish_process-consume t t1 pid s status later caller w found fresh consumer finishes =
      let (unbinds, waiter) = finish_one t t1 pid s status w found fresh finishes in
      let (at, same, live) = slot-some t pid s found in
      let there = slot-write_slot t pid s (exit_slot s status) found refl (exit-live s status) in
      let (thread, main, slots, cleared, low) =
        unbound (write_slot t pid (exit_slot s status)) t1 pid (exit_slot s status) there unbinds in
      let there1 : slot t1 pid ≡ some (exit_slot s status) =
        slot-slots (write_slot t pid (exit_slot s status)) t1 pid slots ∙ there in
      let owner : get_elem? t1.thread_owners thread.index ≡ some none =
        ap (λ z. get_elem? z thread.index) cleared ∙ get_elem?-set_self _ thread.index none low in
      (
        waiter,
        finish_again t1 pid (exit_slot s status) status later there1 refl,
        consume_exited t1 pid (exit_slot s status) status caller thread there1 consumer refl main
            owner,
      )
