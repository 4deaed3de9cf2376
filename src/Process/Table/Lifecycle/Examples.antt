-- ===== src/Process/Table/Lifecycle/Examples.antt =====
-- A table of two slots with one process, which exits and is consumed.
use genrt.Prelude.{ℕ, ◌≡◌, ◌≢◌, refl, true, none, some, [], ◌∷◌, arith, ok, returns}
use genrt.Sched.Ids.{ThreadId, thread_eq}
use genrt.Fs.Fd.{FdTable}
use genrt.Process.Id.{ProcessId, pid_eq}
use genrt.Process.Table.{
  Process, ProcessSlot, ProcessTable, next_generation, slot, write_slot, is_free, free_process,
  first_free_slot, running_process, release_slot, clear_slot, exited, faulted, data_abort, zombie,
  unbind_main_thread, close_files, is,
}
use genrt.Process.Table.Lifecycle.{
  finish_process, exit_slot, consume_process_for_join, taken_slot, allocate_process_slot,
}
use genrt.Process.Table.Lifecycle.Stale.{consume-allocate}
use genrt.Process.Table.Lifecycle.Exit.{finish_process-consume}

abbrev pid : ProcessId
pid = record { index = 0; generation = 7 }

abbrev main : ThreadId
main = record { index = 1; generation = 2 }

abbrev joiner : ThreadId
joiner = record { index = 0; generation = 1 }

abbrev fds : FdTable
fds = record { entries = [] }

-- Images are numbers here.
abbrev live : Process ℕ
live = record (running_process none fds 0 0) {
  main_thread = some main;
  process_consumer = some joiner;
}

abbrev unused : ProcessSlot ℕ
unused = record { generation = 0; process = free_process }

abbrev before : ProcessTable ℕ
before = record {
  slots = record { generation = 7; process = live } ∷ unused ∷ [];
  thread_owners = none ∷ some pid ∷ [];
}

abbrev dead : Process ℕ
dead = record live { state = zombie; exit_status = some (exited 3); files = close_files live.files }

abbrev after : ProcessTable ℕ
after = record {
  slots = record { generation = 7; process = dead } ∷ unused ∷ [];
  thread_owners = none ∷ none ∷ [];
}

found : slot before pid ≡ some (record { generation = 7; process = live })
unfolding slot is_free running_process
found = refl

fresh : live.exit_status ≡ none
unfolding running_process
fresh = refl

finishes : finish_process before pid (exited 3) ≡ returns (after, some none)
unfolding finish_process exit_slot slot is_free running_process unbind_main_thread write_slot pid_eq
finishes = refl

claimed : is live.process_consumer joiner ≡ true
unfolding thread_eq running_process
claimed = refl

finish_process-consume_example :
    (some none ≡ some live.waiter)
    × (finish_process after pid (faulted (record { kind = data_abort }))
        ≡ returns (after, some none))
    × ((t2 : ProcessTable ℕ) × (consume_process_for_join after pid joiner
          ≡ returns (t2, ok (record { status = exited 3; image = live.image }))))
finish_process-consume_example =
    finish_process-consume before after pid (record { generation = 7; process = live }) (exited 3)
      (faulted (record { kind = data_abort })) joiner (some none) found fresh claimed finishes

abbrev consumed : ProcessTable ℕ
consumed = record {
  slots = record { generation = 8; process = free_process } ∷ unused ∷ [];
  thread_owners = none ∷ none ∷ [];
}

consumes :
    consume_process_for_join after pid joiner
    ≡ returns (consumed, ok (record { status = exited 3; image = live.image }))
unfolding consume_process_for_join taken_slot slot is_free release_slot clear_slot write_slot
    next_generation free_process thread_eq
consumes = refl

abbrev second : ProcessId
second = record { index = 0; generation = 9 }

abbrev reused : ProcessTable ℕ
reused = record {
  slots = record { generation = 9; process = running_process none fds 0 0 } ∷ unused ∷ [];
  thread_owners = none ∷ none ∷ [];
}

allocates : allocate_process_slot consumed true none fds 0 0 ≡ (reused, ok second)
unfolding allocate_process_slot first_free_slot is_free free_process next_generation
allocates = refl

consume-allocate_example : (slot consumed pid ≡ none) × (slot reused pid ≡ none) × (second ≢ pid)
consume-allocate_example =
    consume-allocate after consumed reused pid second joiner
      (record { status = exited 3; image = live.image }) none fds 0 0 (omega arith) consumes
      allocates
