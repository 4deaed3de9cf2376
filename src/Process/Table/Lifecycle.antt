-- ===== src/Process/Table/Lifecycle.antt =====
-- kernel/src/process/table.rs: allocation and binding; kernel/src/process/lifecycle.rs: exit, claim and
-- consumption; kernel/src/process/wait.rs: the locked part of waiting for a child.
pub mod Stale
pub mod Exit
mod Examples
use genrt.Prelude.{
  ℕ, zero, suc, ◌+◌, ◌-◌, ◌*◌, ◌/◌, ◌%◌, ◌^◌, ◌≤◌, ◌<◌, ◌≡◌, ◌≢◌, ◌⊎◌, ◌↔◌, min, max, inl, inr,
  refl, sym, ap, ◌∙◌, subst, Bool, true, false, not, ◌&&◌, ◌||◌, Bool-cases, Option, none, some,
  Option-cases, List, [], ◌∷◌, ◌++◌, map, reverse, arith, length, get_elem?, get_or, set, take,
  drop, replicate, Result, ok, err, ok_or, Result-cases, ok_then, ◌>>=◌, ◌>>◌, Fallible, returns,
  panics, length-set, length-append, length-take, length-drop, length-map, length-replicate,
  take-append-drop, get_elem?-set_self, get_elem?-set_ne, ltb, leb, ◌==◌, if◌then◌else◌, ltb→lt,
  lt→ltb, leb→le, ==_iff, usize_max, checked_add, checked_sub, saturating_add, checked_add-some,
}
use genrt.Sched.Ids.{CpuId, ThreadId, WaitToken, thread_eq}
use genrt.Fs.Fd.{FdTable}
use genrt.Process.Id.{ProcessId, pid_eq}
use genrt.Process.Table.{
  Process, ProcessSlot, ProcessTable, ProcessState, running, zombie, ProcessExitStatus, exited,
  faulted, ProcessJoinError, AllocateError, no_process_slots, invalid_process, join_in_progress,
  AddressSpaceId, ProcessImageResources, next_generation, is, owned_by, slot, write_slot,
  first_free_slot, running_process, unbind_main_thread, release_slot, close_files,
}

pub data ConsumeProcessError : Type 0 where
  would_block : ConsumeProcessError
  join : ProcessJoinError → ConsumeProcessError

pub record ReclaimedProcess (Image : Type 0) : Type 0 where
  pub status : ProcessExitStatus
  pub image : ProcessImageResources Image

-- The owner CPUs of a process, its thread and its address space agree.
pub same_owner : Option CpuId → CpuId → Option AddressSpaceId → AddressSpaceId → Bool
same_owner none home owned space = false
same_owner (some owner) home none space = false
same_owner (some owner) home (some owned) space =
    (owner == home && home == space.owner_cpu)
    && (owned.root_pa == space.root_pa && owned.owner_cpu == space.owner_cpu)

pub encode_wait_status : ProcessExitStatus → ℕ
encode_wait_status (exited code) = code % 2 ^ 8 * 2 ^ 8
encode_wait_status (faulted fault) = 0x7f

module _ {Image : Type 0} where
  -- `cwd_exists` is whether the index names a directory.
  pub allocate_process_slot :
      ProcessTable Image
      → Bool
      → Option ProcessId
      → FdTable
      → ℕ
      → CpuId
      → ProcessTable Image × Result ProcessId AllocateError
  allocate_process_slot t cwd_exists parent fds cwd_dir owner_cpu =
      if not cwd_exists then (t, err invalid_process) else elim (first_free_slot t.slots) [
        | none ↦ (t, err no_process_slots)
        | some index ↦ elim (get_elem? t.slots index) [
          | none ↦ (t, err no_process_slots)
          | some s ↦
              let generation : ℕ = next_generation s.generation in
              (
                record t {
                  slots = set t.slots index (record {
                    generation = generation;
                    process = running_process parent fds cwd_dir owner_cpu;
                  });
                },
                ok (record { index = index; generation = generation }),
              )
        ]
      ]

  pub bind_main_thread :
      ProcessTable Image
      → ProcessId
      → ThreadId
      → CpuId
      → AddressSpaceId
      → Fallible (ProcessTable Image)
  unfolding same_owner
  bind_main_thread t pid thread home_cpu space = elim (get_elem? t.thread_owners thread.index) [
    | none ↦ panics
    | some (some owner) ↦ panics
    | some none ↦ elim (slot t pid) [
      | none ↦ panics
      | some s ↦
          if same_owner s.process.owner_cpu home_cpu s.process.image.address_space space
          then elim s.process.main_thread [
            | some other ↦ panics
            | none ↦
                let bound : ProcessTable Image =
                  write_slot t pid
                    (record s { process = record s.process { main_thread = some thread } }) in
                returns
                  (record bound { thread_owners = set t.thread_owners thread.index (some pid) })
          ]
          else panics
    ]
  ]

  -- The slot after the exit of its process.
  pub exit_slot : ProcessSlot Image → ProcessExitStatus → ProcessSlot Image
  exit_slot s status = record s {
    process = record s.process {
      files = close_files s.process.files;
      state = zombie;
      exit_status = some status;
    };
  }

  pub finish_process :
      ProcessTable Image
      → ProcessId
      → ProcessExitStatus
      → Fallible (ProcessTable Image × Option (Option WaitToken))
  unfolding exit_slot
  finish_process t pid status = elim (slot t pid) [
    | none ↦ returns (t, none)
    | some s ↦ elim s.process.exit_status [
      | some earlier ↦ returns (t, some none)
      | none ↦ elim (unbind_main_thread (write_slot t pid (exit_slot s status)) pid) [
        | panics ↦ panics
        | returns t' ↦ returns (t', some s.process.waiter)
      ]
    ]
  ]

  pub claim_process_consumer :
      ProcessTable Image
      → ProcessId
      → ThreadId
      → ProcessTable Image × Result ThreadId ProcessJoinError
  claim_process_consumer t pid caller = elim (slot t pid) [
    | none ↦ (t, err invalid_process)
    | some s ↦ elim s.process.process_consumer [
      | some other ↦ (t, err join_in_progress)
      | none ↦ elim s.process.main_thread [
        | none ↦ (t, err invalid_process)
        | some thread ↦ (
          write_slot t pid
              (record s { process = record s.process { process_consumer = some caller } }),
          ok thread,
        )
      ]
    ]
  ]

  -- The slot after its exit status and its image are taken.
  pub taken_slot : ProcessSlot Image → ProcessSlot Image
  taken_slot s = record s {
    process = record s.process {
      exit_status = none;
      image = record { address_space = none; user_image = none };
    };
  }

  pub consume_process_for_join :
      ProcessTable Image
      → ProcessId
      → ThreadId
      → Fallible (ProcessTable Image × Result (ReclaimedProcess Image) ConsumeProcessError)
  unfolding taken_slot
  consume_process_for_join t pid caller = elim (slot t pid) [
    | none ↦ returns (t, err (join invalid_process))
    | some s ↦
        if is s.process.process_consumer caller
        then elim s.process.exit_status [
          | none ↦ returns (t, err would_block)
          | some status ↦
              elim (release_slot (write_slot t pid (taken_slot s)) pid
                (next_generation s.generation)) [
                  | panics ↦ panics
                  | returns t' ↦
                      returns (t', ok (record { status = status; image = s.process.image }))
                ]
        ]
        else returns (t, err (join join_in_progress))
  ]
