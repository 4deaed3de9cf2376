-- ===== src/Process/Table.antt =====
-- kernel/src/process/table.rs, state.rs, record.rs, resources.rs and files.rs, and the operations of
-- lifecycle.rs that hold the table's lock. A method on `&mut self` returns the new table; one that
-- panics has no table after it. A loaded image is a value of the parameter `Image`, which these
-- operations only move.
pub mod Lifecycle
use genrt.Prelude.{
  ℕ, zero, suc, ◌+◌, ◌-◌, ◌*◌, ◌/◌, ◌%◌, ◌^◌, ◌≤◌, ◌<◌, ◌≡◌, ◌≢◌, ◌⊎◌, ◌↔◌, min, max, inl, inr,
  refl, sym, ap, ◌∙◌, subst, Bool, true, false, not, ◌&&◌, ◌||◌, Bool-cases, Option, none, some,
  Option-cases, List, [], ◌∷◌, ◌++◌, map, reverse, arith, length, get_elem?, get_or, set, take,
  drop, replicate, Result, ok, err, ok_or, Result-cases, ok_then, ◌>>=◌, ◌>>◌, Fallible, returns,
  panics, length-set, length-append, length-take, length-drop, length-map, length-replicate,
  take-append-drop, get_elem?-set_self, get_elem?-set_ne, ltb, leb, ◌==◌, if◌then◌else◌, ltb→lt,
  lt→ltb, leb→le, ==_iff, usize_max, checked_add, checked_sub, saturating_add, checked_add-some,
}
use genrt.Sched.Ids.{CpuId, ThreadId, WaitToken, thread_eq}
use genrt.Fs.Fd.{FdTable}
use genrt.Fs.Fd
use genrt.Process.Id.{ProcessId, pid_eq, u32_max}

pub data ProcessState : Type 0 where
  free running zombie : ProcessState

pub data UserFaultKind : Type 0 where
  unknown_syscall : ℕ → UserFaultKind
  instruction_abort data_abort instruction_translation_fault data_translation_fault : UserFaultKind
  instruction_permission_fault data_permission_fault other_sync : UserFaultKind

pub record UserFault : Type 0 where
  pub kind : UserFaultKind

pub data ProcessExitStatus : Type 0 where
  exited : ℕ → ProcessExitStatus
  faulted : UserFault → ProcessExitStatus

pub data ProcessJoinError : Type 0 where
  invalid_process join_in_progress self_join scheduler_not_initialized : ProcessJoinError

-- The two cases of `ProcessError` that allocation returns.
pub data AllocateError : Type 0 where
  invalid_process no_process_slots : AllocateError

-- `AddressSpaceId`, which the owner of an address space carries.
pub record AddressSpaceId : Type 0 where
  pub root_pa : ℕ
  pub owner_cpu : CpuId

pub record ProcessImageResources (Image : Type 0) : Type 0 where
  pub address_space : Option AddressSpaceId
  pub user_image : Option Image

pub record ProcessFileState : Type 0 where
  pub fds : FdTable
  pub cwd_dir : Option ℕ

-- The two fields of its `ProcessResources` are fields here.
pub record Process (Image : Type 0) : Type 0 where
  pub state : ProcessState
  pub owner_cpu : Option CpuId
  pub pending_fork_cpu : Option CpuId
  pub image : ProcessImageResources Image
  pub files : ProcessFileState
  pub parent : Option ProcessId
  pub main_thread : Option ThreadId
  pub exit_status : Option ProcessExitStatus
  pub process_consumer : Option ThreadId
  pub waiter : Option WaitToken

pub record ProcessSlot (Image : Type 0) : Type 0 where
  pub generation : ℕ
  pub process : Process Image

pub record ProcessTable (Image : Type 0) : Type 0 where
  pub slots : List (ProcessSlot Image)
  pub thread_owners : List (Option ProcessId)

-- `generation.wrapping_add(1)`, with zero skipped.
pub next_generation : ℕ → ℕ
next_generation generation =
    let next : ℕ = (generation + 1) % (u32_max + 1) in if next == 0 then 1 else next

abbrev pub is : Option ThreadId → ThreadId → Bool
is none thread = false
is (some t) thread = thread_eq t thread

abbrev pub owned_by : Option ProcessId → ProcessId → Bool
owned_by none pid = false
owned_by (some p) pid = pid_eq p pid

pub close_files : ProcessFileState → ProcessFileState
close_files f = record { fds = Fd.close_all f.fds; cwd_dir = none }

module _ {Image : Type 0} where
  pub free_process : Process Image
  free_process = record {
    state = free;
    owner_cpu = none;
    pending_fork_cpu = none;
    image = record { address_space = none; user_image = none };
    files = record { fds = Fd.new; cwd_dir = none };
    parent = none;
    main_thread = none;
    exit_status = none;
    process_consumer = none;
    waiter = none;
  }

  pub running_process : Option ProcessId → FdTable → ℕ → CpuId → Process Image
  running_process parent fds cwd_dir owner_cpu = record {
    state = running;
    owner_cpu = some owner_cpu;
    pending_fork_cpu = none;
    image = record { address_space = none; user_image = none };
    files = record { fds = fds; cwd_dir = some cwd_dir };
    parent = parent;
    main_thread = none;
    exit_status = none;
    process_consumer = none;
    waiter = none;
  }

  pub is_free : Process Image → Bool
  is_free p = elim p.state [ free ↦ true | running ↦ false | zombie ↦ false ]

  -- `slot` and `slot_mut`.
  pub slot : ProcessTable Image → ProcessId → Option (ProcessSlot Image)
  unfolding is_free
  slot t pid = elim (get_elem? t.slots pid.index) [
    | none ↦ none
    | some s ↦ if s.generation == pid.generation && not (is_free s.process) then some s else none
  ]

  -- The write through `slot_mut`.
  pub write_slot : ProcessTable Image → ProcessId → ProcessSlot Image → ProcessTable Image
  write_slot t pid s = record t { slots = set t.slots pid.index s }

  pub process_for_thread : ProcessTable Image → ThreadId → Fallible (Option ProcessId)
  unfolding slot
  process_for_thread t thread = elim (get_elem? t.thread_owners thread.index) [
    | none ↦ returns none
    | some none ↦ returns none
    | some (some pid) ↦ elim (slot t pid) [
      | none ↦ panics
      | some s ↦ if is s.process.main_thread thread then returns (some pid) else panics
    ]
  ]

  pub unbind_main_thread : ProcessTable Image → ProcessId → Fallible (ProcessTable Image)
  unfolding slot
  unbind_main_thread t pid = elim (slot t pid) [
    | none ↦ panics
    | some s ↦ elim s.process.main_thread [
      | none ↦ panics
      | some thread ↦ elim (get_elem? t.thread_owners thread.index) [
        | none ↦ panics
        | some owner ↦
            if owned_by owner pid
            then returns (record t { thread_owners = set t.thread_owners thread.index none })
            else panics
      ]
    ]
  ]

  -- The slot is freed under the given generation.
  pub clear_slot : ProcessTable Image → ProcessId → ℕ → ProcessTable Image
  unfolding free_process
  clear_slot t pid generation = record t {
    slots = set t.slots pid.index (record { generation = generation; process = free_process });
  }

  pub release_slot : ProcessTable Image → ProcessId → ℕ → Fallible (ProcessTable Image)
  unfolding slot clear_slot
  release_slot t pid generation = elim (slot t pid) [
    | none ↦ panics
    | some s ↦ elim s.process.main_thread [
      | none ↦ returns (clear_slot t pid generation)
      | some thread ↦ elim (get_elem? t.thread_owners thread.index) [
        | none ↦ panics
        | some owner ↦
            if owned_by owner pid
            then returns (
                clear_slot (record t { thread_owners = set t.thread_owners thread.index none }) pid
                  generation)
            else returns (clear_slot t pid generation)
      ]
    ]
  ]

  pub first_free_slot : List (ProcessSlot Image) → Option ℕ
  unfolding is_free
  first_free_slot [] = none
  first_free_slot (s ∷ ss) =
      let rest : Option ℕ = elim (first_free_slot ss) [ none ↦ none | some i ↦ some (suc i) ] in
      if is_free s.process then some 0 else rest
