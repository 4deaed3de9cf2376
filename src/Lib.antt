-- ===== src/Lib.antt =====
-- Verification of the core of the genrt kernel, a small real-time operating system in Rust.
--
-- The kernel hands out physical frames (kernel/src/memory), keeps one exact wait per thread
-- (kernel/src/sched/wait.rs), passes messages through bounded mailboxes that park threads on those
-- waits (kernel/src/ipc.rs), serves files from an index that is built once from the boot archive
-- (kernel/src/fs), and owns user processes in a table of generation-bearing slots
-- (kernel/src/process). Each of these parts is a tree of modules here. A module that stands for a
-- source file declares its state as records and its operations as functions under the source's
-- names; the modules below it hold the theorems, named for what they prove, and the runs on concrete
-- data (Examples).
--
--   Prelude            shared names, Boolean tests, lists over the native numbers, Result and panics,
--                      64-bit words, stable sorting, bit masks
--   Sched.Ids          ThreadId, CpuId, WaitToken of kernel/src/sched and kernel/src/cpu.rs
--   Sched.Wait         WaitMetadata: publish, commit, complete, cancel, finish
--   Memory.Types       address ranges and alignment of kernel/src/memory/types.rs
--   Memory.FrameAlloc  FrameAllocator of kernel/src/memory/frame_alloc.rs over a store of links
--   Memory.Map         kernel/src/memory/map.rs, and the start of init of kernel/src/memory/mod.rs
--   Memory.User        range validation and string copies of kernel/src/memory/user.rs
--   Fs.Bytes           byte strings with the slice comparison and searches that the sources use
--   Fs.Ramfs           MountedRamfs and its queries; Fs.Ramfs.Mounting its construction
--   Fs.Path            resolve_existing_path of kernel/src/fs/path.rs
--   Fs.Fd              FdTable of kernel/src/fs/fd.rs
--   Ipc.Mailbox        the ring and the waiter queues of kernel/src/ipc.rs under the mailbox lock;
--                      Ipc.Mailbox.Completing the loop that completes claimed waiters
--   Loader.Elf         the checks of kernel/src/loader/elf.rs and where a segment goes
--   Loader.Load        the load of the segments and its rollback
--   Process.Id         ProcessId and its raw form, kernel/src/process/id.rs
--   Process.Table      ProcessTable, Process and their parts; Process.Table.Lifecycle allocation,
--                      binding, exit, claim and consumption
--   Time.Event         TimedEvent and the order of the deadline entries, kernel/src/time.rs
--   Time.Queue         DeadlineQueue, a binary heap; Order, Up, Down, Place, Remove its repair, View the
--                      map of deadlines that it stands for, Refine the operations on that map
--   Time.Batch         ExpiredEvents, the buffer of one interrupt
--   Time.State         TimeState of one CPU, with the timers of all CPUs beside it, and the locked parts
--                      of the timer interrupt
--   Time.Convert       the conversions between the counter and civil time
--
-- How they meet: a mailbox queues the tokens of Sched.Ids, and its completion loop takes the
-- scheduler as a function from a token to a CompletionResult of Sched.Wait, and what other threads do
-- to the mailbox while its lock is free as another function. A descriptor table and
-- pathname resolution read an Option MountedRamfs, which is what the once-published global holds. A
-- process owns an FdTable, a main thread and the token of a waiting parent. A timed event carries a
-- wait's token or a thread; the interrupt takes the expired events before the scheduler sees them.
--
-- State and effects. A method on &mut self returns the new state. An operation that may panic
-- answers in Fallible, or in Run where its loops run on fuel: after a panic there is no state. Code
-- under a lock is one step; where the source releases the lock between two steps, they are two
-- functions here. Machine integers are natural numbers, and the wrapping, checked and saturating
-- operations of the source are written out at 64 bits for usize and u64 (AArch64) and at 32 bits for
-- generations. A slice that is filled with a count beside it is the list of its slots in use and its
-- number of slots. Whether the heap grants a reservation is the parameter can_reserve, a function of
-- the size asked for. A loaded image is a parameter type of the process table. The ELF parser, and
-- the answers of the frame allocator and of the mapper in a load, are parameters; so are the page
-- tables and the bytes of user memory.
--
-- Fuel. The loops of the frame allocator follow links in memory, so they run on fuel: one more than
-- the number of free frames for a walk, and one more than the bytes of a range for a loop over its
-- frames. The theorems on them prove that a result is returned from any allocator that owns its free
-- list. The deadline queue's loops run on fuel too: the place of the entry plus one upwards, the
-- number of entries plus one downwards and for the events of an interrupt; its theorems prove that a
-- value is reached. A string copy has the longest length plus two, since each chunk has at least one
-- byte; the sum of that length and one is taken without bound, since the callers pass 4096 or less
-- than the size of a user stack. The completion loop has two turns more than the waiters that are
-- queued or still join. A walk over user pages has the bytes of the range plus one. process_id_index_bits doubles a
-- capacity that starts at one, so the number of slots is enough. All other loops are structural.
--
-- Not modelled: the machine (page tables, context switch, interrupts, timers, drivers), the build
-- and test tools, console output and boot order; and, so far, the run queue and joins of the
-- scheduler, the table of the CPUs' time states, address spaces, block copies, system calls and the
-- profiling sessions. The atomic publication of the ramfs and the locks themselves are taken as the
-- source's comments describe them. Debug assertions are left out.
pub mod Prelude
pub mod Memory
pub mod Sched
pub mod Fs
pub mod Ipc
pub mod Process
pub mod Time
pub mod Loader
