-- ===== src/Ipc.antt =====
-- kernel/src/ipc.rs: bounded mailboxes between threads.
pub mod Mailbox
