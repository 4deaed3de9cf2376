-- ===== src/Process.antt =====
-- kernel/src/process: process identities and the process table.
pub mod Id
pub mod Table
