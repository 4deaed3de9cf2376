-- ===== src/Fs.antt =====
-- kernel/src/fs: the readonly ramfs index, pathname resolution and the descriptor tables.
pub mod Bytes
pub mod Ramfs
pub mod Fd
pub mod Path
