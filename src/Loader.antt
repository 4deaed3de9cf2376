-- ===== src/Loader.antt =====
-- kernel/src/loader: user program images.
pub mod Elf
pub mod Load
