-- ===== src/Memory.antt =====
-- kernel/src/memory: address ranges, the physical frame allocator and the boot memory map.
pub mod Types
pub mod FrameAlloc
pub mod Map
pub mod User
