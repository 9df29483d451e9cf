-- ===== src/Memory.antt =====
-- KluxOS/src/kernel/mm: the frame bitmap and the kernel heap of memory.c, and the page tables of
-- memory_ext.c. The three parts keep states of their own.
pub mod Frames
pub mod Heap
pub mod Paging
pub mod Setup
mod Tests
