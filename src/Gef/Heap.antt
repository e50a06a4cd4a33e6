-- ===== src/Gef/Heap.antt =====
-- The glibc heap in scripts/gef.py: `GefHeapManager`, `GlibcChunk`, `GlibcArena`, `GlibcHeapInfo`.
mod Tests
pub mod Manager
pub mod Chunk
pub mod Arena
pub mod Info
pub mod Sizes
pub mod Links
pub mod Walks
