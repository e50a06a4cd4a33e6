-- ===== src/Gef.antt =====
-- scripts/gef.py, the debugger script that .gdbinit loads: its parts that compute.
mod Tests
pub mod Elf
pub mod Pack
pub mod Permission
pub mod Address
pub mod Section
pub mod Heap
pub mod HeapAnalysis
pub mod Arch
pub mod Settings
