-- ===== src/Gef/Arch.antt =====
-- The architectures of scripts/gef.py: the classes derived from `Architecture`.
mod Tests
pub mod Instruction
pub mod Target
pub mod Attributes
pub mod Comparison
pub mod X86
pub mod Riscv
pub mod Arm
pub mod Aarch64
pub mod PowerPc
pub mod Sparc
pub mod Mips
