-- ===== src/Gef/Elf.antt =====
-- `class Elf` of scripts/gef.py.
mod Tests
pub mod Enums
pub mod Reader
pub mod Phdr
pub mod Shdr
pub mod Header
pub mod Encode
pub mod RoundTrip
pub mod HeaderRoundTrip
pub mod SectionRoundTrip
pub mod FileRoundTrip
