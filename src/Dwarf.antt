-- ===== src/Dwarf.antt =====
-- The DWARF reader, dwarf.hpp and dwarf.cpp.
pub mod Form
pub mod Cursor
pub mod FilePath
pub mod LineTable
pub mod Expression
pub mod Cfi
pub mod Die
pub mod Examples
