-- ===== src/Dwarf/Cfi.antt =====
-- Call frame information of src/dwarf.cpp: the encoded pointers, the entries of `.eh_frame`, the
-- search table of `.eh_frame_hdr`, the instructions that compute a row of the unwind table.
pub mod Pointer
pub mod Entries
pub mod Search
pub mod Found
pub mod Rules
pub mod Effects
pub mod Cache
pub mod Unwind
pub mod Examples
