-- ===== src/Process.antt =====
-- `process` of src/process.cpp: debug registers and watchpoints, and the threads of the inferior.
pub mod DebugRegisters
pub mod Watchpoint
pub mod ReadString
pub mod Reply
pub mod Threads
mod Examples
