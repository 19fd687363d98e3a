-- ===== src/Stoppoints.antt =====
-- Stoppoints and the inferior's memory: src/breakpoint_site.cpp, the memory functions of
-- src/process.cpp, include/libgsdb/stoppoint_collection.hpp.
pub mod Kernel
pub mod Site
pub mod Collection
pub mod Memory
pub mod View
pub mod Transparent
pub mod Toggle
pub mod Examples
