-- ===== src/Dms.antt =====
-- The data file: include/dms.hpp, dms/dms.cpp.
pub mod Page
pub mod Layout
pub mod Models
pub mod Stores
pub mod Insert
pub mod Read
pub mod Drop
pub mod Rearrange
pub mod Overlap
pub mod File
pub mod Pages
pub mod Store
pub mod Operations
pub mod Segment
pub mod Extend
pub mod Grow
pub mod Faults
pub mod Load
pub mod Loaded
pub mod Twice
