-- ===== src/Ixm.antt =====
-- The index manager: include/ixm.hpp, ixm/ixm.cpp, include/dmsRID.hpp.
pub mod Bucket
pub mod Manager
pub mod Index
pub mod Operations
