-- ===== src/Rtn.antt =====
-- The run-time layer over the index and the data file (rtn/).
pub mod Methods
pub mod Cells
pub mod Database
pub mod Update
pub mod Remove
pub mod Indexed
pub mod Loaded
pub mod Init
pub mod Restore
pub mod Fresh
