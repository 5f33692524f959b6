-- ===== src/Agent.antt =====
-- The agent thread, which serves one connection (pmd/pmdAgent.cpp).
pub mod Request
pub mod Query
pub mod Change
pub mod Loop
pub mod Room
pub mod Incoming
pub mod Serve
