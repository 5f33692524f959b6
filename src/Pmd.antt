-- ===== src/Pmd.antt =====
-- The threads of the server, by their control blocks ("EDUs"), and their manager (pmd/).
pub mod Edu
pub mod Manager
pub mod Start
pub mod Service
pub mod Invariant
pub mod Keeps
pub mod Steps
pub mod Life
pub mod Own
pub mod Cycle
pub mod Wire
pub mod Proxy
pub mod Waits
pub mod Proxied
pub mod Listener
pub mod Accepting
pub mod Kernel
pub mod Shutdown
pub mod Between
pub mod Drain
pub mod Drained
pub mod Stuck
