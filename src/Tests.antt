-- ===== src/Tests.antt =====
-- Concrete data, and the theorems at it.
pub mod Fixtures
pub mod Storage
pub mod Records
pub mod Requests
pub mod Messages
pub mod Threads
pub mod Sockets
pub mod Exchange
pub mod Inserting
pub mod Typing
pub mod Loading
pub mod Serving
