-- ===== src/Msg.antt =====
-- The wire messages: include/msg.hpp, msg/msg.cpp.
pub mod Buffer
pub mod Build
pub mod Extract
pub mod Check
pub mod RoundTrip
pub mod Records
