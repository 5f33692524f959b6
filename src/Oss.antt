-- ===== src/Oss.antt =====
-- The operating system's side: sockets and files (oss/).
pub mod Socket
pub mod Recv
pub mod Send
pub mod File
