-- ===== src/Client.antt =====
-- The command line client (client/).
pub mod Command
pub mod Receive
pub mod Order
pub mod Query
pub mod Exchange
pub mod Inserted
pub mod Deleted
pub mod Shell
pub mod Words
pub mod Line
pub mod Prompt
