-- ===== src/Clipboard.antt =====
-- Clipboard operations on their way: src-tauri/src/protocol_v2.rs, src-tauri/src/clipboard.rs and the stream handler of
-- src-tauri/src/lib.rs.
pub mod Frames
pub mod Receive
pub mod Wins
pub mod Kept
pub mod Winner
pub mod Clock
pub mod Delivery
pub mod Arrival
