-- ===== src/Routing.antt =====
-- src-tauri/src/routing.rs: who has the physical keyboard and mouse, and the hand-over between them.
-- The gate that hooks and hotkeys share with the router is its one atomic `u64`.
pub mod Gate
pub mod Types
pub mod Router
pub mod Order
