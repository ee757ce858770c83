-- ===== src/Session.antt =====
-- src-tauri/src/session_runtime.rs: the receiver's session, from control and input frames to the
-- injector.
pub mod Types
pub mod Layout
pub mod Modifiers
pub mod Runtime
pub mod Input
pub mod Control
pub mod Histories
