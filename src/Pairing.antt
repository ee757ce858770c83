-- ===== src/Pairing.antt =====
-- Pairing with a code, in src-tauri/src/lib.rs: the challenge that a requester must answer, and the store of
-- trusted peers.
pub mod Types
pub mod Identity
pub mod Trusted
pub mod Challenge
pub mod Checks
pub mod Histories
pub mod Safety
pub mod Guesses
pub mod Refresh
pub mod Install
