-- ===== src/Transport.antt =====
-- src-tauri/src/quic_transport.rs: what the threads of the transport share.
pub mod Motion
pub mod Budget
pub mod Registry
