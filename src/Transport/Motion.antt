-- ===== src/Transport/Motion.antt =====
-- The pointer motion of one peer in src-tauri/src/quic_transport.rs: `MotionSlot`, `MotionHandle::try_send`, its
-- `Drop`, `schedule_motion` and `flush_motion_nonblocking`. Any number of calls of `try_send` and the
-- transport's worker run at once: each access to the shared slot is one step, and the steps interleave
-- freely. No thread panics while it holds the lock of `latest`.
pub mod Shared
pub mod Invariant
pub mod Order
pub mod Histories
pub mod Settling
pub mod Outcomes
