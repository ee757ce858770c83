-- ===== src/Protocol.antt =====
-- src-tauri/src/protocol_v2.rs: the V2 frames, their validation, the length-prefixed decoders, and
-- the state machines of the two ends of the control stream.
pub mod Types
pub mod Validate
pub mod Gate
pub mod Receiver
pub mod Controller
pub mod Handshake
pub mod Codec
pub mod Decoder
