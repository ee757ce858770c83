-- ===== src/Protocol/Types.antt =====
-- The identifiers, frames and errors of src-tauri/src/protocol_v2.rs.
-- A `[u8; 16]` or `[u8; 32]` is the number that its bytes spell, most significant first: that keeps
-- equality, order and the all-zero value. Fields of `u16`, `u32` and `u64` are plain numbers.
use mykvm.Base.{ℕ, Bool, true, ◌&&◌, ◌≡◌, ◌↔◌, List, String, arith, ℤ, Eq, ◌==◌}

pub data DeviceRole : Type 0 where
  controller receiver : DeviceRole

abbrev pub BootId : Type 0
BootId = ℕ

pub record SessionId : Type 0 where
  pub controller_boot : BootId
  pub receiver_boot : BootId
  pub nonce : ℕ

pub data CriticalButton : Type 0 where
  left right middle back forward : CriticalButton

pub data CriticalEvent : Type 0 where
  key : (key_code scan_code : ℕ) (extended down : Bool) → CriticalEvent
  button : (button : CriticalButton) (down : Bool) (x y : ℤ) (motion_sequence : ℕ) → CriticalEvent
  scroll : (delta_x delta_y x y : ℤ) (motion_sequence : ℕ) → CriticalEvent

pub record CriticalFrame : Type 0 where
  pub session_id : SessionId
  pub sequence : ℕ
  pub event : CriticalEvent

pub record MotionFrame : Type 0 where
  pub session_id : SessionId
  pub display_id : String
  pub layout_revision : ℕ
  pub sequence : ℕ
  pub required_reliable_sequence : ℕ
  pub x : ℤ
  pub y : ℤ

pub data ControlFrame : Type 0 where
  hello :
      (boot_id : BootId) (peer_id : String) (role : DeviceRole) (capabilities : List String)
      → ControlFrame
  prepare : (request_id : ℕ) (target_display : String) (layout_revision : ℕ) → ControlFrame
  ready :
      (request_id : ℕ) (receiver_boot : BootId) (input_ready : Bool) (target_display : String)
      (layout_revision : ℕ)
      → ControlFrame
  commit : (request_id : ℕ) (session_id : SessionId) → ControlFrame
  commit_ack : (session_id : SessionId) → ControlFrame
  end_session : (session_id : SessionId) (reason : String) → ControlFrame
  ping : (session_id : SessionId) (sequence : ℕ) → ControlFrame
  pong : (session_id : SessionId) (sequence highest_applied_sequence : ℕ) → ControlFrame
  reject : (code detail : String) → ControlFrame

pub data ProtocolError : Type 0 where
  frame_too_large : ℕ → ProtocolError
  invalid_length truncated decode invalid_magic : ProtocolError
  unsupported_major : ℕ → ProtocolError
  invalid_field : String → ProtocolError
  invalid_transition wrong_boot wrong_session wrong_role random_unavailable : ProtocolError

abbrev pub session_beq : SessionId → SessionId → Bool
session_beq a b =
    a.controller_boot == b.controller_boot
    && a.receiver_boot == b.receiver_boot
    && a.nonce == b.nonce

pub session_beq_iff : (a b : SessionId) → (session_beq a b ≡ true) ↔ (a ≡ b)
session_beq_iff a b = ground arith

instance abbrev pub session_eq : Eq SessionId
session_eq = record { beq = session_beq; beq_iff = session_beq_iff }
