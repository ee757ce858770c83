-- ===== src/Session/Types.antt =====
-- The errors, faults and state of src-tauri/src/session_runtime.rs, and the peer of a connection from
-- src-tauri/src/quic_transport.rs.
use mykvm.Base.{
  ℕ, Bool, true, false, ◌&&◌, ◌≡◌, ◌↔◌, Option, List, String, arith, ℤ, ℤ_beq, Eq, ◌==◌, string_beq,
  string_beq_iff,
}
use mykvm.Ports.{PortError}
use mykvm.Pressed.{PressedState}
use mykvm.Protocol.Types.{BootId, SessionId, MotionFrame, ProtocolError}
use mykvm.Protocol.Gate.{InputSessionGate}
use mykvm.Protocol.Receiver.{ReceiverHandshake}

pub data PeerRole : Type 0 where
  controller receiver : PeerRole

-- `std::net::SocketAddr`.
pub data SocketAddr : Type 0 where
  v4 : (ip port : ℕ) → SocketAddr
  v6 : (ip port flowinfo scope_id : ℕ) → SocketAddr

pub record AuthenticatedPeer : Type 0 where
  pub peer_id : String
  pub role : PeerRole
  pub trust_revision : ℕ
  pub connection_generation : ℕ
  pub remote_addr : SocketAddr

abbrev pub role_beq : PeerRole → PeerRole → Bool
role_beq controller controller = true
role_beq controller receiver = false
role_beq receiver controller = false
role_beq receiver receiver = true

abbrev addr_beq : SocketAddr → SocketAddr → Bool
addr_beq (v4 a p) (v4 b q) = a == b && p == q
addr_beq (v4 a p) (v6 b q f s) = false
addr_beq (v6 a p e r) (v4 b q) = false
addr_beq (v6 a p e r) (v6 b q f s) = a == b && p == q && e == f && r == s

addr_beq_iff : (a b : SocketAddr) → (addr_beq a b ≡ true) ↔ (a ≡ b)
addr_beq_iff a b = ground arith

abbrev pub peer_beq : AuthenticatedPeer → AuthenticatedPeer → Bool
peer_beq a b =
    string_beq a.peer_id b.peer_id
    && role_beq a.role b.role
    && a.trust_revision == b.trust_revision
    && a.connection_generation == b.connection_generation
    && addr_beq a.remote_addr b.remote_addr

pub peer_beq_iff : (a b : AuthenticatedPeer) → (peer_beq a b ≡ true) ↔ (a ≡ b)
peer_beq_iff a b =
    ground (arith, string_beq_iff a.peer_id b.peer_id, addr_beq_iff a.remote_addr b.remote_addr)

instance abbrev pub peer_eq : Eq AuthenticatedPeer
peer_eq = record { beq = peer_beq; beq_iff = peer_beq_iff }

pub data SessionRuntimeError : Type 0 where
  wrong_role wrong_connection : SessionRuntimeError
  protocol : ProtocolError → SessionRuntimeError
  injector : PortError → SessionRuntimeError

pub data SessionFault : Type 0 where
  injector release_failed : PortError → SessionFault
  lease_expired input_stream_closed layout_changed : SessionFault

pub data MotionDisposition : Type 0 where
  applied buffered stale : MotionDisposition

pub record ReceiverDisplayLayout : Type 0 where
  pub display_id : String
  pub layout_revision : ℕ
  pub logical_width : ℤ
  pub logical_height : ℤ
  pub native_x : ℤ
  pub native_y : ℤ
  pub native_width : ℤ
  pub native_height : ℤ

abbrev pub layout_beq : ReceiverDisplayLayout → ReceiverDisplayLayout → Bool
layout_beq a b =
    string_beq a.display_id b.display_id
    && a.layout_revision == b.layout_revision
    && ℤ_beq a.logical_width b.logical_width
    && ℤ_beq a.logical_height b.logical_height
    && ℤ_beq a.native_x b.native_x
    && ℤ_beq a.native_y b.native_y
    && ℤ_beq a.native_width b.native_width
    && ℤ_beq a.native_height b.native_height

pub record Runtime (I : Type 0) : Type 0 where
  pub local_boot : BootId
  pub binding : Option AuthenticatedPeer
  pub handshake : Option ReceiverHandshake
  pub input_gate : InputSessionGate
  pub active_session : Option SessionId
  pub highest_applied_sequence : ℕ
  pub highest_motion_sequence : ℕ
  pub pending_motion : Option MotionFrame
  pub display_layouts : List ReceiverDisplayLayout
  pub prepared_display : Option ReceiverDisplayLayout
  pub active_display : Option ReceiverDisplayLayout
  pub modifier_remap : Bool
  pub modifier_control : String
  pub modifier_alt : String
  pub modifier_meta : String
  pub last_activity_ms : Option ℕ
  pub last_fault : Option SessionFault
  pub pressed : PressedState
  pub injector : I
