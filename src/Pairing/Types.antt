-- ===== src/Pairing/Types.antt =====
-- The data of pairing (src-tauri/src/lib.rs): of `LanPeer` and `LayoutState`, the fields that pairing reads or writes.
use mykvm.Base.{ℕ, String, List}

pub record LanPeer : Type 0 where
  pub id : String
  pub name : String
  pub machine_role : String
  pub host : String
  pub ip : String
  pub transport_public_key : String
  pub protocol_version : ℕ

pub record PairedController : Type 0 where
  pub id : String
  pub name : String
  pub host : String
  pub ip : String
  pub transport_public_key : String
  pub protocol_version : ℕ
  pub cluster_id : String
  pub paired_at_ms : ℕ

pub record TrustedPeerRecord : Type 0 where
  pub id : String
  pub transport_public_key : String
  pub role : String
  pub trust_revision : ℕ
  pub paired_at_ms : ℕ

pub record LayoutState : Type 0 where
  pub machine_role : String
  pub cluster_id : String
  pub pair_secret : String
  pub input_mode : String
  pub paired_controllers : List PairedController
  pub trusted_peers : List TrustedPeerRecord

-- `expires_at` is an `Instant`, in milliseconds.
pub record PairingChallenge : Type 0 where
  pub code : String
  pub requester_id : String
  pub requester_name : String
  pub requester_ip : String
  pub requester_host : String
  pub requester_public_key : String
  pub requester_protocol_version : ℕ
  pub expires_at : ℕ
  pub expires_at_ms : ℕ
  pub attempts : ℕ

pub data PairingError : Type 0 where
  missing_fields code_expired requester_mismatch wrong_code not_a_client : PairingError
  missing_identity invalid_role disk_failed : PairingError
