-- ===== src/Transport/Registry.antt =====
-- `TrustedPeerRegistry` of src-tauri/src/quic_transport.rs. The base64 decoder is a parameter; no lock is poisoned.
pub mod Lookup
pub mod Trust
use mykvm.Base.{
  ℕ, Bool, true, false, ◌&&◌, ◌||◌, ◌==◌, Option, none, some, List, [], ◌∷◌, ◌++◌, String,
  string_beq, is_blank, is_nil, any, find, if◌then◌else◌, codes_beq, Result, ok, err,
}
use mykvm.Session.Types.{PeerRole, role_beq, AuthenticatedPeer, SocketAddr}

pub record TrustedPeer : Type 0 where
  pub peer_id : String
  pub certificate : String
  pub role : PeerRole
  pub trust_revision : ℕ

pub record DecodedTrustedPeer : Type 0 where
  pub peer_id : String
  pub certificate : List ℕ
  pub role : PeerRole
  pub trust_revision : ℕ

pub data RegistryError : Type 0 where
  missing_id_or_revision invalid_certificate empty_certificate not_unique not_trusted :
      RegistryError

abbrev pub Registry : Type 0
Registry = List DecodedTrustedPeer

abbrev pub decoded_peer : TrustedPeer → List ℕ → DecodedTrustedPeer
decoded_peer peer certificate = record {
  peer_id = peer.peer_id;
  certificate = certificate;
  role = peer.role;
  trust_revision = peer.trust_revision;
}

abbrev pub clashes : DecodedTrustedPeer → DecodedTrustedPeer → Bool
clashes peer existing =
    string_beq existing.peer_id peer.peer_id || codes_beq existing.certificate peer.certificate

module _ (base64_decode : String → Option (List ℕ)) where
  -- One round of the loop in `replace`.
  abbrev pub pushed : TrustedPeer → Option (List ℕ) → Registry → Result RegistryError Registry
  pushed peer none decoded = err invalid_certificate
  pushed peer (some certificate) decoded =
      if is_nil certificate
      then err empty_certificate
      else if any (clashes (decoded_peer peer certificate)) decoded
      then err not_unique
      else ok (decoded ++ (decoded_peer peer certificate ∷ []))

  unfoldable pub push_peer : TrustedPeer → Registry → Result RegistryError Registry
  push_peer peer decoded =
      if is_blank peer.peer_id || peer.trust_revision == 0
      then err missing_id_or_revision
      else pushed peer (base64_decode peer.certificate) decoded

  abbrev pub bound :
      Result RegistryError Registry
      → (Registry → Result RegistryError Registry)
      → Result RegistryError Registry
  bound (ok decoded) f = f decoded
  bound (err e) f = err e

  abbrev pub decode_all : List TrustedPeer → Registry → Result RegistryError Registry
  decode_all [] decoded = ok decoded
  decode_all (peer ∷ peers) decoded = bound (push_peer peer decoded) (decode_all peers)

  abbrev pub installed :
      Registry → Result RegistryError Registry → Registry × Result RegistryError (Unit {0})
  installed registry (ok decoded) = (decoded, ok tt)
  installed registry (err e) = (registry, err e)

  unfoldable pub replace : List TrustedPeer → Registry → Registry × Result RegistryError (Unit {0})
  replace peers registry = installed registry (decode_all peers [])

-- The peer whose connection presents a listed certificate.
unfoldable pub known_as : List ℕ → Registry → Option DecodedTrustedPeer
known_as certificate registry = find (λ p. codes_beq p.certificate certificate) registry

abbrev pub as_authenticated :
    (remote_addr : SocketAddr) (connection_generation : ℕ)
    → Option DecodedTrustedPeer
    → Option AuthenticatedPeer
as_authenticated remote_addr connection_generation none = none
as_authenticated remote_addr connection_generation (some p) = some (record {
  peer_id = p.peer_id;
  role = p.role;
  trust_revision = p.trust_revision;
  connection_generation = connection_generation;
  remote_addr = remote_addr;
})

unfoldable pub authenticate :
    (certificate : List ℕ) (remote_addr : SocketAddr) (connection_generation : ℕ)
    → Registry
    → Option AuthenticatedPeer
authenticate certificate remote_addr connection_generation registry =
    as_authenticated remote_addr connection_generation (known_as certificate registry)

abbrev pub trusted_or : Option DecodedTrustedPeer → Result RegistryError DecodedTrustedPeer
trusted_or none = err not_trusted
trusted_or (some p) = ok p

-- The part of `control_peer` that chooses the peer.
unfoldable pub control_peer : String → PeerRole → Registry → Result RegistryError DecodedTrustedPeer
control_peer peer_id role registry =
    trusted_or (find (λ p. string_beq p.peer_id peer_id && role_beq p.role role) registry)
