-- ===== src/Pairing/Trusted.antt =====
-- `upsert_trusted_peer` of src-tauri/src/lib.rs.
use Prim.Native.Nat.{max}
use mykvm.Base.{
  ℕ, not, ◌&&◌, ◌||◌, List, [], ◌∷◌, ◌++◌, String, string_beq, is_blank, trim, if◌then◌else◌,
  Result, ok, fail_if, ◌>>◌, saturating_add,
}
use mykvm.Pairing.Types.{TrustedPeerRecord, PairingError, missing_identity, invalid_role}

-- `iter().max().unwrap_or(0)` over the revisions.
abbrev pub last_revision : List TrustedPeerRecord → ℕ
last_revision [] = 0
last_revision (p ∷ ps) = max p.trust_revision (last_revision ps)

-- `retain(|peer| peer.id != id && peer.transport_public_key != certificate)`.
abbrev pub retained : (id certificate : String) → List TrustedPeerRecord → List TrustedPeerRecord
retained id certificate [] = []
retained id certificate (p ∷ ps) =
    let rest = retained id certificate ps in
    if not (string_beq p.id id) && not (string_beq p.transport_public_key certificate)
    then p ∷ rest
    else rest

abbrev pub new_record :
    List TrustedPeerRecord → (id certificate role : String) (paired_at_ms : ℕ) → TrustedPeerRecord
new_record peers id certificate role paired_at_ms = record {
  id = trim id;
  transport_public_key = trim certificate;
  role = role;
  trust_revision = max (saturating_add (last_revision peers) 1) 1;
  paired_at_ms = paired_at_ms;
}

unfoldable pub upsert_trusted_peer :
    List TrustedPeerRecord
    → (id certificate role : String) (paired_at_ms : ℕ)
    → Result PairingError (List TrustedPeerRecord)
upsert_trusted_peer peers id certificate role paired_at_ms = do
  fail_if (is_blank id || is_blank certificate) missing_identity
  fail_if (not (string_beq role "controller" || string_beq role "receiver")) invalid_role
  ok (retained id certificate peers ++ (new_record peers id certificate role paired_at_ms ∷ []))
