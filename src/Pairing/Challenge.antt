-- ===== src/Pairing/Challenge.antt =====
-- `begin_pairing_challenge`, `complete_pairing_from_confirm` and `dismiss_pairing_request` of src-tauri/src/lib.rs. The random
-- code, the clocks and what the disk answers are given with each call; no lock is poisoned.
use mykvm.Base.{
  ℕ, ◌+◌, Bool, true, false, not, ◌&&◌, ◌||◌, Option, some, none, List, [], ◌∷◌, String, string_beq,
  is_blank, trim, any, ltb, leb, if◌then◌else◌, Result, ok, err, saturating_add,
}
use mykvm.Pairing.Types.{
  LanPeer, LayoutState, PairingChallenge, PairingError, TrustedPeerRecord, code_expired,
  disk_failed, missing_fields, not_a_client, requester_mismatch, wrong_code,
}
use mykvm.Pairing.Identity.{pairing_required, paired_controller_can_repair_with_peer}
use mykvm.Pairing.Trusted.{upsert_trusted_peer}

abbrev pub pairing_code_ttl_ms : ℕ
pairing_code_ttl_ms = 60000

abbrev pub pairing_max_attempts : ℕ
pairing_max_attempts = 5

-- The monotonic clock, the wall clock and a random code.
pub record Moment : Type 0 where
  pub now : ℕ
  pub now_ms : ℕ
  pub random_pairing_code : String

abbrev pub new_challenge : Moment → LanPeer → String → PairingChallenge
new_challenge m requester requester_ip = record {
  code = m.random_pairing_code;
  requester_id = requester.id;
  requester_name = requester.name;
  requester_ip = requester_ip;
  requester_host = requester.host;
  requester_public_key = requester.transport_public_key;
  requester_protocol_version = requester.protocol_version;
  expires_at = m.now + pairing_code_ttl_ms;
  expires_at_ms = saturating_add m.now_ms pairing_code_ttl_ms;
  attempts = 0;
}

-- A fresh code where the old one was guessed at.
abbrev pub refreshed : Moment → PairingChallenge → PairingChallenge
refreshed m c =
    if ltb 0 c.attempts
    then record c {
      code = m.random_pairing_code;
      expires_at = m.now + pairing_code_ttl_ms;
      expires_at_ms = saturating_add m.now_ms pairing_code_ttl_ms;
      attempts = 0;
    }
    else c

abbrev pub asked_again : LanPeer → String → PairingChallenge → PairingChallenge
asked_again requester requester_ip c = record c {
  requester_ip = requester_ip;
  requester_host = requester.host;
  requester_public_key = requester.transport_public_key;
  requester_protocol_version = requester.protocol_version;
}

abbrev pub challenged :
    Moment → LanPeer → String → Option PairingChallenge → Option PairingChallenge × Bool
challenged m requester requester_ip none = (some (new_challenge m requester requester_ip), true)
challenged m requester requester_ip (some c) =
    if ltb m.now c.expires_at
    then (if string_beq c.requester_id requester.id
        then (some (asked_again requester requester_ip (refreshed m c)), true)
        else (some c, false))
    else (some (new_challenge m requester requester_ip), true)

abbrev pub accepts_request : LayoutState → LanPeer → Bool
accepts_request layout requester =
    string_beq layout.machine_role "client"
    && string_beq requester.machine_role "server"
    && (pairing_required layout
        || any (λ c. paired_controller_can_repair_with_peer c requester) layout.paired_controllers)

unfoldable pub begin_pairing_challenge :
    Moment
    → LayoutState
    → LanPeer
    → String
    → Option PairingChallenge
    → Option PairingChallenge × Bool
begin_pairing_challenge m layout requester requester_ip challenge =
    if accepts_request layout requester
    then challenged m requester requester_ip challenge
    else (challenge, false)

-- What a confirmation carries; an absent text is empty.
pub record Confirmation : Type 0 where
  pub requester : LanPeer
  pub code : String
  pub cluster_id : String
  pub pair_secret : String

abbrev pub saturating_add_u8 : ℕ → ℕ
saturating_add_u8 n = if ltb n 255 then n + 1 else 255

abbrev pub missed : PairingChallenge → Option PairingChallenge
missed c =
    let attempts = saturating_add_u8 c.attempts in
    if leb pairing_max_attempts attempts then none else some (record c { attempts = attempts })

-- The first part of `complete_pairing_from_confirm`, under the challenge's lock.
unfoldable pub check_code :
    (now : ℕ)
    → Confirmation
    → Option PairingChallenge
    → Option PairingChallenge × Result PairingError (Unit {0})
check_code now d none = (none, err code_expired)
check_code now d (some c) =
    if leb c.expires_at now
    then (none, err code_expired)
    else if not (string_beq c.requester_id d.requester.id)
        || (not (is_blank c.requester_public_key)
            && not (string_beq c.requester_public_key d.requester.transport_public_key))
    then (some c, err requester_mismatch)
    else if not (string_beq c.code (trim d.code))
    then (missed c, err wrong_code)
    else (none, ok tt)

abbrev pub paired_layout : Moment → Confirmation → LayoutState → LayoutState
paired_layout m d layout = record layout {
  cluster_id = trim d.cluster_id;
  pair_secret = trim d.pair_secret;
  input_mode = "receive";
  paired_controllers =
      record {
        id = d.requester.id;
        name = d.requester.name;
        host = d.requester.host;
        ip = d.requester.ip;
        transport_public_key = d.requester.transport_public_key;
        protocol_version = d.requester.protocol_version;
        cluster_id = trim d.cluster_id;
        paired_at_ms = m.now_ms;
      }
      ∷ [];
}

-- Its second part, under the layout's lock, with what `write_layout_to_disk` answers at the end.
abbrev pub stored_layout :
    LayoutState
    → (disk : Bool) → Result PairingError (List TrustedPeerRecord)
    → LayoutState × Result PairingError (Unit {0})
stored_layout layout disk (err e) = (layout, err e)
stored_layout layout disk (ok peers) =
    (record layout { trusted_peers = peers }, if disk then ok tt else err disk_failed)

unfoldable pub accept_controller :
    Moment
    → (disk : Bool) → Confirmation
    → LayoutState
    → LayoutState × Result PairingError (Unit {0})
accept_controller m disk d layout =
    let paired = paired_layout m d layout in
    if not (string_beq layout.machine_role "client")
    then (layout, err not_a_client)
    else stored_layout paired disk (
        upsert_trusted_peer paired.trusted_peers d.requester.id d.requester.transport_public_key
          "controller" m.now_ms)

pub record Desk : Type 0 where
  pub challenge : Option PairingChallenge
  pub layout : LayoutState

abbrev pub after_check :
    Moment
    → (disk : Bool) → Confirmation
    → LayoutState
    → Option PairingChallenge × Result PairingError (Unit {0})
    → Desk × Result PairingError (Unit {0})
after_check m disk d layout (challenge, err e) =
    (record { challenge = challenge; layout = layout }, err e)
after_check m disk d layout (challenge, ok u) =
    let r = accept_controller m disk d layout in
    (record { challenge = challenge; layout = r.0 }, r.1)

unfoldable pub complete_pairing_from_confirm :
    Moment → (disk : Bool) → Confirmation → Desk → Desk × Result PairingError (Unit {0})
complete_pairing_from_confirm m disk d desk =
    if is_blank d.code || is_blank d.cluster_id || is_blank d.pair_secret
    then (desk, err missing_fields)
    else after_check m disk d desk.layout (check_code m.now d desk.challenge)
