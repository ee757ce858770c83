-- ===== src/Pairing/Identity.antt =====
-- Whether a requester looks like a controller that was paired before (src-tauri/src/lib.rs).
use mykvm.Base.{
  ℕ, Bool, not, ◌&&◌, ◌||◌, List, [], map, String, string_beq, is_blank, codes, codes_beq,
  trim_codes, split_codes, is_whitespace, ascii_lowercase, is_ascii_alphanumeric, if◌then◌else◌,
  is_nil, any, ◌==◌,
}
use mykvm.Pairing.Types.{LanPeer, PairedController, LayoutState}

-- A text's characters, trimmed and in lower case.
abbrev folded : List ℕ → List ℕ
folded s = map ascii_lowercase (trim_codes is_whitespace s)

unfoldable pub same_host : (value host : String) → Bool
same_host value host =
    let wanted = folded (codes host) in
    not (is_nil wanted)
    && any (λ part. codes_beq (folded part) wanted) (split_codes b'/' [] (codes value))

abbrev sanitized : ℕ → ℕ
sanitized c = if is_ascii_alphanumeric c then ascii_lowercase c else b'-'

abbrev sanitize_id : String → List ℕ
sanitize_id value =
    trim_codes (λ c. c == b'-') (map sanitized (trim_codes is_whitespace (codes value)))

unfoldable pub peer_device_id : LanPeer → List ℕ
peer_device_id peer =
    let id =
      sanitize_id (
        if is_blank peer.id
        then (if is_blank peer.name then peer.ip else peer.name)
        else peer.id) in
    if is_nil id then codes "peer-device" else id

unfoldable pub text_matches : String → String → Bool
text_matches left right =
    let l = trim_codes is_whitespace (codes left) in
    let r = trim_codes is_whitespace (codes right) in
    not (is_nil l) && not (is_nil r) && codes_beq (map ascii_lowercase l) (map ascii_lowercase r)

unfoldable pub paired_controller_identity_matches_peer : PairedController → LanPeer → Bool
paired_controller_identity_matches_peer controller peer =
    (not (is_blank peer.id) && string_beq controller.id peer.id)
    || codes_beq (codes controller.id) (peer_device_id peer)
    || (not (is_blank peer.transport_public_key)
        && string_beq controller.transport_public_key peer.transport_public_key)

unfoldable pub paired_controller_can_repair_with_peer : PairedController → LanPeer → Bool
paired_controller_can_repair_with_peer controller peer =
    paired_controller_identity_matches_peer controller peer
    || text_matches controller.name peer.name
    || same_host controller.host peer.host
    || same_host peer.host controller.host
    || text_matches controller.ip peer.ip

unfoldable pub pairing_required : LayoutState → Bool
pairing_required layout =
    string_beq layout.machine_role "client" && is_nil layout.paired_controllers
