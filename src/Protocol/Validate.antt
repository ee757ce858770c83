-- ===== src/Protocol/Validate.antt =====
-- The `validate_*` functions of src-tauri/src/protocol_v2.rs: what is refused before any state
-- machine sees a frame.
use Prim.Native.String.{len}
use mykvm.Base.{
  ℕ, not, ◌&&◌, ◌||◌, List, [], ◌∷◌, String, ◌==◌, ltb, if◌then◌else◌, Result, ok, err, fail_if,
  ◌>>◌, is_blank, string_beq, length, any, all, pos, ℤ_beq,
}
use mykvm.Protocol.Types.{
  SessionId, CriticalEvent, CriticalFrame, MotionFrame, ControlFrame, ProtocolError, invalid_field,
}

abbrev pub max_peer_id_bytes : ℕ
max_peer_id_bytes = 256

abbrev pub max_capabilities : ℕ
max_capabilities = 32

abbrev pub max_capability_bytes : ℕ
max_capability_bytes = 64

abbrev pub max_detail_bytes : ℕ
max_detail_bytes = 512

abbrev pub required_capabilities : List String
required_capabilities = "control_v2" ∷ "input_v2" ∷ []

abbrev pub Checked : Type 0
Checked = Result ProtocolError (Unit {0})

unfoldable pub validate_text : String → ℕ → String → Checked
validate_text value limit field =
    fail_if (is_blank value || ltb limit (len value)) (invalid_field field)

unfoldable pub validate_session : SessionId → Checked
validate_session s =
    fail_if (s.controller_boot == 0 || s.receiver_boot == 0 || s.nonce == 0)
      (invalid_field "session_id")

validate_event : CriticalEvent → Checked
validate_event (CriticalEvent.key key_code scan_code extended down) =
    fail_if (key_code == 0 && scan_code == 0) (invalid_field "key_code")
validate_event (CriticalEvent.button b down x y motion_sequence) =
    fail_if (motion_sequence == 0) (invalid_field "motion_sequence")
validate_event (CriticalEvent.scroll delta_x delta_y x y motion_sequence) =
    if motion_sequence == 0
    then err (invalid_field "motion_sequence")
    else fail_if (ℤ_beq delta_x (pos 0) && ℤ_beq delta_y (pos 0)) (invalid_field "scroll_delta")

unfoldable pub validate_critical : CriticalFrame → Checked
unfolding validate_event validate_session
validate_critical frame = do
  validate_session frame.session_id
  fail_if (frame.sequence == 0) (invalid_field "sequence")
  validate_event frame.event

unfoldable pub validate_motion : MotionFrame → Checked
unfolding validate_text validate_session
validate_motion frame = do
  validate_session frame.session_id
  validate_text frame.display_id max_peer_id_bytes "display_id"
  fail_if (frame.layout_revision == 0) (invalid_field "layout_revision")
  fail_if (frame.sequence == 0) (invalid_field "motion_sequence")

-- The `for` loop over the capabilities.
validate_capabilities : List String → Checked
unfolding validate_text
validate_capabilities [] = ok tt
validate_capabilities (c ∷ cs) = do
  validate_text c max_capability_bytes "capability"
  validate_capabilities cs

validate_target : ℕ → String → ℕ → Checked
unfolding validate_text
validate_target request_id target_display layout_revision = do
  fail_if (request_id == 0) (invalid_field "request_id")
  validate_text target_display max_peer_id_bytes "target_display"
  fail_if (layout_revision == 0) (invalid_field "layout_revision")

unfoldable pub validate_frame : ControlFrame → Checked
unfolding validate_text validate_session validate_capabilities validate_target
validate_frame (ControlFrame.hello boot_id peer_id role capabilities) = do
  validate_text peer_id max_peer_id_bytes "peer_id"
  fail_if (ltb max_capabilities (length capabilities)) (invalid_field "capabilities")
  validate_capabilities capabilities
  fail_if (not (all (λ r. any (λ v. string_beq v r) capabilities) required_capabilities))
      (invalid_field "capabilities")
validate_frame (ControlFrame.prepare request_id target_display layout_revision) =
    validate_target request_id target_display layout_revision
validate_frame (ControlFrame.ready request_id receiver_boot input_ready target_display revision) =
    validate_target request_id target_display revision
validate_frame (ControlFrame.commit request_id session_id) = do
  fail_if (request_id == 0) (invalid_field "request_id")
  validate_session session_id
validate_frame (ControlFrame.commit_ack session_id) = validate_session session_id
validate_frame (ControlFrame.end_session session_id reason) = do
  validate_session session_id
  validate_text reason max_detail_bytes "reason"
validate_frame (ControlFrame.ping session_id sequence) = validate_session session_id
validate_frame (ControlFrame.pong session_id sequence highest) = validate_session session_id
validate_frame (ControlFrame.reject code detail) = do
  validate_text code max_capability_bytes "code"
  validate_text detail max_detail_bytes "detail"
