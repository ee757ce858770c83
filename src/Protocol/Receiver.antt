-- ===== src/Protocol/Receiver.antt =====
-- `ReceiverHandshake` of src-tauri/src/protocol_v2.rs: the receiver's end of the control stream.
pub mod Trust
use mykvm.Base.{
  ℕ, Bool, true, false, not, ◌&&◌, ◌||◌, Option, none, some, String, string_beq, ◌==◌,
  if◌then◌else◌, Result, ok, err, ◌>>=◌,
}
use mykvm.Protocol.Types.{
  BootId, SessionId, DeviceRole, controller, receiver, ControlFrame, hello, prepare, ready, commit,
  commit_ack, end_session, ping, pong, reject, ProtocolError, invalid_transition, wrong_boot,
  wrong_session, wrong_role, session_beq,
}
use mykvm.Protocol.Validate.{validate_text, validate_frame, max_peer_id_bytes}

pub data ReceiverState : Type 0 where
  await_hello : ReceiverState
  idle : (controller_boot : BootId) → ReceiverState
  prepared : (controller_boot : BootId) (request_id : ℕ) → ReceiverState
  active : (session_id : SessionId) → ReceiverState
  ended : (session_id : SessionId) → ReceiverState

pub record ReceiverHandshake : Type 0 where
  pub trusted_peer_id : String
  pub local_boot : BootId
  pub state : ReceiverState

unfoldable pub new : String → BootId → Result ProtocolError ReceiverHandshake
new trusted_peer_id local_boot = do
  _ ← validate_text trusted_peer_id max_peer_id_bytes "peer_id"
  ok (record { trusted_peer_id = trusted_peer_id; local_boot = local_boot; state = await_hello })

abort_state : ReceiverState → SessionId → ReceiverHandshake → Result ProtocolError ReceiverHandshake
abort_state (active current) session_id h =
    if session_beq current session_id
    then ok (record h { state = ended session_id })
    else err wrong_session
abort_state _ session_id h = err wrong_session

unfoldable pub abort_active : ReceiverHandshake → SessionId → Result ProtocolError ReceiverHandshake
unfolding abort_state
abort_active h session_id = abort_state h.state session_id h

abbrev pub Reply : Type 0
Reply = ReceiverHandshake × Result ProtocolError (Option ControlFrame)

abbrev is_controller : DeviceRole → Bool
is_controller controller = true
is_controller receiver = false

-- The two arms that answer a `Prepare`.
abbrev prepare_for : ReceiverHandshake → BootId → ℕ → String → ℕ → Reply
prepare_for h controller_boot request_id target_display layout_revision = (
  record h { state = prepared controller_boot request_id },
  ok (some (ready request_id h.local_boot true target_display layout_revision)),
)

-- The arm for a `Commit`, `Ping` or `EndSession` that no arm above it takes.
abbrev stray : ReceiverHandshake → SessionId → Reply
stray h session_id =
    (h, err (if not (session_id.receiver_boot == h.local_boot) then wrong_boot else wrong_session))

abbrev commit_prepared : ReceiverHandshake → BootId → ℕ → ℕ → SessionId → Reply
commit_prepared h controller_boot request_id incoming session_id =
    if not (incoming == request_id)
    then (h, err invalid_transition)
    else if not (session_id.controller_boot == controller_boot)
        || not (session_id.receiver_boot == h.local_boot)
    then (h, err wrong_boot)
    else (record h { state = active session_id }, ok (some (commit_ack session_id)))

-- The `match` of `handle`.
dispatch : ReceiverState → ControlFrame → ReceiverHandshake → Reply
dispatch await_hello (hello boot_id peer_id role capabilities) h =
    if is_controller role && string_beq peer_id h.trusted_peer_id
    then (record h { state = idle boot_id }, ok none)
    else (h, err wrong_role)
dispatch await_hello _ h = (h, err invalid_transition)
dispatch (idle boot) (prepare request_id target_display layout_revision) h =
    prepare_for h boot request_id target_display layout_revision
dispatch (idle boot) (hello boot_id peer_id role capabilities) h =
    (h, err (if not (boot == boot_id) then wrong_boot else invalid_transition))
dispatch (prepared boot request_id) (commit incoming session_id) h =
    commit_prepared h boot request_id incoming session_id
dispatch (prepared boot request_id) (hello boot_id peer_id role capabilities) h =
    (h, err (if not (boot == boot_id) then wrong_boot else invalid_transition))
dispatch (active current) (commit request_id next) h =
    if session_beq current next then (h, ok (some (commit_ack current))) else stray h next
dispatch (active current) (end_session session_id reason) h =
    if session_beq current session_id
    then (record h { state = ended current }, ok none)
    else stray h session_id
dispatch (active current) (ping session_id sequence) h =
    if session_beq current session_id
    then (h, ok (some (pong current sequence 0)))
    else stray h session_id
dispatch (ended last) (end_session session_id reason) h =
    if session_beq last session_id then (h, ok none) else stray h session_id
dispatch (ended last) (prepare request_id target_display layout_revision) h =
    prepare_for h last.controller_boot request_id target_display layout_revision
dispatch _ (hello boot_id peer_id role capabilities) h = (h, err invalid_transition)
dispatch _ (commit request_id session_id) h = stray h session_id
dispatch _ (ping session_id sequence) h = stray h session_id
dispatch _ (end_session session_id reason) h = stray h session_id
dispatch _ _ h = (h, err invalid_transition)

unfoldable pub handle : ReceiverHandshake → ControlFrame → Reply
unfolding dispatch
handle h frame = elim (validate_frame frame) [
  | err e ↦ (h, err e)
  | ok _ ↦ dispatch h.state frame h
]
