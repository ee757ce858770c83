-- ===== src/Protocol/Controller.antt =====
-- `ControllerHandshake` of src-tauri/src/protocol_v2.rs: the controller's end of the control stream.
-- `SystemRandom::fill` is an argument: the nonce drawn, or `none` where no randomness is available.
pub mod Replies
use mykvm.Base.{
  ℕ, Bool, true, false, not, ◌&&◌, Option, none, some, List, [], ◌∷◌, String, string_beq, ◌==◌, ltb,
  leb, if◌then◌else◌, Result, ok, err, fail_if, ok_or, ◌>>=◌, ◌>>◌, checked_add,
}
use mykvm.Protocol.Types.{
  BootId, SessionId, controller, ControlFrame, hello, prepare, ready, commit, commit_ack,
  end_session, ping, pong, reject, ProtocolError, invalid_field, invalid_transition, wrong_session,
  random_unavailable, session_beq,
}
use mykvm.Protocol.Validate.{
  validate_text, validate_frame, max_peer_id_bytes, required_capabilities,
}

pub data ControllerState : Type 0 where
  idle : ControllerState
  await_ready : (request_id : ℕ) (target_display : String) (layout_revision : ℕ) → ControllerState
  prepared : (request_id : ℕ) (session_id : SessionId) → ControllerState
  await_commit_ack : (session_id : SessionId) → ControllerState
  active : (session_id : SessionId) → ControllerState
  ended : ControllerState

pub record ControllerHandshake : Type 0 where
  pub local_boot : BootId
  pub local_peer_id : String
  pub state : ControllerState
  pub ping_sequence : ℕ
  pub last_pong_sequence : ℕ
  pub highest_remote_applied : ℕ

unfoldable pub new : BootId → String → Result ProtocolError ControllerHandshake
new local_boot local_peer_id = do
  fail_if (local_boot == 0) (invalid_field "boot_id")
  validate_text local_peer_id max_peer_id_bytes "peer_id"
  ok (record {
    local_boot = local_boot;
    local_peer_id = local_peer_id;
    state = idle;
    ping_sequence = 0;
    last_pong_sequence = 0;
    highest_remote_applied = 0;
  })

abbrev pub may_begin : ControllerState → Bool
may_begin idle = true
may_begin ended = true
may_begin _ = false

abbrev pub hello_of : ControllerHandshake → ControlFrame
hello_of h = hello h.local_boot h.local_peer_id controller required_capabilities

unfoldable pub begin :
    ControllerHandshake
    → ℕ
    → String
    → ℕ
    → Result ProtocolError (ControllerHandshake × List ControlFrame)
begin h request_id target_display layout_revision = do
  fail_if (not (may_begin h.state)) invalid_transition
  validate_frame (prepare request_id target_display layout_revision)
  ok (
    record h { state = await_ready request_id target_display layout_revision },
    hello_of h ∷ prepare request_id target_display layout_revision ∷ [],
  )

-- `SessionId::generate`.
unfoldable pub generate : BootId → BootId → Option ℕ → Result ProtocolError SessionId
generate controller_boot receiver_boot random = do
  nonce ← ok_or random random_unavailable
  fail_if (nonce == 0) random_unavailable
  ok (record { controller_boot = controller_boot; receiver_boot = receiver_boot; nonce = nonce })

abbrev pub Reply : Type 0
Reply = ControllerHandshake × Result ProtocolError (Option ControlFrame)

ready_for : ControllerHandshake → ℕ → Result ProtocolError SessionId → Reply
ready_for h request_id (ok session_id) =
    (record h { state = prepared request_id session_id }, ok none)
ready_for h request_id (err e) = (h, err e)

-- The `match` of `handle`; its last argument is what `SystemRandom` gives if it is asked.
dispatch : ControllerState → ControlFrame → Option ℕ → ControllerHandshake → Reply
unfolding generate ready_for
dispatch _ (reject code detail) random h = (record h { state = ended }, err invalid_transition)
dispatch (await_ready request_id display revision) (ready received boot input_ready target layout)
      random h =
    if request_id == received
      && string_beq display target
      && revision == layout
      && not (boot == 0)
      && input_ready
    then ready_for h request_id (generate h.local_boot boot random)
    else (h, err wrong_session)
dispatch (await_commit_ack session_id) (commit_ack received) random h =
    if session_beq session_id received
    then (
      record h {
        state = active session_id;
        ping_sequence = 0;
        last_pong_sequence = 0;
        highest_remote_applied = 0;
      },
      ok none,
    )
    else (h, err wrong_session)
dispatch (active session_id) (pong received sequence highest) random h =
    if session_beq session_id received
      && ltb h.last_pong_sequence sequence
      && leb sequence h.ping_sequence
      && leb h.highest_remote_applied highest
    then (record h { last_pong_sequence = sequence; highest_remote_applied = highest }, ok none)
    else (h, err wrong_session)
dispatch _ _ random h = (h, err invalid_transition)

unfoldable pub handle : ControllerHandshake → ControlFrame → Option ℕ → Reply
unfolding dispatch
handle h frame random = elim (validate_frame frame) [
  | err e ↦ (h, err e)
  | ok _ ↦ dispatch h.state frame random h
]

abbrev pub session_of : ControllerState → Option SessionId
session_of (active session_id) = some session_id
session_of _ = none

unfoldable pub active_session : ControllerHandshake → Option SessionId
active_session h = session_of h.state

abbrev pub prepared_of : ControllerState → Option (ℕ × SessionId)
prepared_of (prepared request_id session_id) = some (request_id, session_id)
prepared_of _ = none

unfoldable pub prepared_session : ControllerHandshake → Option (ℕ × SessionId)
prepared_session h = prepared_of h.state

abbrev pub is_prepared : Option (ℕ × SessionId) → ℕ → SessionId → Bool
is_prepared none request_id session_id = false
is_prepared (some (r, s)) request_id session_id = r == request_id && session_beq s session_id

unfoldable pub commit_session :
    ControllerHandshake → ℕ → SessionId → Result ProtocolError (ControllerHandshake × ControlFrame)
unfolding prepared_session
commit_session h request_id session_id = do
  fail_if (not (is_prepared (prepared_session h) request_id session_id)) wrong_session
  ok (record h { state = await_commit_ack session_id }, commit request_id session_id)

unfoldable pub send_ping :
    ControllerHandshake → Result ProtocolError (ControllerHandshake × ControlFrame)
unfolding active_session
send_ping h = do
  session_id ← ok_or (active_session h) invalid_transition
  next ← ok_or (checked_add h.ping_sequence 1) (invalid_field "sequence")
  ok (record h { ping_sequence = next }, ping session_id next)

unfoldable pub abort : ControllerHandshake → ControllerHandshake
abort h = record h { state = ended }

unfoldable pub end :
    ControllerHandshake → String → Result ProtocolError (ControllerHandshake × ControlFrame)
unfolding active_session
end h reason = do
  session_id ← ok_or (active_session h) invalid_transition
  validate_frame (end_session session_id reason)
  ok (record h { state = ended }, end_session session_id reason)
