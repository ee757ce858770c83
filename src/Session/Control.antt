-- ===== src/Session/Control.antt =====
-- The control side of `ReceiverSessionRuntime` in src-tauri/src/session_runtime.rs: control frames,
-- changed displays, the lease and the end of the input stream.
pub mod Invariant
pub mod Lease
pub mod Frames
use mykvm.Base.{
  ℕ, ◌-◌, Bool, true, false, not, ◌&&◌, ◌||◌, Option, none, some, List, [], ◌∷◌, String, ◌==◌, ltb,
  leb, if◌then◌else◌, Result, ok, err, map_err, option_beq, string_beq, any, find, is_some,
}
use mykvm.Ports.{PortError, InjectorPort}
use mykvm.Pressed
use mykvm.Protocol.Types.{
  BootId, SessionId, DeviceRole, ControlFrame, ProtocolError, invalid_field, invalid_transition,
  wrong_session, session_beq, session_eq,
}
use mykvm.Protocol.Gate
use mykvm.Protocol.Receiver
use mykvm.Protocol.Receiver.{ReceiverHandshake}
use mykvm.Session.Types.{
  PeerRole, AuthenticatedPeer, role_beq, peer_eq, SessionRuntimeError, wrong_role, wrong_connection,
  protocol, SessionFault, lease_expired, input_stream_closed, layout_changed, ReceiverDisplayLayout,
  layout_beq, Runtime,
}
use mykvm.Session.Runtime.{
  M, pure, ◌>>=◌, ◌>>◌, modify, fail_when, lift, bound_to, reset_motion, drop_session,
  release_pressed, input_lease_timeout_ms,
}

abbrev is_none {ℓ} : {A : Type ℓ} → Option A → Bool
is_none o = not (is_some o)

abbrev is_commit : ControlFrame → Bool
is_commit (ControlFrame.commit request_id session_id) = true
is_commit _ = false

abbrev keeps_alive : ControlFrame → Bool
keeps_alive (ControlFrame.ping session_id sequence) = true
keeps_alive (ControlFrame.commit request_id session_id) = true
keeps_alive _ = false

-- The handshake of a connection that says hello, and its reply.
greet :
    BootId
    → AuthenticatedPeer
    → ControlFrame
    → Result ProtocolError (ReceiverHandshake × Option ControlFrame)
greet boot peer frame = elim (Receiver.new peer.peer_id boot) [
  | err e ↦ err e
  | ok h ↦
      let reply = Receiver.handle h frame in
      elim reply.1 [ err e ↦ err e | ok response ↦ ok (reply.0, response) ]
]

module _ {I : Type 0} (port : InjectorPort I) where
  -- The arm for a controller's `Hello`.
  hello_arm : ControlFrame → String → AuthenticatedPeer → M I (Option ControlFrame)
  unfolding greet
  hello_arm frame peer_id peer = do
    fail_when (λ r. not (string_beq peer_id peer.peer_id)) wrong_connection
    fail_when (λ r. is_some r.active_session) wrong_connection
    release_pressed port
    greeted ← lift (λ r. map_err protocol (greet r.local_boot peer frame))
    modify (λ r. record (reset_motion r) {
      binding = some peer;
      handshake = some greeted.0;
      highest_applied_sequence = 0;
      prepared_display = none;
      active_display = none;
      last_activity_ms = none;
    })
    pure greeted.1

  abbrev is_target : String → ℕ → ReceiverDisplayLayout → Bool
  is_target display revision layout =
      string_beq layout.display_id display && layout.layout_revision == revision

  prepare_named : String → ℕ → M I (Unit {0})
  prepare_named display revision = do
    lift (λ r. map_err SessionRuntimeError.injector (port.readiness r.injector))
    modify
        (λ r. record r { prepared_display = find (is_target display revision) r.display_layouts })
    fail_when (λ r. is_none r.prepared_display) (protocol (invalid_field "layout_revision"))

  -- The block for a `Prepare`: readiness, and the display that it names.
  prepare_display : ControlFrame → M I (Unit {0})
  unfolding prepare_named
  prepare_display (ControlFrame.prepare request_id display revision) r =
      prepare_named display revision r
  prepare_display _ r = (r, ok tt)

  -- `handshake.handle(frame)` on the stored handshake.
  shake : ControlFrame → Option ReceiverHandshake → M I (Option ControlFrame)
  shake frame none r = (r, err wrong_connection)
  shake frame (some h) r =
      let reply = Receiver.handle h frame in
      (record r { handshake = some reply.0 }, map_err protocol reply.1)

  pub start_session : SessionId → ℕ → M I (Unit {0})
  start_session session_id now_ms r =
      if not (Pressed.is_empty r.pressed)
      then (r, err (protocol invalid_transition))
      else elim (Gate.activate r.input_gate session_id) [
        | err e ↦ (r, err (protocol e))
        | ok gate ↦ (
          record (reset_motion r) {
            input_gate = gate;
            active_session = some session_id;
            active_display = r.prepared_display;
            prepared_display = none;
            highest_applied_sequence = 0;
            last_activity_ms = some now_ms;
            last_fault = none;
          },
          ok tt,
        )
      ]

  -- The block for a `CommitAck` among the responses.
  commit_block : Option ControlFrame → ℕ → M I (Unit {0})
  unfolding start_session
  commit_block (some (ControlFrame.commit_ack session_id)) now_ms r =
      if is_none r.active_session
      then start_session session_id now_ms r
      else if not (option_beq r.active_session (some session_id))
      then (r, err (protocol wrong_session))
      else (r, ok tt)
  commit_block _ now_ms r = (r, ok tt)

  pub finish_session : SessionId → M I (Unit {0})
  finish_session session_id r =
      if option_beq r.active_session (some session_id)
      then elim (Gate.end r.input_gate session_id) [
        | err e ↦ (r, err (protocol e))
        | ok gate ↦ (
          record (reset_motion r) {
            input_gate = gate;
            active_session = none;
            active_display = none;
            last_activity_ms = none;
          },
          ok tt,
        )
      ]
      else (r, ok tt)

  -- The block for an `EndSession`.
  end_block : ControlFrame → M I (Unit {0})
  unfolding finish_session
  end_block (ControlFrame.end_session session_id reason) r =
      (finish_session session_id >> release_pressed port) r
  end_block _ r = (r, ok tt)

  abbrev answered : Option ControlFrame → Runtime I → Option ControlFrame
  answered (some (ControlFrame.pong session_id sequence highest)) r =
      some (ControlFrame.pong session_id sequence r.highest_applied_sequence)
  answered response r = response

  abbrev touched : ControlFrame → ℕ → Runtime I → Runtime I
  touched frame now_ms r =
      if is_some r.active_session && keeps_alive frame
      then record r { last_activity_ms = some now_ms }
      else r

  bound_arm : ControlFrame → AuthenticatedPeer → ℕ → M I (Option ControlFrame)
  unfolding prepare_display shake commit_block end_block
  bound_arm frame peer now_ms = do
    fail_when (λ r. not (bound_to r peer)) wrong_connection
    fail_when (λ r. is_none r.active_session && is_commit frame && is_none r.prepared_display)
        (protocol (invalid_field "layout_revision"))
    prepare_display frame
    response ← (λ r. shake frame r.handshake r)
    commit_block response now_ms
    end_block frame
    reply ← lift (λ r. ok (answered response r))
    modify (touched frame now_ms)
    pure reply

  control_arm : ControlFrame → AuthenticatedPeer → ℕ → M I (Option ControlFrame)
  unfolding hello_arm bound_arm
  control_arm (ControlFrame.hello boot_id peer_id DeviceRole.controller capabilities) peer now_ms =
      hello_arm (ControlFrame.hello boot_id peer_id DeviceRole.controller capabilities) peer_id peer
  control_arm frame peer now_ms = bound_arm frame peer now_ms

  unfoldable pub handle_control_at :
      ControlFrame → AuthenticatedPeer → ℕ → M I (Option ControlFrame)
  unfolding control_arm
  handle_control_at frame peer now_ms = do
    fail_when (λ r. not (role_beq peer.role PeerRole.controller)) wrong_role
    control_arm frame peer now_ms

  abbrev still_there : Option ReceiverDisplayLayout → List ReceiverDisplayLayout → Bool
  still_there none layouts = true
  still_there (some d) layouts = any (λ l. layout_beq l d) layouts

  -- `if let Some(session_id) = self.active_session.take()`, with what follows it.
  abbrev layout_dropped : Option SessionId → Runtime I → Runtime I
  layout_dropped none r = r
  layout_dropped (some s) r = drop_session s r

  abbrev layout_lost : Runtime I → Runtime I
  layout_lost r =
      let dropped = layout_dropped r.active_session r in
      record (reset_motion dropped) {
        active_display = none;
        last_activity_ms = none;
        last_fault = some layout_changed;
      }

  unfoldable pub update_display_layouts : List ReceiverDisplayLayout → M I Bool
  update_display_layouts layouts r =
      let active_is_current = still_there r.active_display layouts in
      let prepared = if still_there r.prepared_display layouts then r.prepared_display else none in
      let r' = record r { display_layouts = layouts; prepared_display = prepared } in
      if active_is_current
      then (r', ok false)
      else (release_pressed port >>= λ _. pure true) (layout_lost r')

  -- A forced end for a reason, with the release of all that is held.
  abbrev force_end : SessionId → SessionFault → M I Bool
  force_end session_id fault r =
      (release_pressed port >>= λ _. pure true)
        (record (drop_session session_id r) { last_fault = some fault })

  expire_session : Option SessionId → Option ℕ → ℕ → M I Bool
  expire_session (some session_id) (some last_activity_ms) now_ms r =
      if ltb (now_ms - last_activity_ms) input_lease_timeout_ms
      then (r, ok false)
      else force_end session_id lease_expired r
  expire_session _ _ now_ms r = (r, ok false)

  unfoldable pub expire_if_needed : ℕ → M I Bool
  unfolding expire_session
  expire_if_needed now_ms r = expire_session r.active_session r.last_activity_ms now_ms r

  closed_in : Option SessionId → M I Bool
  closed_in (some session_id) r = force_end session_id input_stream_closed r
  closed_in none r = (r, ok false)

  unfoldable pub input_stream_closed_by : AuthenticatedPeer → M I Bool
  unfolding closed_in
  input_stream_closed_by peer r =
      if not (bound_to r peer) then (r, ok false) else closed_in r.active_session r

unfoldable pub update_modifier_mapping :
    {I : Type 0} → Bool → String → String → String → Runtime I → Runtime I
update_modifier_mapping enabled control alt meta r = record r {
  modifier_remap = enabled;
  modifier_control = control;
  modifier_alt = alt;
  modifier_meta = meta;
}
