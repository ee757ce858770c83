-- ===== src/Session/Control/Frames.antt =====
-- Every control frame that src-tauri/src/session_runtime.rs handles keeps the runtime's invariant.
use mykvm.Base.{ℕ, ◌&&◌, none, some, Option, Bool-cases, inl, inr, String, option_beq, is_some}
use mykvm.Ports.{InjectorPort}
use mykvm.Protocol.Types.{session_eq, ControlFrame, DeviceRole}
use mykvm.Protocol.Receiver.{ReceiverHandshake}
use mykvm.Session.Types.{Runtime, AuthenticatedPeer}
use mykvm.Session.Runtime.Invariant.{Inv}
use mykvm.Session.Runtime.Steps.{
  Safe, bind-Safe, fail_when-Safe, lift-Safe, pure-Safe, modify-Safe, release-Safe,
}
use mykvm.Session.Control
use mykvm.Session.Control.Invariant.{start_session-Keeps, finish_session-Keeps}

module _ {I : Type 0} (port : InjectorPort I) where
  hello_arm-Safe :
      (frame : ControlFrame) (peer_id : String) (peer : AuthenticatedPeer)
      → Safe (Control.hello_arm port frame peer_id peer)
  unfolding Control.hello_arm
  hello_arm-Safe frame peer_id peer = bind-Safe (fail_when-Safe _ _) λ _.
      bind-Safe (fail_when-Safe _ _) λ _. bind-Safe (release-Safe port) λ _.
        bind-Safe (lift-Safe _) λ greeted.
          bind-Safe
            (modify-Safe _ (λ r v. record { agree = v.agree; pending = tt; distinct = v.distinct }))
            λ _. pure-Safe _

  prepare_display-Safe : (frame : ControlFrame) → Safe (Control.prepare_display port frame)
  unfolding Control.prepare_display Control.prepare_named
  prepare_display-Safe (ControlFrame.prepare request_id display revision) =
      bind-Safe (lift-Safe _) λ _.
        bind-Safe
          (modify-Safe _
            (λ r v. record { agree = v.agree; pending = v.pending; distinct = v.distinct }))
          λ _. fail_when-Safe _ _
  prepare_display-Safe _ = pure-Safe tt

  shake-Safe :
      (frame : ControlFrame) (handshake : Option ReceiverHandshake) (r : Runtime I)
      → Inv r
      → Inv (Control.shake port frame handshake r).0
  unfolding Control.shake
  shake-Safe frame none r v = v
  shake-Safe frame (some h) r v = record {
    agree = v.agree;
    pending = v.pending;
    distinct = v.distinct;
  }

  commit_block-Safe :
      (response : Option ControlFrame) (now_ms : ℕ)
      → Safe (Control.commit_block port response now_ms)
  unfolding Control.commit_block
  commit_block-Safe (some (ControlFrame.commit_ack session_id)) now_ms = record {
    keeps = λ r v. elim (Bool-cases (Control.is_none r.active_session)) [
      | inl idle ↦ rw idle (start_session-Keeps port session_id now_ms r v)
      | inr busy ↦ elim (Bool-cases (option_beq r.active_session (some session_id))) [
        | inl ours ↦ rw (busy, ours) v
        | inr other ↦ rw (busy, other) v
      ]
    ];
  }
  commit_block-Safe _ now_ms = record { keeps = λ r v. v }

  end_block-Safe : (frame : ControlFrame) → Safe (Control.end_block port frame)
  unfolding Control.end_block
  end_block-Safe (ControlFrame.end_session session_id reason) =
      bind-Safe (record { keeps = finish_session-Keeps port session_id }) λ _. release-Safe port
  end_block-Safe _ = record { keeps = λ r v. v }

  touched-Inv :
      (frame : ControlFrame) (now_ms : ℕ) (r : Runtime I)
      → Inv r
      → Inv (Control.touched port frame now_ms r)
  touched-Inv frame now_ms r v =
      elim (Bool-cases (is_some r.active_session && Control.keeps_alive frame)) [
        | inl alive ↦
            rw alive (record { agree = v.agree; pending = v.pending; distinct = v.distinct })
        | inr quiet ↦ rw quiet v
      ]

  bound_arm-Safe :
      (frame : ControlFrame) (peer : AuthenticatedPeer) (now_ms : ℕ)
      → Safe (Control.bound_arm port frame peer now_ms)
  unfolding Control.bound_arm
  bound_arm-Safe frame peer now_ms = bind-Safe (fail_when-Safe _ _) λ _.
      bind-Safe (fail_when-Safe _ _) λ _. bind-Safe (prepare_display-Safe frame) λ _.
        bind-Safe (record { keeps = λ r v. shake-Safe frame r.handshake r v })
          λ response. bind-Safe (commit_block-Safe response now_ms) λ _.
            bind-Safe (end_block-Safe frame) λ _.
              bind-Safe (lift-Safe _)
                λ reply. bind-Safe (modify-Safe _ (touched-Inv frame now_ms)) λ _. pure-Safe reply

  control_arm-Safe :
      (frame : ControlFrame) (peer : AuthenticatedPeer) (now_ms : ℕ)
      → Safe (Control.control_arm port frame peer now_ms)
  unfolding Control.control_arm
  control_arm-Safe (ControlFrame.hello boot_id peer_id DeviceRole.controller caps) peer now_ms =
      hello_arm-Safe (ControlFrame.hello boot_id peer_id DeviceRole.controller caps) peer_id peer
  control_arm-Safe frame peer now_ms = bound_arm-Safe frame peer now_ms

  -- Handling a control frame keeps the invariant of the runtime, whatever the frame and the peer
  -- are, at whatever time, and whether or not it fails.
  pub handle_control_at-Inv :
      (frame : ControlFrame) (peer : AuthenticatedPeer) (now_ms : ℕ) (r : Runtime I)
      → Inv r
      → Inv (Control.handle_control_at port frame peer now_ms r).0
  unfolding Control.handle_control_at
  handle_control_at-Inv frame peer now_ms r v =
      let safe : Safe (Control.handle_control_at port frame peer now_ms) =
        bind-Safe (fail_when-Safe _ _) λ _. control_arm-Safe frame peer now_ms in
      safe.keeps r v
