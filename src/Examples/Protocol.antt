-- ===== src/Examples/Protocol.antt =====
-- Concrete runs of the protocol model (src-tauri/src/protocol_v2.rs).
use mykvm.Base.{ℕ, ◌≡◌, ◌⊎◌, refl, true, false, none, some, List, [], ◌∷◌, arith, ok, any}
use mykvm.Protocol.Types.{SessionId, CriticalEvent, CriticalFrame, ControlFrame, DeviceRole}
use mykvm.Protocol.Validate.{
  validate_frame, validate_text, validate_session, validate_critical, required_capabilities,
}
use mykvm.Protocol.Gate
use mykvm.Protocol.Gate.{InputSessionGate}
use mykvm.Protocol.Gate.Order.{accepted, Numbered, accepted-Numbered}
use mykvm.Protocol.Receiver
use mykvm.Protocol.Receiver.{ReceiverHandshake}
use mykvm.Protocol.Receiver.Trust.{run, greets, commits, run-active, handle_acks}
use mykvm.Protocol.Controller
use mykvm.Protocol.Controller.{ControllerHandshake}
use mykvm.Protocol.Handshake.{meet, meet_agrees}

abbrev session : SessionId
session = record { controller_boot = 7; receiver_boot = 9; nonce = 5 }

abbrev frame : ℕ → CriticalFrame
frame n = record { session_id = session; sequence = n; event = CriticalEvent.key 65 30 false true }

abbrev gate : ℕ → InputSessionGate
gate n = record { local_boot = 9; active = some (session, n); ended = none }

accepted-Numbered_example :
    Numbered session 1 (accepted (gate 1) (frame 1 ∷ frame 1 ∷ frame 3 ∷ frame 2 ∷ []))
accepted-Numbered_example =
    accepted-Numbered (gate 1) session 1 (frame 1 ∷ frame 1 ∷ frame 3 ∷ frame 2 ∷ []) refl

accept-frame : Gate.accept (gate 1) (frame 1) ≡ ok (gate 2)
unfolding Gate.accept validate_critical
accept-frame = refl

abbrev closed_gate : InputSessionGate
closed_gate = record { local_boot = 9; active = none; ended = some session }

end_gate : Gate.end (gate 2) session ≡ ok closed_gate
unfolding Gate.end
end_gate = refl

abbrev receiver : ReceiverHandshake
receiver = record { trusted_peer_id = "desk"; local_boot = 9; state = Receiver.await_hello }

abbrev frames : List ControlFrame
frames =
    ControlFrame.hello 7 "desk" DeviceRole.controller required_capabilities
    ∷ ControlFrame.prepare 1 "main" 3
    ∷ ControlFrame.commit 1 session
    ∷ []

new-receiver : Receiver.new "desk" 9 ≡ ok receiver
unfolding Receiver.new validate_text
new-receiver = refl

run-receiver : (run receiver frames).state ≡ Receiver.active session
unfolding run Receiver.handle validate_frame validate_text validate_session
run-receiver = refl

run-active_example :
    (any (greets "desk" 7) frames ≡ true)
    × (any (commits session) frames ≡ true)
    × (session.receiver_boot ≡ receiver.local_boot)
run-active_example = run-active "desk" 9 receiver frames session new-receiver run-receiver

abbrev prepared : ReceiverHandshake
prepared = record receiver { state = Receiver.prepared 7 1 }

commit_prepared :
    (Receiver.handle prepared (ControlFrame.commit 1 session)).1
    ≡ ok (some (ControlFrame.commit_ack session))
unfolding Receiver.handle validate_frame validate_session
commit_prepared = refl

handle_acks_example :
    ((Receiver.handle prepared (ControlFrame.commit 1 session)).0.state ≡ Receiver.active session)
    × ((Receiver.prepared 7 1 ≡ Receiver.active session)
        ⊎ ((r : ℕ) × (Receiver.prepared 7 1 ≡ Receiver.prepared 7 r)
            × (ControlFrame.commit 1 session ≡ ControlFrame.commit r session)
            × (session.receiver_boot ≡ receiver.local_boot)))
handle_acks_example = handle_acks prepared (ControlFrame.commit 1 session) session commit_prepared

abbrev controller : ControllerHandshake
controller = record {
  local_boot = 7;
  local_peer_id = "desk";
  state = Controller.idle;
  ping_sequence = 4;
  last_pong_sequence = 4;
  highest_remote_applied = 12;
}

named_desk : validate_text "desk" 256 "peer_id" ≡ ok tt
unfolding validate_text
named_desk = refl

target_main : validate_frame (ControlFrame.prepare 1 "main" 3) ≡ ok tt
unfolding validate_frame validate_text
target_main = refl

meet_agrees_example :
    meet controller receiver 1 "main" 3 (some 5)
    ≡ ok (
      record controller {
        state = Controller.active session;
        ping_sequence = 0;
        last_pong_sequence = 0;
        highest_remote_applied = 0;
      },
      record receiver { state = Receiver.active session },
    )
meet_agrees_example =
    meet_agrees controller receiver 1 "main" 3 5 refl named_desk refl refl target_main
      (λ e. omega (arith, e)) (λ e. omega (arith, e)) (λ e. omega (arith, e))
