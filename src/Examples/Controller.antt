-- ===== src/Examples/Controller.antt =====
-- Concrete histories of the controller's runtime (src-tauri/src/controller_runtime.rs).
use mykvm.Base.{ℕ, Bool, ◌≡◌, refl, true, false, some, none, List, [], ◌∷◌, ok, is_ok}
use mykvm.Ports.{CapturePort, FocusPort}
use mykvm.Protocol.Types.{SessionId, ControlFrame}
use mykvm.Protocol.Validate.{validate_text, validate_frame}
use mykvm.Protocol.Controller
use mykvm.Protocol.Controller.{ControllerHandshake, idle}
use mykvm.Routing.Gate.{reserve, still_preparing, requested, activate}
use mykvm.Routing.Types.{ReturnReason, local_desktop, remote_active}
use mykvm.Routing.Router
use mykvm.ControllerRuntime
use mykvm.ControllerRuntime.{Runtime}
use mykvm.ControllerRuntime.Control
use mykvm.ControllerRuntime.Control.{Handed}
use mykvm.ControllerRuntime.Lockstep.{InStep}
use mykvm.ControllerRuntime.Lockstep.Histories.{
  Call, begins, hears, advances, Desk, run, NewDesk, run-InStep, run_answers,
}

abbrev pub capture : CapturePort (Unit {0})
capture = record {
  prepare_capture = λ c. record { port = c; result = ok tt; requests = 0 };
  activate_capture = λ c. record { port = c; result = ok tt; requests = 0 };
  request_local_restore = λ c. (c, 0);
}

abbrev pub focus : FocusPort (Unit {0})
focus = record { prepare_focus = λ f. record { port = f; result = ok tt; requests = 0 } }

abbrev pub runtime : Runtime
runtime = record {
  router = record { state = local_desktop; game_mode = false; gate = 1; last_return = none };
  handshake = record {
    local_boot = 7;
    local_peer_id = "me";
    state = idle;
    ping_sequence = 0;
    last_pong_sequence = 0;
    highest_remote_applied = 0;
  };
  pending_request = none;
  pending_session = none;
  input_sequence = 0;
  motion_sequence = 0;
  display = none;
}

abbrev desk : Desk capture focus
desk = (tt, record { runtime = runtime; capture = tt })

abbrev pub session : SessionId
session = record { controller_boot = 7; receiver_boot = 9; nonce = 44 }

abbrev handover : List Call
handover =
    begins "desk" "left" 1 100
    ∷ hears (ControlFrame.ready 3 9 true "left" 1) 105 (some 44)
    ∷ advances 110 true
    ∷ hears (ControlFrame.commit_ack session) 120 none
    ∷ []

new_desk : NewDesk capture focus 7 "me" 1 desk
unfolding ControllerRuntime.new_with_override Controller.new validate_text Router.with_gate
new_desk = refl

run-InStep_example : InStep (run capture focus handover desk).1.runtime
run-InStep_example = run-InStep capture focus 7 "me" 1 desk handover new_desk

handed_over : (run capture focus handover desk).1.runtime.router.state ≡ remote_active "desk" 44
unfolding run Control.handle_control Control.advance Router.advance Controller.handle validate_frame
    Control.begin Router.go_remote reserve still_preparing requested Controller.begin
    Controller.prepared_session Router.ready Controller.commit_session Router.commit_ack activate
handed_over = refl

run_answers_example :
    let (f, h) = run capture focus handover desk in
    ((now_ms : ℕ) (keys_released : Bool)
      → is_ok (Control.advance capture focus now_ms keys_released f h).1.1 ≡ true)
    × ((reason : ReturnReason) → is_ok (Control.go_local capture reason h).1 ≡ true)
run_answers_example = run_answers capture focus 7 "me" 1 desk handover new_desk
