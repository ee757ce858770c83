-- ===== src/Examples/Client.antt =====
-- Concrete histories of the controller's client (src-tauri/src/controller_client.rs).
use mykvm.Base.{
  ℕ, zero, suc, ◌≡◌, refl, true, false, some, none, List, [], ◌∷◌, ok, err, if◌then◌else◌, Bool,
  arith,
}
use mykvm.Protocol.Types.{ControlFrame, CriticalEvent}
use mykvm.Protocol.Validate.{validate_text}
use mykvm.Protocol.Controller
use mykvm.Protocol.Controller.{active}
use mykvm.Routing.Router
use mykvm.ControllerRuntime
use mykvm.ControllerClient
use mykvm.ControllerClient.{
  ControllerTarget, ControllerTransport, Answer, Client, inbound_overflow, inbound_control_frames,
  offer, transport, poll_ping,
}
use mykvm.ControllerClient.Calls.{poll}
use mykvm.ControllerClient.Pings.{Scheduled, poll_ping-Scheduled}
use mykvm.ControllerRuntime.{is_active}
use mykvm.ControllerClient.Sound.{Sound, Stopped}
use mykvm.ControllerClient.Histories.{
  ClientCall, begins, polls, sends, arrives, call, run, NewClient, run-Sound, poll-offer,
}
use mykvm.Examples.Controller.{capture, focus, runtime, session}

-- A transport that is connected or not.
abbrev sent_when : Bool → Answer Bool
sent_when on = (on, if on then ok tt else err "not open")

abbrev wire : ControllerTransport Bool
wire = record {
  connect = λ target t. (true, ok tt);
  send_control = λ frame t. sent_when t;
  open_input = λ t. sent_when t;
  send_input = λ frame t. (t, err "queue full");
  send_motion = λ frame t. sent_when t;
  disconnect = λ t. false;
}

abbrev target : ControllerTarget
target = record {
  peer_id = "desk";
  addr = "10.0.0.2";
  protocol_version = 2;
  target_display = "left";
  layout_revision = 1;
}

abbrev client : Client Bool (Unit {0})
client = record {
  handed = record { runtime = runtime; capture = tt };
  transport = false;
  inbound = [];
  overflowed = false;
  next_ping_ms = none;
}

new_client : NewClient wire capture focus false tt 7 "me" 1 (tt, client)
unfolding ControllerClient.new_with_override ControllerRuntime.new_with_override Controller.new
    validate_text Router.with_gate
new_client = refl

abbrev handover : List ClientCall
handover =
    begins target 100
    ∷ arrives (ControlFrame.ready 3 9 true "left" 1)
    ∷ polls 110 true (λ n. some 44)
    ∷ arrives (ControlFrame.commit_ack session)
    ∷ polls 120 true (λ n. none)
    ∷ []

abbrev key : ClientCall
key = sends (CriticalEvent.key 65 30 false true)

run-Sound_example :
    Sound (call wire capture focus key (run wire capture focus handover (tt, client))).1
run-Sound_example =
    run-Sound wire capture focus false tt 7 "me" 1 (tt, client) handover key new_client

abbrev frames : ℕ → List ControlFrame
frames zero = []
frames (suc n) = ControlFrame.ping session n ∷ frames n

abbrev full : Client Bool (Unit {0})
full = record client { inbound = frames 64 }

poll-offer_example :
    let done =
      (poll wire capture focus 10 true
        (λ n. none)
        tt
        (offer (ControlFrame.ping session 65) full)).1 in
    (done.1 ≡ err inbound_overflow) × Stopped done.0
poll-offer_example =
    poll-offer wire capture focus (ControlFrame.ping session 65) full tt 10 true (λ n. none) refl

abbrev joined : Client Bool (Unit {0})
joined = record client {
  handed = record {
    runtime = record runtime { handshake = record runtime.handshake { state = active session } };
    capture = tt;
  };
  transport = true;
}

joined_active : is_active joined.handed.runtime ≡ true
unfolding Controller.active_session
joined_active = refl

poll_ping-Scheduled_example : Scheduled 500 (poll_ping wire capture 500 joined)
poll_ping-Scheduled_example =
    poll_ping-Scheduled wire capture 500 joined joined_active (omega arith)
