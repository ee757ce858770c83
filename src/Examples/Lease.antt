-- ===== src/Examples/Lease.antt =====
-- A receiver (src-tauri/src/session_runtime.rs) that holds a key when its lease runs out.
use mykvm.Base.{◌≡◌, refl, true, false, none, some, List, [], ◌∷◌, arith, ok, err}
use mykvm.Input.{InputCommand}
use mykvm.Ports.{InjectorPort, PortError, submit_ready}
use mykvm.Pressed
use mykvm.Pressed.{PressedState, KeySource}
use mykvm.Protocol.Types.{SessionId, ControlFrame, DeviceRole}
use mykvm.Protocol.Validate.{required_capabilities}
use mykvm.Protocol.Receiver
use mykvm.Session.Types.{AuthenticatedPeer, PeerRole, SocketAddr, Runtime}
use mykvm.Session.Runtime.{◌>>=◌, release_pressed, submit_all}
use mykvm.Session.Runtime.Invariant.{Inv, AllReleased}
use mykvm.Session.Control
use mykvm.Session.Histories.{Call, run, run-Inv}
use mykvm.Session.Runtime.{new_with_display_layouts}
use mykvm.Session.Runtime.Invariant.{AllReleased}
use mykvm.Session.Control.Lease.{Closed, expire_if_needed-Closed, expire_if_needed_ok}

-- An injector that writes its commands down, and one that is full.
abbrev recorder : InjectorPort (List InputCommand)
recorder = record { readiness = λ log. ok tt; post_event = λ log command. (command ∷ log, ok tt) }

abbrev full : InjectorPort (List InputCommand)
full = record {
  readiness = λ log. ok tt;
  post_event = λ log command. (log, err PortError.queue_full);
}

abbrev session : SessionId
session = record { controller_boot = 7; receiver_boot = 9; nonce = 5 }

abbrev peer : AuthenticatedPeer
peer = record {
  peer_id = "desk";
  role = PeerRole.controller;
  trust_revision = 1;
  connection_generation = 2;
  remote_addr = SocketAddr.v4 3232235777 4433;
}

abbrev held : PressedState
held = record {
  keys = record { source = KeySource.scan_code 30 false; target_key_code = 65 } ∷ [];
  buttons = [];
}

abbrev runtime : Runtime (List InputCommand)
runtime = record {
  local_boot = 9;
  binding = some peer;
  handshake =
      some (record { trusted_peer_id = "desk"; local_boot = 9; state = Receiver.active session });
  input_gate = record { local_boot = 9; active = some (session, 2); ended = none };
  active_session = some session;
  highest_applied_sequence = 1;
  highest_motion_sequence = 0;
  pending_motion = none;
  display_layouts = [];
  prepared_display = none;
  active_display = none;
  modifier_remap = false;
  modifier_control = "same";
  modifier_alt = "same";
  modifier_meta = "same";
  last_activity_ms = some 1000;
  last_fault = none;
  pressed = held;
  injector = [];
}

runtime-Inv : Inv runtime
runtime-Inv = record { agree = refl; pending = tt; distinct = tt }

expire_if_needed-Closed_example : Closed (Control.expire_if_needed full 4000 runtime).0
expire_if_needed-Closed_example =
    expire_if_needed-Closed full runtime session 1000 4000 runtime-Inv refl refl (omega arith)

expired : (Control.expire_if_needed recorder 4000 runtime).1 ≡ ok true
unfolding Control.expire_if_needed ◌>>=◌ release_pressed submit_all submit_ready Pressed.release_all
    Pressed.drain_keys
expired = refl

expire_if_needed_ok_example :
    AllReleased recorder runtime (Control.expire_if_needed recorder 4000 runtime).0
expire_if_needed_ok_example = expire_if_needed_ok recorder runtime 4000 expired

abbrev calls : List Call
calls =
    Call.control (ControlFrame.hello 7 "desk" DeviceRole.controller required_capabilities) peer 100
    ∷ Call.control (ControlFrame.prepare 1 "main" 3) peer 110
    ∷ Call.control (ControlFrame.commit 1 session) peer 120
    ∷ Call.expire 4000
    ∷ Call.stream_closed peer
    ∷ []

run-Inv_example : Inv (run full (new_with_display_layouts 9 [] []) calls)
run-Inv_example = run-Inv full 9 [] [] calls
