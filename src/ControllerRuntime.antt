-- ===== src/ControllerRuntime.antt =====
-- `ControllerRuntime` of src-tauri/src/controller_runtime.rs: the router and the controller's handshake in
-- step. A method runs on the runtime and the capture port that it is handed.
pub mod Control
pub mod Lockstep
use mykvm.Base.{
  ℕ, ◌+◌, Bool, true, false, not, ◌&&◌, Option, none, some, List, [], ◌∷◌, ◌++◌, map, String, ◌==◌,
  ℤ, if◌then◌else◌, is_some, option_beq, nat_eq, Result, ok, err, ok_or, map_err, checked_add,
}
use mykvm.Base.Methods.{Method, pure, ◌>>=◌, ◌>>◌, modify, lift, fail_when, cleaned}
use mykvm.Ports.{CapturePort, FocusPort}
use mykvm.Protocol.Types.{
  BootId, SessionId, session_beq, CriticalEvent, CriticalFrame, MotionFrame, ControlFrame,
  ProtocolError, invalid_field, invalid_transition, wrong_session,
}
use mykvm.Protocol.Controller
use mykvm.Protocol.Controller.{ControllerHandshake}
use mykvm.Routing.Types.{
  ReturnReason, user, emergency, timeout, keys_held, focus_unavailable, capture_failed,
  network_failed, queue_full, RouteEffect, RouteError,
}
use mykvm.Routing.Types
use mykvm.Routing.Router

pub data ControllerAction : Type 0 where
  send_control : ControlFrame → ControllerAction
  open_input : SessionId → ControllerAction
  close_input : ControllerAction

pub data ControllerRuntimeError : Type 0 where
  route : RouteError → ControllerRuntimeError
  protocol : ProtocolError → ControllerRuntimeError
  not_active : ControllerRuntimeError

pub record Runtime : Type 0 where
  pub router : Types.Router
  pub handshake : ControllerHandshake
  pub pending_request : Option ℕ
  pub pending_session : Option SessionId
  pub input_sequence : ℕ
  pub motion_sequence : ℕ
  pub display : Option (String × ℕ)

unfoldable pub new_with_override :
    BootId → String → (local_override : ℕ) → Result ControllerRuntimeError Runtime
new_with_override local_boot local_peer_id local_override =
    elim (Controller.new local_boot local_peer_id) [
      | err e ↦ err (protocol e)
      | ok handshake ↦ ok (record {
        router = Router.with_gate local_override;
        handshake = handshake;
        pending_request = none;
        pending_session = none;
        input_sequence = 0;
        motion_sequence = 0;
        display = none;
      })
    ]

abbrev pub can_begin : Runtime → Bool
can_begin r = Router.at_home r.router.state

abbrev pub is_active : Runtime → Bool
is_active r = is_some (Controller.active_session r.handshake)

unfoldable pub set_game_mode : Runtime → Bool → Runtime
set_game_mode r enabled = record r { router = Router.set_game_mode r.router enabled }

-- `u128::from_be_bytes(session_id.nonce)`: the nonce is that number.
abbrev pub session_token : SessionId → ℕ
session_token s = s.nonce

abbrev pub return_reason : ReturnReason → String
return_reason user = "user"
return_reason emergency = "emergency"
return_reason timeout = "timeout"
return_reason keys_held = "keys-held"
return_reason focus_unavailable = "focus-unavailable"
return_reason capture_failed = "capture-failed"
return_reason network_failed = "network-failed"
return_reason queue_full = "queue-full"

-- The four assignments that forget a session.
abbrev pub forget : Runtime → Runtime
forget r = record r {
  pending_request = none;
  pending_session = none;
  input_sequence = 0;
  motion_sequence = 0;
}

abbrev pub with_sequence : CriticalEvent → ℕ → CriticalEvent
with_sequence (CriticalEvent.key key_code code extended down) n =
    CriticalEvent.key key_code code extended down
with_sequence (CriticalEvent.button b down x y old) n = CriticalEvent.button b down x y n
with_sequence (CriticalEvent.scroll dx dy x y old) n = CriticalEvent.scroll dx dy x y n

abbrev pub has_pointer : CriticalEvent → Bool
has_pointer (CriticalEvent.key key_code code extended down) = false
has_pointer (CriticalEvent.button b down x y old) = true
has_pointer (CriticalEvent.scroll dx dy x y old) = true

-- Methods of the runtime that use no port.
abbrev pub Local : Type 0 → Type 0
Local A = Method Runtime ControllerRuntimeError A

unfoldable pub next_input : CriticalEvent → Local CriticalFrame
next_input event = do
  session_id ← lift (λ r. ok_or (Controller.active_session r.handshake) not_active)
  fail_when (λ r. has_pointer event && r.motion_sequence == 0)
      (protocol (invalid_field "motion_sequence"))
  next ← lift (λ r. ok_or (checked_add r.input_sequence 1) (protocol (invalid_field "sequence")))
  modify (λ r. record r { input_sequence = next })
  lift (λ r. ok (record {
    session_id = session_id;
    sequence = r.input_sequence;
    event = with_sequence event r.motion_sequence;
  }))

unfoldable pub next_motion : ℤ → ℤ → Local MotionFrame
next_motion x y = do
  session_id ← lift (λ r. ok_or (Controller.active_session r.handshake) not_active)
  display ← lift (λ r. ok_or r.display not_active)
  next ←
      lift
        (λ r. ok_or (checked_add r.motion_sequence 1) (protocol (invalid_field "motion_sequence")))
  modify (λ r. record r { motion_sequence = next })
  lift (λ r. ok (record {
    session_id = session_id;
    display_id = display.0;
    layout_revision = display.1;
    sequence = r.motion_sequence;
    required_reliable_sequence = r.input_sequence;
    x = x;
    y = y;
  }))

-- A step of the handshake that gives a frame to send.
abbrev pub framed :
    (ControllerHandshake → Result ProtocolError (ControllerHandshake × ControlFrame))
    → Local ControllerAction
framed step r = elim (step r.handshake) [
  | err e ↦ (r, err (protocol e))
  | ok sent ↦ (record r { handshake = sent.0 }, ok (send_control sent.1))
]

unfoldable pub send_ping : Local ControllerAction
send_ping r = framed Controller.send_ping r

abbrev pub aborted : Runtime → Runtime
aborted r = record r { handshake = Controller.abort r.handshake }

abbrev pub is_token : Option SessionId → ℕ → Bool
is_token none session = false
is_token (some pending) session = session_token pending == session

unfoldable pub commit_effect : ℕ → ℕ → Local (List ControllerAction)
commit_effect request session = do
  fail_when (λ r. not (option_beq r.pending_request (some request))) not_active
  fail_when (λ r. not (is_token r.pending_session session)) not_active
  pending ← lift (λ r. ok_or r.pending_session not_active)
  action ← framed (λ h. Controller.commit_session h request pending)
  pure (action ∷ [])

unfoldable pub say_end : ReturnReason → Local (List ControllerAction)
say_end reason = do
  action ← framed (λ h. Controller.end h (return_reason reason))
  modify forget
  pure (action ∷ close_input ∷ [])

-- One round of the loop of `route_effects`, with the actions that it adds.
unfoldable pub route_effect : RouteEffect → Local (List ControllerAction)
unfolding commit_effect say_end
route_effect (RouteEffect.commit request session) r = commit_effect request session r
route_effect (RouteEffect.end session reason) r =
    if is_active r then say_end reason r else (forget (aborted r), ok (close_input ∷ []))
route_effect (RouteEffect.cancel request) r = (forget (aborted r), ok (close_input ∷ []))
route_effect (RouteEffect.prepare peer request) r = (r, ok [])

pub route_effects : List RouteEffect → Local (List ControllerAction)
unfolding route_effect
route_effects [] = pure []
route_effects (e ∷ es) = do
  actions ← route_effect e
  rest ← route_effects es
  pure (actions ++ rest)

-- A step of the handshake on a frame; `random` is what `SystemRandom` gives if it is asked.
abbrev pub shake : ControlFrame → Option ℕ → Local (Unit {0})
shake frame random r =
    let reply = Controller.handle r.handshake frame random in
    (record r { handshake = reply.0 }, elim reply.1 [ ok _ ↦ ok tt | err e ↦ err (protocol e) ])
