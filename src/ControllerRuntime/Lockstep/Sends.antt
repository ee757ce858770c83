-- ===== src/ControllerRuntime/Lockstep/Sends.antt =====
-- `next_input`, `next_motion` and `ping` of src-tauri/src/controller_runtime.rs change the counters only.
use mykvm.Base.{
  ℕ, ℤ, ◌≡◌, inl, inr, refl, sym, subst, Bool, true, false, ◌&&◌, Option, none, some, String,
  Result, ok, err, Option-cases, ok_or, checked_add, ◌==◌,
}
use mykvm.Base.Methods.{lift, fail_when, modify, ◌>>=◌, ◌>>◌}
use mykvm.Protocol.Types.{
  SessionId, ControlFrame, CriticalEvent, CriticalFrame, MotionFrame, ProtocolError, invalid_field,
}
use mykvm.Protocol.Controller
use mykvm.Protocol.Controller.{ControllerHandshake, ControllerState, active}
use mykvm.ControllerRuntime
use mykvm.ControllerRuntime.{
  Runtime, ControllerRuntimeError, next_input, next_motion, has_pointer, is_active, framed, Local,
  not_active, protocol, with_sequence,
}
use mykvm.ControllerRuntime.Lockstep.{Matched, InStep}

send_ping_state :
    (h : ControllerHandshake) (sent : ControllerHandshake × ControlFrame)
    → Controller.send_ping h ≡ ok sent
    → sent.0.state ≡ h.state
unfolding Controller.send_ping
send_ping_state h sent e = elim (Option-cases (Controller.active_session h)) [
  | inl q ↦ cc (rw (q, Controller.send_ping) at e)
  | inr (s, q) ↦ elim (Option-cases (checked_add h.ping_sequence 1)) [
    | inl w ↦ cc (rw (q, w, Controller.send_ping) at e)
    | inr (n, w) ↦ cc (rw (q, w, Controller.send_ping) at e)
  ]
]

framed_keeps :
    (r : Runtime) (x : Result ProtocolError (ControllerHandshake × ControlFrame))
    → InStep r
    → ((sent : ControllerHandshake × ControlFrame) → x ≡ ok sent → sent.0.state ≡ r.handshake.state)
    → InStep (framed (λ h. x) r).0
framed_keeps r (ok sent) m same =
    subst (λ t. Matched r.router.state t r.pending_request r.pending_session) (sym (same sent refl))
      m
framed_keeps r (err e) m same = m

pub send_ping_keeps : (r : Runtime) → InStep r → InStep (ControllerRuntime.send_ping r).0
unfolding ControllerRuntime.send_ping
send_ping_keeps r m =
    framed_keeps r (Controller.send_ping r.handshake) m (send_ping_state r.handshake)

-- `next_input` with what it reads, from the last check on and from the start.
abbrev number_read : SessionId → (Runtime → Option ℕ) → CriticalEvent → Local CriticalFrame
number_read session_id number event = do
  next ← lift (λ r. ok_or (number r) (protocol (invalid_field "sequence")))
  modify (λ r. record r { input_sequence = next })
  lift (λ r. ok (record {
    session_id = session_id;
    sequence = r.input_sequence;
    event = with_sequence event r.motion_sequence;
  }))

abbrev input_read :
    Option SessionId → Bool → (Runtime → Option ℕ) → CriticalEvent → Local CriticalFrame
input_read session early number event = do
  session_id ← lift (λ r. ok_or session not_active)
  fail_when (λ r. early) (protocol (invalid_field "motion_sequence"))
  number_read session_id number event

number_read_keeps :
    (s : SessionId) (number : Option ℕ) (event : CriticalEvent) (r : Runtime)
    → InStep r
    → InStep (number_read s (λ r. number) event r).0
number_read_keeps s none event r m = m
number_read_keeps s (some n) event r m = m

input_read_keeps :
    (session : Option SessionId) (early : Bool) (number : Runtime → Option ℕ)
    (event : CriticalEvent) (r : Runtime)
    → InStep r
    → InStep (input_read session early number event r).0
input_read_keeps none early number event r m = m
input_read_keeps (some s) true number event r m = m
input_read_keeps (some s) false number event r m = number_read_keeps s (number r) event r m

pub next_input_keeps :
    (event : CriticalEvent) (r : Runtime) → InStep r → InStep (next_input event r).0
unfolding next_input
next_input_keeps event r m =
    input_read_keeps (Controller.active_session r.handshake)
      (has_pointer event && r.motion_sequence == 0) (λ r. checked_add r.input_sequence 1) event r m

abbrev motion_read : Option SessionId → Option (String × ℕ) → Option ℕ → ℤ → ℤ → Local MotionFrame
motion_read session display number x y = do
  session_id ← lift (λ r. ok_or session not_active)
  display ← lift (λ r. ok_or display not_active)
  next ← lift (λ r. ok_or number (protocol (invalid_field "motion_sequence")))
  modify (λ r. record r { motion_sequence = next })
  lift (λ r. ok (record {
    session_id = session_id;
    display_id = display.0;
    layout_revision = display.1;
    sequence = r.motion_sequence;
    required_reliable_sequence = r.input_sequence;
    x = x;
    y = y;
  }))

motion_read_keeps :
    (session : Option SessionId) (display : Option (String × ℕ)) (number : Option ℕ) (x y : ℤ)
    (r : Runtime)
    → InStep r
    → InStep (motion_read session display number x y r).0
motion_read_keeps none display number x y r m = m
motion_read_keeps (some s) none number x y r m = m
motion_read_keeps (some s) (some d) none x y r m = m
motion_read_keeps (some s) (some d) (some n) x y r m = m

pub next_motion_keeps : (x y : ℤ) (r : Runtime) → InStep r → InStep (next_motion x y r).0
unfolding next_motion
next_motion_keeps x y r m =
    motion_read_keeps (Controller.active_session r.handshake) r.display
      (checked_add r.motion_sequence 1) x y r m
