-- ===== src/Session/Runtime.antt =====
-- `ReceiverSessionRuntime` of src-tauri/src/session_runtime.rs. A method takes the runtime and gives
-- the new one beside its result; what it changed before an error stays changed.
use Prim.Native.Nat.{max}
use mykvm.Session.Modifiers.{remap_modifier_vk}
pub mod Invariant
pub mod Steps
use mykvm.Base.{
  ℕ, zero, suc, ◌+◌, ◌-◌, Bool, true, false, not, ◌&&◌, ◌||◌, Option, none, some, List, [], ◌∷◌,
  ◌++◌, String, ◌==◌, ltb, leb, if◌then◌else◌, ℤ, Result, ok, err, map_err, option_beq, string_beq,
  any, find, is_some, is_nil,
}
use mykvm.Input.{MouseButton, InputCommand}
use mykvm.Ports.{PortError, InjectorPort, submit_ready}
use mykvm.Pressed
use mykvm.Pressed.{PressedState}
use mykvm.Protocol.Types.{
  BootId, SessionId, DeviceRole, CriticalEvent, CriticalFrame, MotionFrame, ControlFrame,
  ProtocolError, invalid_field, invalid_transition, wrong_session, session_beq, session_eq,
}
use mykvm.Protocol.Gate
use mykvm.Protocol.Gate.{InputSessionGate}
use mykvm.Protocol.Receiver
use mykvm.Protocol.Receiver.{ReceiverHandshake}
use mykvm.Session.Types.{
  PeerRole, AuthenticatedPeer, role_beq, peer_eq, peer_beq, SessionRuntimeError, wrong_role,
  wrong_connection, protocol, SessionFault, release_failed, lease_expired, input_stream_closed,
  layout_changed, MotionDisposition, applied, buffered, stale, ReceiverDisplayLayout, layout_beq,
  Runtime,
}
use mykvm.Session.Layout.{map_pointer}

abbrev pub input_lease_timeout_ms : ℕ
input_lease_timeout_ms = 3000

-- A `&mut self` method.
abbrev pub M : Type 0 → Type 0 → Type 0
M I A = Runtime I → Runtime I × Result SessionRuntimeError A

abbrev pub pure : {I A : Type 0} → A → M I A
pure a r = (r, ok a)

infixl 5 ◌>>=◌ ◌>>◌
unfoldable pub ◌>>=◌ : {I A B : Type 0} → M I A → (A → M I B) → M I B
◌>>=◌ m f r = let s = m r in elim s.1 [ ok a ↦ f a s.0 | err e ↦ (s.0, err e) ]

abbrev pub ◌>>◌ : {I B : Type 0} → M I (Unit {0}) → M I B → M I B
m >> k = m >>= λ _. k

abbrev pub modify : {I : Type 0} → (Runtime I → Runtime I) → M I (Unit {0})
modify f r = (f r, ok tt)

-- `if test(self) { return Err(e) }`.
abbrev pub fail_when : {I : Type 0} → (Runtime I → Bool) → SessionRuntimeError → M I (Unit {0})
fail_when test e r = if test r then (r, err e) else (r, ok tt)

-- A result computed from the state, with `?`.
abbrev pub lift : {I A : Type 0} → (Runtime I → Result SessionRuntimeError A) → M I A
lift f r = (r, f r)

unfoldable pub new_with_display_layouts :
    {I : Type 0} → BootId → I → List ReceiverDisplayLayout → Runtime I
new_with_display_layouts local_boot injector display_layouts = record {
  local_boot = local_boot;
  binding = none;
  handshake = none;
  input_gate = Gate.new local_boot;
  active_session = none;
  highest_applied_sequence = 0;
  highest_motion_sequence = 0;
  pending_motion = none;
  display_layouts = display_layouts;
  prepared_display = none;
  active_display = none;
  modifier_remap = false;
  modifier_control = "same";
  modifier_alt = "same";
  modifier_meta = "same";
  last_activity_ms = none;
  last_fault = none;
  pressed = Pressed.empty;
  injector = injector;
}

abbrev pub reset_motion : {I : Type 0} → Runtime I → Runtime I
reset_motion r = record r { highest_motion_sequence = 0; pending_motion = none }

abbrev pub bound_to : {I : Type 0} → Runtime I → AuthenticatedPeer → Bool
bound_to r peer = option_beq r.binding (some peer)

abbrev pub from_controller : {I : Type 0} → Runtime I → AuthenticatedPeer → Bool
from_controller r peer = bound_to r peer && role_beq peer.role PeerRole.controller

-- `let _ = self.input_gate.end(session_id)`.
abbrev pub gate_ended : InputSessionGate → SessionId → InputSessionGate
gate_ended g s = elim (Gate.end g s) [ ok h ↦ h | err e ↦ g ]

-- `if let Some(handshake) = ... { let _ = handshake.abort_active(session_id) }`.
abbrev pub aborted : Option ReceiverHandshake → SessionId → Option ReceiverHandshake
aborted none s = none
aborted (some h) s = elim (Receiver.abort_active h s) [ ok g ↦ some g | err e ↦ some h ]

-- The part that every forced end of a session has: gate, handshake, session, lease and motion.
abbrev pub drop_session : {I : Type 0} → SessionId → Runtime I → Runtime I
drop_session s r = reset_motion (record r {
  input_gate = gate_ended r.input_gate s;
  handshake = aborted r.handshake s;
  active_session = none;
  last_activity_ms = none;
})

unfoldable pub map_active_pointer :
    {I : Type 0} → ℤ → ℤ → Runtime I → Result SessionRuntimeError (ℤ × ℤ)
map_active_pointer x y r = elim r.active_display [
  | none ↦ err (protocol (invalid_field "display_id"))
  | some d ↦ map_err protocol (map_pointer d x y)
]

module _ {I : Type 0} (port : InjectorPort I) where
  -- The loop of `release_pressed`: all commands are offered. The first and the last error.
  unfoldable pub submit_all :
      List InputCommand
      → I
      → Option PortError
      → Option PortError
      → I × Option PortError × Option PortError
  submit_all [] i first last = (i, first, last)
  submit_all (c ∷ cs) i first last =
      let sent = submit_ready port i c in
      elim sent.1 [
        | ok _ ↦ submit_all cs sent.0 first last
        | err e ↦ submit_all cs sent.0 (if is_some first then first else some e) (some e)
      ]

  -- The ledger comes back when a release failed.
  unfoldable pub release_pressed : M I (Unit {0})
  unfolding submit_all
  release_pressed r =
      let released = Pressed.release_all r.pressed in
      let sent = submit_all released.1 r.injector none none in
      elim sent.1 [
        | none ↦ (record r { pressed = released.0; injector = sent.0 }, ok tt)
        | some e ↦ (
          record r {
            injector = sent.0;
            last_fault = elim sent.2 [ none ↦ r.last_fault | some l ↦ some (release_failed l) ];
          },
          err (SessionRuntimeError.injector e),
        )
      ]
