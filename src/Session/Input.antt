-- ===== src/Session/Input.antt =====
-- The input side of `ReceiverSessionRuntime` in src-tauri/src/session_runtime.rs: reliable events and
-- pointer motion.
pub mod Invariant
pub mod Frames
use Prim.Native.Nat.{max}
use mykvm.Session.Modifiers.{remap_modifier_vk}
use mykvm.Base.{
  ℕ, Bool, true, false, not, ◌&&◌, ◌||◌, Option, none, some, List, [], ◌∷◌, ◌++◌, ◌==◌, ltb, leb,
  if◌then◌else◌, ℤ, Result, ok, err, option_beq, string_beq, is_nil,
}
use mykvm.Input.{InputCommand}
use mykvm.Ports.{PortError, InjectorPort, submit_ready}
use mykvm.Pressed
use mykvm.Pressed.{PressedState}
use mykvm.Protocol.Types.{
  SessionId, CriticalEvent, CriticalFrame, MotionFrame, invalid_field, wrong_session, session_eq,
}
use mykvm.Protocol.Gate
use mykvm.Protocol.Gate.{InputSessionGate}
use mykvm.Session.Types.{
  AuthenticatedPeer, peer_eq, SessionRuntimeError, wrong_connection, protocol, SessionFault,
  MotionDisposition, applied, buffered, stale, ReceiverDisplayLayout, Runtime,
}
use mykvm.Session.Layout.{map_pointer}
use mykvm.Session.Runtime.{
  M, pure, ◌>>=◌, ◌>>◌, modify, fail_when, lift, from_controller, drop_session, map_active_pointer,
  release_pressed,
}

-- `critical_motion_snapshot`.
unfoldable pub motion_snapshot : CriticalEvent → Option (ℕ × ℤ × ℤ)
motion_snapshot (CriticalEvent.key key_code code extended down) = none
motion_snapshot (CriticalEvent.button b down x y motion_sequence) = some (motion_sequence, x, y)
motion_snapshot (CriticalEvent.scroll dx dy x y motion_sequence) = some (motion_sequence, x, y)

-- The event with its pointer mapped to the native display.
unfoldable pub moved_to : CriticalEvent → ℤ → ℤ → CriticalEvent
moved_to (CriticalEvent.key key_code code extended down) p q =
    CriticalEvent.key key_code code extended down
moved_to (CriticalEvent.button b down x y n) p q = CriticalEvent.button b down p q n
moved_to (CriticalEvent.scroll dx dy x y n) p q = CriticalEvent.scroll dx dy p q n

unfoldable pub is_scroll : CriticalEvent → Bool
is_scroll (CriticalEvent.scroll dx dy x y n) = true
is_scroll _ = false

unfoldable pub remapped : {I : Type 0} → Runtime I → CriticalEvent → CriticalEvent
remapped r (CriticalEvent.key key_code code extended down) =
    CriticalEvent.key
      (if r.modifier_remap
        then remap_modifier_vk key_code r.modifier_control r.modifier_alt r.modifier_meta
        else key_code)
      code extended down
remapped r (CriticalEvent.button b down x y n) = CriticalEvent.button b down x y n
remapped r (CriticalEvent.scroll dx dy x y n) = CriticalEvent.scroll dx dy x y n

-- A motion snapshot that is older than the last motion applied.
abbrev old_snapshot : {I : Type 0} → Runtime I → Option (ℕ × ℤ × ℤ) → Bool
old_snapshot r none = false
old_snapshot r (some (sequence, x, y)) =
    not (sequence == 0) && ltb sequence r.highest_motion_sequence

-- The commands of one input event: the pointer moves first, and a button that changes nothing is
-- still a move.
unfoldable pub event_commands :
    CriticalEvent → CriticalEvent → Option (ℤ × ℤ) → PressedState → PressedState × List InputCommand
unfolding is_scroll
event_commands event mapped none pressed = Pressed.apply pressed mapped
event_commands event mapped (some (x, y)) pressed =
    let drag = Pressed.drag_button pressed in
    let (after, rest) = Pressed.apply (Pressed.update_pointer pressed x y) mapped in
    let commands =
      (if is_scroll event then InputCommand.mouse_move x y drag ∷ [] else []) ++ rest in
    (
      after,
      if is_nil commands
          then InputCommand.mouse_move x y (Pressed.drag_button after) ∷ []
          else commands,
    )

-- The pointer of the event on the native display, if the event has one.
event_pointer :
    {I : Type 0} → Option (ℕ × ℤ × ℤ) → Runtime I → Result SessionRuntimeError (Option (ℤ × ℤ))
event_pointer none r = ok none
event_pointer (some (sequence, x, y)) r = elim (map_active_pointer x y r) [
  | ok p ↦ ok (some p)
  | err e ↦ err e
]

abbrev mapped_event : CriticalEvent → Option (ℤ × ℤ) → CriticalEvent
mapped_event event none = event
mapped_event event (some (x, y)) = moved_to event x y

abbrev raised : ℕ → Option (ℕ × ℤ × ℤ) → ℕ
raised highest none = highest
raised highest (some (sequence, x, y)) = max highest sequence

-- The end of `handle_input_at`.
abbrev note_applied : {I : Type 0} → CriticalFrame → ℕ → Runtime I → Runtime I
note_applied frame now_ms r = record r {
  highest_applied_sequence = frame.sequence;
  highest_motion_sequence = raised r.highest_motion_sequence (motion_snapshot frame.event);
  last_activity_ms = some now_ms;
}

-- `self.input_gate.accept(frame)`.
pub gate_accept : {I : Type 0} → CriticalFrame → M I (Unit {0})
gate_accept frame r = elim (Gate.accept r.input_gate frame) [
  | ok g ↦ (record r { input_gate = g }, ok tt)
  | err e ↦ (r, err (protocol e))
]

module _ {I : Type 0} (port : InjectorPort I) where
  -- `self.pressed = pressed_before; self.last_fault = ...; self.abort_after_injector_failure(..)`.
  unfoldable pub injector_failed : SessionId → PressedState → PortError → Runtime I → Runtime I
  injector_failed session_id before e r =
      (release_pressed port (
        drop_session session_id
          (record r { pressed = before; last_fault = some (SessionFault.injector e) }))).0

  -- The `for` loop that injects: it stops at the first error.
  submit_each : List InputCommand → I → I × Option PortError
  submit_each [] i = (i, none)
  submit_each (c ∷ cs) i =
      let sent = submit_ready port i c in
      elim sent.1 [ ok _ ↦ submit_each cs sent.0 | err e ↦ (sent.0, some e) ]

  -- Inject the commands; a failure gives the ledger of before and ends the session.
  unfoldable pub inject : SessionId → PressedState → List InputCommand → M I (Unit {0})
  unfolding submit_each
  inject session_id before commands r =
      let sent = submit_each commands r.injector in
      let r' = record r { injector = sent.0 } in
      elim sent.1 [
        | none ↦ (r', ok tt)
        | some e ↦ (injector_failed session_id before e r', err (SessionRuntimeError.injector e))
      ]

  unfoldable pub apply_motion : MotionFrame → M I (Unit {0})
  apply_motion frame = do
    at_pointer ← lift (map_active_pointer frame.x frame.y)
    before ← (λ r. (r, ok r.pressed))
    modify (λ r. record r { pressed = Pressed.update_pointer r.pressed at_pointer.0 at_pointer.1 })
    (λ r.
        inject frame.session_id before
          (InputCommand.mouse_move at_pointer.0 at_pointer.1 (Pressed.drag_button r.pressed) ∷ [])
          r)
    modify (λ r. record r { highest_motion_sequence = frame.sequence })

  flush_frame : Option MotionFrame → M I (Unit {0})
  flush_frame none r = (r, ok tt)
  flush_frame (some frame) r =
      if ltb r.highest_applied_sequence frame.required_reliable_sequence
      then (r, ok tt)
      else let r' = record r { pending_motion = none } in
        if ltb r'.highest_motion_sequence frame.sequence then apply_motion frame r' else (r', ok tt)

  unfoldable pub flush_pending_motion : M I (Unit {0})
  unfolding flush_frame
  flush_pending_motion r = flush_frame r.pending_motion r

  unfoldable pub handle_input_at : CriticalFrame → AuthenticatedPeer → ℕ → M I (Unit {0})
  unfolding gate_accept event_pointer
  handle_input_at frame peer now_ms = do
    fail_when (λ r. not (from_controller r peer)) wrong_connection
    fail_when (λ r. old_snapshot r (motion_snapshot frame.event)) (protocol wrong_session)
    pointer ← lift (event_pointer (motion_snapshot frame.event))
    mapped ← (λ r. (r, ok (mapped_event (remapped r frame.event) pointer)))
    gate_accept frame
    (λ r.
        let (after, commands) = event_commands frame.event mapped pointer r.pressed in
        inject frame.session_id r.pressed commands (record r { pressed = after }))
    modify (note_applied frame now_ms)
    flush_pending_motion

  -- Is the frame for the active session of this boot?
  abbrev wrong_motion : MotionFrame → Runtime I → Bool
  wrong_motion frame r =
      frame.sequence == 0
      || not (option_beq r.active_session (some frame.session_id))
      || not (frame.session_id.receiver_boot == r.local_boot)

  -- The newer of two frames that wait.
  abbrev keep_pending : MotionFrame → Option MotionFrame → Option MotionFrame
  keep_pending frame none = some frame
  keep_pending frame (some pending) =
      if ltb pending.sequence frame.sequence then some frame else some pending

  abbrev on_display : MotionFrame → ReceiverDisplayLayout → Bool
  on_display frame d =
      string_beq frame.display_id d.display_id && frame.layout_revision == d.layout_revision

  -- `handle_motion_at` once the frame is new.
  take_motion : MotionFrame → ℕ → Option ReceiverDisplayLayout → M I MotionDisposition
  take_motion frame now_ms none r = (r, err (protocol (invalid_field "display_id")))
  take_motion frame now_ms (some d) r =
      if not (on_display frame d)
      then (r, err (protocol (invalid_field "layout_revision")))
      else elim (map_pointer d frame.x frame.y) [
        | err e ↦ (r, err (protocol e))
        | ok _ ↦
            let r' = record r { last_activity_ms = some now_ms } in
            if ltb r'.highest_applied_sequence frame.required_reliable_sequence
            then (record r' { pending_motion = keep_pending frame r'.pending_motion }, ok buffered)
            else (apply_motion frame >>= λ _. pure applied) r'
      ]

  unfoldable pub handle_motion_at : MotionFrame → AuthenticatedPeer → ℕ → M I MotionDisposition
  unfolding take_motion
  handle_motion_at frame peer now_ms r =
      if not (from_controller r peer)
      then (r, err wrong_connection)
      else if wrong_motion frame r
      then (r, err (protocol wrong_session))
      else if leb frame.sequence r.highest_motion_sequence
      then (r, ok stale)
      else take_motion frame now_ms r.active_display r
