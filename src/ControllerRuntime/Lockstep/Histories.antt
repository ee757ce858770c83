-- ===== src/ControllerRuntime/Lockstep/Histories.antt =====
-- Every call of `ControllerRuntime` (src-tauri/src/controller_runtime.rs), in any order, with other
-- threads asking for local control in between.
use mykvm.Base.{
  ok_same, ℕ, ℤ, ◌≡◌, inl, inr, refl, subst, Bool, true, Option, List, [], ◌∷◌, String, ok, is_ok,
  Bool-cases, Result-cases, ◌==◌,
}
use mykvm.Ports.{CapturePort, FocusPort}
use mykvm.Protocol.Types.{BootId, ControlFrame, CriticalEvent}
use mykvm.Protocol.Validate.{validate_text, max_peer_id_bytes}
use mykvm.Protocol.Controller
use mykvm.Protocol.Controller.{ControllerHandshake, ControllerState, active}
use mykvm.Routing.Gate.{requested}
use mykvm.Routing.Types.{ReturnReason}
use mykvm.Routing.Router
use mykvm.ControllerRuntime
use mykvm.ControllerRuntime.{
  Runtime, ControllerRuntimeError, next_input, next_motion, has_pointer, is_active, framed, Local,
  not_active, protocol, with_sequence,
}
use mykvm.ControllerRuntime.Control
use mykvm.ControllerRuntime.Control.{Handed, handle_control}
use mykvm.ControllerRuntime.Lockstep.{InStep}
use mykvm.ControllerRuntime.Lockstep.Calls.{advance_steps, go_local_steps}
use mykvm.ControllerRuntime.Lockstep.Sends.{send_ping_keeps, next_input_keeps, next_motion_keeps}
use mykvm.ControllerRuntime.Lockstep.Arms.{handle_control-Keeps, begin-Keeps, home_game_mode}

pub data Call : Type 0 where
  begins : (peer display : String) (revision now_ms : ℕ) → Call
  hears : ControlFrame → (now_ms : ℕ) (random : Option ℕ) → Call
  advances : (now_ms : ℕ) (keys_released : Bool) → Call
  returns : ReturnReason → Call
  game_mode : Bool → Call
  sends : CriticalEvent → Call
  moves : (x y : ℤ) → Call
  pings : Call
  interferes : (requests : ℕ) → Call

pub new_with_override-InStep :
    (local_boot : BootId) (peer_id : String) (override : ℕ) (r : Runtime)
    → ControllerRuntime.new_with_override local_boot peer_id override ≡ ok r
    → InStep r
unfolding ControllerRuntime.new_with_override Controller.new Router.with_gate
new_with_override-InStep local_boot peer_id override r e = elim (Bool-cases (local_boot == 0)) [
  | inl bad ↦ cc (rw (bad, ControllerRuntime.new_with_override, Controller.new) at e)
  | inr good ↦ elim (Result-cases (validate_text peer_id max_peer_id_bytes "peer_id")) [
    | inr (x, q) ↦ cc (rw (good, q, ControllerRuntime.new_with_override, Controller.new) at e)
    | inl (u, q) ↦
        subst InStep
          (ok_same (rw (good, q, ControllerRuntime.new_with_override, Controller.new) at e)) refl
  ]
]

module _ {C F : Type 0} (port : CapturePort C) (focus : FocusPort F) where
  -- The runtime with the two ports.
  abbrev pub Desk : Type 0
  Desk = F × Handed C

  pub step : Call → Desk → Desk
  step (begins peer display revision now_ms) (f, h) =
      (f, (Control.begin port peer display revision now_ms h).0)
  step (hears frame now_ms random) (f, h) = (f, (handle_control port frame now_ms random h).0)
  step (advances now_ms keys_released) (f, h) =
      let called = Control.advance port focus now_ms keys_released f h in (called.0, called.1.0)
  step (returns reason) (f, h) = (f, (Control.go_local port reason h).0)
  step (game_mode enabled) (f, h) =
      (f, record h { runtime = ControllerRuntime.set_game_mode h.runtime enabled })
  step (sends event) (f, h) = (f, record h { runtime = (next_input event h.runtime).0 })
  step (moves x y) (f, h) = (f, record h { runtime = (next_motion x y h.runtime).0 })
  step pings (f, h) = (f, record h { runtime = (ControllerRuntime.send_ping h.runtime).0 })
  step (interferes requests) (f, h) =
      let router = h.runtime.router in
      (
        f,
        record h {
          runtime = record h.runtime {
            router = record router { gate = requested requests router.gate };
          };
        },
      )

  unfoldable pub run : List Call → Desk → Desk
  unfolding step
  run [] d = d
  run (c ∷ cs) d = run cs (step c d)

  step-InStep : (c : Call) (d : Desk) → InStep d.1.runtime → InStep (step c d).1.runtime
  unfolding step
  step-InStep (begins peer display revision now_ms) (f, h) m =
      begin-Keeps port peer display revision now_ms h m
  step-InStep (hears frame now_ms random) (f, h) m =
      handle_control-Keeps port frame now_ms random h m
  step-InStep (advances now_ms keys_released) (f, h) m =
      (advance_steps port focus now_ms keys_released f h m).0
  step-InStep (returns reason) (f, h) m = (go_local_steps port reason h m).0
  step-InStep (game_mode enabled) (f, h) m = home_game_mode h.runtime enabled m
  step-InStep (sends event) (f, h) m = next_input_keeps event h.runtime m
  step-InStep (moves x y) (f, h) m = next_motion_keeps x y h.runtime m
  step-InStep pings (f, h) m = send_ping_keeps h.runtime m
  step-InStep (interferes requests) (f, h) m = m

  calls-InStep : (cs : List Call) (d : Desk) → InStep d.1.runtime → InStep (run cs d).1.runtime
  unfolding run
  calls-InStep [] d m = m
  calls-InStep (c ∷ cs) d m = calls-InStep cs (step c d) (step-InStep c d m)

  -- A new runtime with the state of its ports.
  abbrev pub NewDesk : BootId → String → ℕ → Desk → Type 0
  NewDesk local_boot peer_id override d =
      ControllerRuntime.new_with_override local_boot peer_id override ≡ ok d.1.runtime

  -- Whatever the calls of a controller's runtime, in whatever order, whatever the frames it hears,
  -- the answers of the platform and the requests of other threads: the state of the router always
  -- goes with the state of the handshake and with the pending request and session. Both are idle, or
  -- both wait for the same offer, have the same offer, or wait for the acknowledgement of the same
  -- session, or have the same session.
  pub run-InStep :
      (local_boot : BootId) (peer_id : String) (override : ℕ) (d : Desk) (cs : List Call)
      → NewDesk local_boot peer_id override d
      → InStep (run cs d).1.runtime
  run-InStep local_boot peer_id override d cs made =
      calls-InStep cs d (new_with_override-InStep local_boot peer_id override d.1.runtime made)

  -- And, at every time, `advance` and `go_local` succeed: no effect that the router asks for is
  -- refused by the handshake.
  pub run_answers :
      (local_boot : BootId) (peer_id : String) (override : ℕ) (d : Desk) (cs : List Call)
      → NewDesk local_boot peer_id override d
      → let (f, h) = run cs d in
        ((now_ms : ℕ) (keys_released : Bool)
          → is_ok (Control.advance port focus now_ms keys_released f h).1.1 ≡ true)
        × ((reason : ReturnReason) → is_ok (Control.go_local port reason h).1 ≡ true)
  run_answers local_boot peer_id override d cs made =
      let (f, h) = run cs d in
      let m : InStep h.runtime = run-InStep local_boot peer_id override d cs made in
      (
        λ now_ms keys_released. (advance_steps port focus now_ms keys_released f h m).1,
        λ reason. (go_local_steps port reason h m).1,
      )
