-- ===== src/ControllerClient.antt =====
-- `ControllerClient` of src-tauri/src/controller_client.rs: the controller's runtime between the transport
-- and the frames that arrive. What a method is handed is the capture port; `random` is what
-- `SystemRandom` gives while the first, the second, .. frame of a poll is handled.
pub mod Calls
pub mod Sound
pub mod Pings
pub mod Histories
use mykvm.Base.{
  ℕ, zero, suc, ◌+◌, Bool, true, false, not, ◌&&◌, Option, none, some, List, [], ◌∷◌, ◌++◌, String,
  ltb, ℤ, if◌then◌else◌, Result, ok, err, map_err, string_beq, saturating_add, length,
}
use mykvm.Base.Methods.{Method, pure, ◌>>=◌, ◌>>◌, modify, fail_when}
use mykvm.Ports.{CapturePort, FocusPort}
use mykvm.Protocol.Types.{BootId, CriticalEvent, CriticalFrame, MotionFrame, ControlFrame}
use mykvm.Routing.Types.{ReturnReason, network_failed, RouteError}
use mykvm.ControllerRuntime
use mykvm.ControllerRuntime.{
  ControllerAction, send_control, open_input, close_input, ControllerRuntimeError, Runtime, route,
  can_begin, is_active, next_input, next_motion,
}
use mykvm.ControllerRuntime.Control
use mykvm.ControllerRuntime.Control.{Handed, Handling, on_runtime, handle_control}

abbrev pub inbound_control_frames : ℕ
inbound_control_frames = 64

abbrev pub ping_interval_ms : ℕ
ping_interval_ms = 1000

abbrev pub controller_mode_enabled : String → String → Bool
controller_mode_enabled machine_role input_mode =
    string_beq machine_role "server" && string_beq input_mode "control"

pub record ControllerTarget : Type 0 where
  pub peer_id : String
  pub addr : String
  pub protocol_version : ℕ
  pub target_display : String
  pub layout_revision : ℕ

-- What a transport answers, with its new state.
abbrev pub Answer : Type 0 → Type 0
Answer T = T × Result String (Unit {0})

pub record ControllerTransport (T : Type 0) : Type 0 where
  pub connect : ControllerTarget → T → Answer T
  pub send_control : ControlFrame → T → Answer T
  pub open_input : T → Answer T
  pub send_input : CriticalFrame → T → Answer T
  pub send_motion : MotionFrame → T → Answer T
  pub disconnect : T → T

pub data ControllerClientError : Type 0 where
  runtime : ControllerRuntimeError → ControllerClientError
  transport : String → ControllerClientError
  inbound_overflow : ControllerClientError

pub record Client (T C : Type 0) : Type 0 where
  pub handed : Handed C
  pub transport : T
  pub inbound : List ControlFrame
  pub overflowed : Bool
  pub next_ping_ms : Option ℕ

abbrev pub Driving : Type 0 → Type 0 → Type 0 → Type 0
Driving T C A = Method (Client T C) ControllerClientError A

-- `ControllerInbox::offer`, by the thread of the transport.
unfoldable pub offer : {T C : Type 0} → ControlFrame → Client T C → Client T C
offer frame c =
    if ltb (length c.inbound) inbound_control_frames
    then record c { inbound = c.inbound ++ frame ∷ [] }
    else record c { overflowed = true }

abbrev pub clear_inbound : {T C : Type 0} → Client T C → Client T C
clear_inbound c = record c { overflowed = false; inbound = [] }

-- A method of the runtime, its error not handled further.
abbrev pub on_handed : {T C A : Type 0} → Handling C A → Driving T C A
on_handed m c = let r = m c.handed in (record c { handed = r.0 }, map_err runtime r.1)

unfoldable pub set_game_mode : {T C : Type 0} → Bool → Client T C → Client T C
set_game_mode enabled c = record c {
  handed = record c.handed { runtime = ControllerRuntime.set_game_mode c.handed.runtime enabled };
}

unfoldable pub new_with_override :
    {T C : Type 0}
    → T
    → BootId
    → String
    → (local_override : ℕ) → C
    → Result ControllerClientError (Client T C)
new_with_override t local_boot local_peer_id local_override capture =
    elim (ControllerRuntime.new_with_override local_boot local_peer_id local_override) [
      | err e ↦ err (runtime e)
      | ok r ↦ ok (record {
        handed = record { runtime = r; capture = capture };
        transport = t;
        inbound = [];
        overflowed = false;
        next_ping_ms = none;
      })
    ]

module _ {T C : Type 0} (wire : ControllerTransport T) (port : CapturePort C) where
  abbrev pub disconnected : Client T C → Client T C
  disconnected c = record c { transport = wire.disconnect c.transport }

  -- The `for` loop of `fail_transport`: what cannot be sent is dropped.
  pub send_ends : List ControllerAction → T → T
  send_ends [] t = t
  send_ends (send_control frame ∷ actions) t = send_ends actions (wire.send_control frame t).0
  send_ends (_ ∷ actions) t = send_ends actions t

  unfoldable pub fail_transport : Client T C → Client T C
  unfolding send_ends
  fail_transport c =
      let gone = Control.go_local port network_failed c.handed in
      let sent : T = elim gone.1 [
        | ok actions ↦ send_ends actions c.transport
        | err e ↦ c.transport
      ] in
      record c { handed = gone.0; transport = wire.disconnect sent; next_ping_ms = none }

  abbrev pub perform : ControllerAction → T → Answer T
  perform (send_control frame) t = wire.send_control frame t
  perform (open_input session_id) t = wire.open_input t
  perform close_input t = (wire.disconnect t, ok tt)

  -- An answer of the transport; an error fails the client.
  abbrev pub answered : Answer T → Driving T C (Unit {0})
  answered (t, ok _) c = (record c { transport = t }, ok tt)
  answered (t, err e) c = (fail_transport (record c { transport = t }), err (transport e))

  unfoldable pub apply : List ControllerAction → Driving T C (Unit {0})
  unfolding fail_transport
  apply [] c = (c, ok tt)
  apply (action ∷ actions) c = (answered (perform action c.transport) >> apply actions) c

  -- A method of the runtime whose error is followed by `cleanup`.
  abbrev pub guarded : {A : Type 0} → (Client T C → Client T C) → Handling C A → Driving T C A
  guarded cleanup m c =
      let r = m c.handed in
      let c' : Client T C = record c { handed = r.0 } in
      elim r.1 [ ok a ↦ (c', ok a) | err e ↦ (cleanup c', err (runtime e)) ]

  abbrev pub due : Client T C → ℕ → ℕ
  due c now_ms = elim c.next_ping_ms [ none ↦ saturating_add now_ms ping_interval_ms | some d ↦ d ]

  abbrev pub schedule : ℕ → Driving T C (Unit {0})
  schedule now_ms =
      modify (λ c. record c { next_ping_ms = some (saturating_add now_ms ping_interval_ms) })

  abbrev pub send_action : ℕ → ControllerAction → Driving T C (Unit {0})
  send_action now_ms action = apply (action ∷ []) >> schedule now_ms

  abbrev pub ping_now : ℕ → Driving T C (Unit {0})
  ping_now now_ms = on_handed (on_runtime ControllerRuntime.send_ping) >>= send_action now_ms

  -- `poll_ping` once it is known when a ping is due.
  abbrev pub ping_at : ℕ → ℕ → Driving T C (Unit {0})
  ping_at d now_ms c =
      let waiting : Client T C = record c { next_ping_ms = some d } in
      if ltb now_ms d then (waiting, ok tt) else ping_now now_ms waiting

  unfoldable pub poll_ping : ℕ → Driving T C (Unit {0})
  unfolding apply
  poll_ping now_ms c =
      if not (is_active c.handed.runtime)
      then (record c { next_ping_ms = none }, ok tt)
      else ping_at (due c now_ms) now_ms c
