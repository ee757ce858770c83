-- ===== src/ControllerClient/Sound/Calls.antt =====
-- The public methods of `ControllerClient` (src-tauri/src/controller_client.rs) leave it sound.
use mykvm.Base.{
  ℕ, ℤ, suc, ◌≤◌, refl, inl, inr, Bool, false, Option, none, List, [], ◌∷◌, Result, ok, err,
  map_err, length, Bool-cases, arith,
}
use mykvm.Base.Methods.{◌>>=◌, ◌>>◌, modify}
use mykvm.Ports.{CapturePort, FocusPort}
use mykvm.Protocol.Types.{ControlFrame, CriticalEvent, MotionFrame}
use mykvm.Routing.Types.{ReturnReason}
use mykvm.ControllerRuntime.{ControllerAction, can_begin, next_input, next_motion}
use mykvm.ControllerRuntime.Control
use mykvm.ControllerRuntime.Control.{Handed, Handling, on_runtime, handle_control}
use mykvm.ControllerRuntime.Lockstep.Calls.{advance_steps, go_local_steps}
use mykvm.ControllerRuntime.Lockstep.Arms.{handle_control-Keeps, begin-Keeps}
use mykvm.ControllerRuntime.Lockstep.Sends.{next_input_keeps, next_motion_keeps}
use mykvm.ControllerClient.{
  ControllerTarget, ControllerTransport, Answer, ControllerClientError, runtime, transport, Client,
  inbound_control_frames, clear_inbound, disconnected, fail_transport, answered, apply, guarded,
  poll_ping,
}
use mykvm.ControllerClient.Calls
use mykvm.ControllerClient.Calls.{
  connected, carry_out, begin_runtime, begin_fresh, drain, advanced, after_drain, poll, send_input,
  send_moved, send_motion, local_actions,
}
use mykvm.ControllerClient.Sound.{
  Inv, Stopped, Sound, Keeps, bind-Sound, on_handed-Sound, fail_transport-Inv, answered-Sound,
  apply-Sound, guarded-Sound, poll_ping-Sound,
}

module _ {T C : Type 0} (wire : ControllerTransport T) (port : CapturePort C) where
  pub carry_out-Sound :
      (now_ms : ℕ) (actions : List ControllerAction) → Keeps (carry_out wire port now_ms actions)
  carry_out-Sound now_ms actions c inv =
      bind-Sound (apply wire port actions c) (λ u. poll_ping wire port now_ms)
        (apply-Sound wire port actions c inv) (λ u. poll_ping-Sound wire port now_ms)

  connect-Sound :
      (a : Answer T) (c : Client T C)
      → Inv c
      → Stopped c
      → Sound {A = Unit {0}} (record c { transport = a.0 }, map_err transport a.1)
  connect-Sound (t, ok u) c inv stopped = inv
  connect-Sound (t, err e) c inv stopped = (inv, stopped)

  begin_runtime-Sound :
      (target : ControllerTarget) (now_ms : ℕ) → Keeps (begin_runtime wire port target now_ms)
  begin_runtime-Sound target now_ms c (m, short) =
      guarded-Sound wire port (disconnected wire port) (λ c inv. inv)
        (Control.begin port target.peer_id target.target_display target.layout_revision now_ms) c
        (begin-Keeps port target.peer_id target.target_display target.layout_revision now_ms
          c.handed m)
        short

  pub begin-Sound :
      (target : ControllerTarget) (now_ms : ℕ) → Keeps (Calls.begin wire port target now_ms)
  unfolding Calls.begin
  begin-Sound target now_ms c (m, short) = elim (Bool-cases (can_begin c.handed.runtime)) [
    | inr busy ↦ rw (busy, Calls.begin) (m, short)
    | inl free ↦
        let c' : Client T C = record (clear_inbound c) { next_ping_ms = none } in
        rw (free, Calls.begin)
          (bind-Sound (connected wire port target c')
            (λ u. begin_runtime wire port target now_ms >>= carry_out wire port now_ms)
            (connect-Sound (wire.connect target c'.transport) c' (m, omega arith) (free, refl))
            (λ u c inv.
              bind-Sound (begin_runtime wire port target now_ms c) (carry_out wire port now_ms)
                (begin_runtime-Sound target now_ms c inv) (carry_out-Sound now_ms)))
  ]

  pub drain-Sound :
      (frames : List ControlFrame) (now_ms : ℕ) (random : ℕ → Option ℕ)
      → length frames ≤ inbound_control_frames
      → Keeps (drain wire port frames now_ms random)
  unfolding drain
  drain-Sound [] now_ms random few c inv = inv
  drain-Sound (frame ∷ frames) now_ms random few c (m, short) =
      let fewer : length frames ≤ inbound_control_frames = omega arith in
      bind-Sound
        (guarded wire port (disconnected wire port) (handle_control port frame now_ms (random 0))
          (record c { inbound = frames }))
        (λ actions. apply wire port actions >> drain wire port frames now_ms (λ n. random (suc n)))
        (guarded-Sound wire port (disconnected wire port) (λ c inv. inv)
          (handle_control port frame now_ms (random 0)) (record c { inbound = frames })
          (handle_control-Keeps port frame now_ms (random 0) c.handed m) fewer)
        (λ actions c inv.
          bind-Sound (apply wire port actions c)
            (λ u. drain wire port frames now_ms (λ n. random (suc n)))
            (apply-Sound wire port actions c inv)
            (λ u. drain-Sound frames now_ms (λ n. random (suc n)) fewer))

  pub send_input-Sound : (event : CriticalEvent) → Keeps (send_input wire port event)
  unfolding send_input
  send_input-Sound event c (m, short) =
      let made = on_runtime (next_input event) c.handed in
      bind-Sound (record c { handed = made.0 }, map_err runtime made.1)
        (λ frame c. answered wire port (wire.send_input frame c.transport) c)
        (on_handed-Sound made c (next_input_keeps event c.handed.runtime m) short)
        (λ frame c inv. answered-Sound wire port (wire.send_input frame c.transport) c inv)

  send_moved-Sound : (frame : MotionFrame) → Keeps (send_moved wire port frame)
  send_moved-Sound frame c inv =
      bind-Sound (answered wire port (wire.send_motion frame c.transport) c)
        (λ u c. (c, ok frame.sequence))
        (answered-Sound wire port (wire.send_motion frame c.transport) c inv) (λ u c inv. inv)

  pub send_motion-Sound : (x y : ℤ) → Keeps (send_motion wire port x y)
  unfolding send_motion
  send_motion-Sound x y c (m, short) =
      let made = on_runtime (next_motion x y) c.handed in
      bind-Sound (record c { handed = made.0 }, map_err runtime made.1) (send_moved wire port)
        (on_handed-Sound made c (next_motion_keeps x y c.handed.runtime m) short) send_moved-Sound

  pub go_local-Sound : (reason : ReturnReason) → Keeps (Calls.go_local wire port reason)
  unfolding Calls.go_local
  go_local-Sound reason c (m, short) =
      let gone = Control.go_local port reason c.handed in
      bind-Sound (record c { handed = gone.0 }, map_err runtime gone.1) (local_actions wire port)
        (on_handed-Sound gone c (go_local_steps port reason c.handed m).0 short)
        (λ actions c inv.
          bind-Sound (apply wire port actions c)
            (λ u. modify (λ c. record c { next_ping_ms = none }))
            (apply-Sound wire port actions c inv) (λ u c inv. inv))

  module _ {F : Type 0} (focus : FocusPort F) where
    advanced-Sound :
        (now_ms : ℕ) (keys_released : Bool) (f : F) (c : Client T C)
        → Inv c
        → Sound (advanced wire port focus now_ms keys_released f c).1
    advanced-Sound now_ms keys_released f c (m, short) =
        let called = Control.advance port focus now_ms keys_released f c.handed in
        bind-Sound (guarded wire port (fail_transport wire port) (λ h. called.1) c)
          (carry_out wire port now_ms)
          (guarded-Sound wire port (fail_transport wire port)
            (λ c inv. (fail_transport-Inv wire port c inv).0) (λ h. called.1) c
            (advance_steps port focus now_ms keys_released f c.handed m).0 short)
          (carry_out-Sound now_ms)

    after_drain-Sound :
        (now_ms : ℕ) (keys_released : Bool) (f : F)
        (r : Client T C × Result ControllerClientError (Unit {0}))
        → Sound r
        → Sound (after_drain wire port focus now_ms keys_released f r).1
    after_drain-Sound now_ms keys_released f (c, ok u) s = advanced-Sound now_ms keys_released f c s
    after_drain-Sound now_ms keys_released f (c, err e) s = s

    pub poll-Sound :
        (now_ms : ℕ) (keys_released : Bool) (random : ℕ → Option ℕ) (f : F) (c : Client T C)
        → Inv c
        → Sound (poll wire port focus now_ms keys_released random f c).1
    unfolding poll
    poll-Sound now_ms keys_released random f c (m, short) = elim (Bool-cases c.overflowed) [
      | inl full ↦
          rw (full, poll)
            (fail_transport-Inv wire port (record c { overflowed = false }) (m, short))
      | inr fits ↦
          rw (fits, poll)
            (let c' : Client T C = record c { overflowed = false } in
              after_drain-Sound now_ms keys_released f (drain wire port c.inbound now_ms random c')
                (drain-Sound c.inbound now_ms random short c' (m, short)))
    ]
