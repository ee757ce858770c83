-- ===== src/ControllerClient/Calls.antt =====
-- The public methods of `ControllerClient` (src-tauri/src/controller_client.rs) that are handed the ports.
use mykvm.Base.{
  ℕ, suc, Bool, false, not, Option, none, List, [], ◌∷◌, ℤ, if◌then◌else◌, Result, ok, err, map_err,
}
use mykvm.Base.Methods.{pure, ◌>>=◌, ◌>>◌, modify}
use mykvm.Ports.{CapturePort, FocusPort}
use mykvm.Protocol.Types.{CriticalEvent, MotionFrame, ControlFrame}
use mykvm.Routing.Types.{ReturnReason, busy}
use mykvm.ControllerRuntime.{ControllerAction, route, can_begin, next_input, next_motion}
use mykvm.ControllerRuntime.Control
use mykvm.ControllerRuntime.Control.{Handed, on_runtime, handle_control}
use mykvm.ControllerClient.{
  ControllerTarget, ControllerTransport, ControllerClientError, runtime, transport,
  inbound_overflow, Client, Driving, clear_inbound, on_handed, disconnected, fail_transport,
  answered, apply, guarded, poll_ping,
}

module _ {T C : Type 0} (wire : ControllerTransport T) (port : CapturePort C) where
  -- `self.transport.connect(..).map_err(ControllerClientError::Transport)?`.
  abbrev pub connected : ControllerTarget → Driving T C (Unit {0})
  connected target c =
      let answer = wire.connect target c.transport in
      (record c { transport = answer.0 }, map_err transport answer.1)

  -- What `begin` and `poll` end with.
  abbrev pub carry_out : ℕ → List ControllerAction → Driving T C (Unit {0})
  carry_out now_ms actions = apply wire port actions >> poll_ping wire port now_ms

  -- `begin` of the runtime; when it fails the transport is disconnected.
  abbrev pub begin_runtime : ControllerTarget → ℕ → Driving T C (List ControllerAction)
  begin_runtime target now_ms =
      guarded wire port (disconnected wire port)
        (Control.begin port target.peer_id target.target_display target.layout_revision now_ms)

  abbrev pub begin_fresh : ControllerTarget → ℕ → Driving T C (Unit {0})
  begin_fresh target now_ms = connected target >> (begin_runtime target now_ms >>= carry_out now_ms)

  unfoldable pub begin : ControllerTarget → ℕ → Driving T C (Unit {0})
  begin target now_ms c =
      if not (can_begin c.handed.runtime)
      then (c, err (runtime (route busy)))
      else begin_fresh target now_ms (record (clear_inbound c) { next_ping_ms = none })

  -- The `loop` of `poll`, over the frames that have arrived. The client has a sender of its own inbox, so
  -- that the inbox is never disconnected.
  unfoldable pub drain : List ControlFrame → ℕ → (ℕ → Option ℕ) → Driving T C (Unit {0})
  unfolding apply
  drain [] now_ms random c = (c, ok tt)
  drain (frame ∷ frames) now_ms random c =
      (guarded wire port (disconnected wire port) (handle_control port frame now_ms (random 0))
          >>= λ actions. apply wire port actions >> drain frames now_ms (λ n. random (suc n)))
        (record c { inbound = frames })

  module _ {F : Type 0} (focus : FocusPort F) where
    -- The rest of `poll`, with the new state of the focus port.
    abbrev pub advanced :
        ℕ → Bool → F → Client T C → F × (Client T C × Result ControllerClientError (Unit {0}))
    advanced now_ms keys_released f c =
        let called = Control.advance port focus now_ms keys_released f c.handed in
        (
          called.0,
          (guarded wire port (fail_transport wire port) (λ h. called.1) >>= carry_out now_ms) c,
        )

    abbrev pub after_drain :
        ℕ
        → Bool
        → F
        → Client T C × Result ControllerClientError (Unit {0})
        → F × (Client T C × Result ControllerClientError (Unit {0}))
    after_drain now_ms keys_released f (c, err e) = (f, (c, err e))
    after_drain now_ms keys_released f (c, ok _) = advanced now_ms keys_released f c

    unfoldable pub poll :
        ℕ
        → Bool
        → (ℕ → Option ℕ)
        → F
        → Client T C
        → F × (Client T C × Result ControllerClientError (Unit {0}))
    unfolding drain apply poll_ping fail_transport
    poll now_ms keys_released random f c =
        if c.overflowed
        then (f, (fail_transport wire port (record c { overflowed = false }), err inbound_overflow))
        else after_drain now_ms keys_released f (drain c.inbound now_ms random c)

  unfoldable pub send_input : CriticalEvent → Driving T C (Unit {0})
  send_input event = on_handed (on_runtime (next_input event)) >>= λ frame c.
      answered wire port (wire.send_input frame c.transport) c

  -- `send_motion`, with the sequence number that it returns.
  abbrev pub send_moved : MotionFrame → Driving T C ℕ
  send_moved frame =
      (λ (c : Client T C). answered wire port (wire.send_motion frame c.transport) c)
      >> pure frame.sequence

  unfoldable pub send_motion : ℤ → ℤ → Driving T C ℕ
  send_motion x y = on_handed (on_runtime (next_motion x y)) >>= send_moved

  abbrev pub local_actions : List ControllerAction → Driving T C (Unit {0})
  local_actions actions = apply wire port actions >> modify (λ c. record c { next_ping_ms = none })

  unfoldable pub go_local : ReturnReason → Driving T C (Unit {0})
  go_local reason = on_handed (Control.go_local port reason) >>= local_actions
