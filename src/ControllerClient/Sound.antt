-- ===== src/ControllerClient/Sound.antt =====
-- What the parts of `ControllerClient` (src-tauri/src/controller_client.rs) leave behind, errors included.
pub mod Calls
use mykvm.Base.{
  ℕ, ◌≡◌, ◌≤◌, refl, sym, ap, subst, inl, inr, Bool, true, false, not, Option, none, some, List, [],
  ◌∷◌, String, Result, ok, err, map_err, length, Bool-cases, Result-cases, ltb, arith,
}
use mykvm.Base.Methods.{◌>>=◌, ◌>>◌, modify}
use mykvm.Ports.{CapturePort}
use mykvm.Routing.Types.{network_failed}
use mykvm.Routing.Router.{at_home}
use mykvm.ControllerRuntime
use mykvm.ControllerRuntime.{ControllerAction, ControllerRuntimeError, is_active}
use mykvm.ControllerRuntime.Control
use mykvm.ControllerRuntime.Control.{Handed, Handling, on_runtime}
use mykvm.ControllerRuntime.Lockstep.{InStep}
use mykvm.ControllerRuntime.Lockstep.Calls.{go_local_steps, go_local_home}
use mykvm.ControllerRuntime.Lockstep.Sends.{send_ping_keeps}
use mykvm.ControllerClient.{
  ControllerTransport, Answer, ControllerClientError, runtime, transport, inbound_overflow, Client,
  Driving, inbound_control_frames, on_handed, disconnected, fail_transport, perform, answered,
  apply, guarded, ping_now, ping_at, schedule, send_action, poll_ping, due,
}

module _ {T C : Type 0} where
  -- The router and the handshake go together, and the inbox is within its bound.
  abbrev pub Inv : Client T C → Type 0
  Inv c = InStep c.handed.runtime × (length c.inbound ≤ inbound_control_frames)

  -- Local control, and no ping to come.
  abbrev pub Stopped : Client T C → Type 0
  Stopped c = (at_home c.handed.runtime.router.state ≡ true) × (c.next_ping_ms ≡ none)

  -- After a method: an error of the transport or of the inbox has stopped the client.
  abbrev pub Sound : {A : Type 0} → Client T C × Result ControllerClientError A → Type 0
  Sound (c, ok a) = Inv c
  Sound (c, err (runtime e)) = Inv c
  Sound (c, err (transport e)) = Inv c × Stopped c
  Sound (c, err inbound_overflow) = Inv c × Stopped c

  abbrev pub Keeps : {A : Type 0} → Driving T C A → Type 0
  Keeps m = (c : Client T C) → Inv c → Sound (m c)

  pub bind-Sound :
      {A B : Type 0} (u : Client T C × Result ControllerClientError A) (k : A → Driving T C B)
      → Sound u
      → ((a : A) → Keeps (k a))
      → Sound {A = B} (elim u.1 [ ok a ↦ k a u.0 | err e ↦ (u.0, err e) ])
  bind-Sound (c, ok a) k s later = later a c s
  bind-Sound (c, err (runtime e)) k s later = s
  bind-Sound (c, err (transport e)) k s later = s
  bind-Sound (c, err inbound_overflow) k s later = s

  pub on_handed-Sound :
      {A : Type 0} (r : Handed C × Result ControllerRuntimeError A) (c : Client T C)
      → InStep r.0.runtime
      → length c.inbound ≤ inbound_control_frames
      → Sound {A = A} (record c { handed = r.0 }, map_err runtime r.1)
  on_handed-Sound (h, ok a) c m short = (m, short)
  on_handed-Sound (h, err e) c m short = (m, short)

module _ {T C : Type 0} (wire : ControllerTransport T) (port : CapturePort C) where
  pub fail_transport-Inv :
      (c : Client T C)
      → Inv c
      → Inv (fail_transport wire port c) × Stopped (fail_transport wire port c)
  unfolding fail_transport
  fail_transport-Inv c (m, short) = (
    ((go_local_steps port network_failed c.handed m).0, short),
    (go_local_home port network_failed c.handed, refl),
  )

  pub answered-Sound : (a : Answer T) → Keeps (answered wire port a)
  answered-Sound (t, ok u) c inv = inv
  answered-Sound (t, err e) c inv = fail_transport-Inv (record c { transport = t }) inv

  pub apply-Sound : (actions : List ControllerAction) → Keeps (apply wire port actions)
  unfolding apply
  apply-Sound [] c inv = inv
  apply-Sound (action ∷ actions) c inv =
      bind-Sound (answered wire port (perform wire port action c.transport) c)
        (λ u. apply wire port actions) (answered-Sound _ c inv) (λ u. apply-Sound actions)

  pub guarded-Sound :
      {A : Type 0} (cleanup : Client T C → Client T C)
      → ((c : Client T C) → Inv c → Inv (cleanup c))
      → (m : Handling C A) (c : Client T C) → InStep (m c.handed).0.runtime
      → length c.inbound ≤ inbound_control_frames
      → Sound (guarded wire port cleanup m c)
  guarded-Sound {A} cleanup keeps m c step short = guard (m c.handed) step
    where
      guard :
          (r : Handed C × Result ControllerRuntimeError A)
          → InStep r.0.runtime
          → Sound (guarded wire port cleanup (λ h. r) c)
      guard (h, ok a) s = (s, short)
      guard (h, err e) s = keeps (record c { handed = h }) (s, short)

  ping_now-Sound : (now_ms : ℕ) → Keeps (ping_now wire port now_ms)
  ping_now-Sound now_ms c (m, short) =
      let pinged = on_runtime ControllerRuntime.send_ping c.handed in
      bind-Sound (record c { handed = pinged.0 }, map_err runtime pinged.1)
        (send_action wire port now_ms)
        (on_handed-Sound pinged c (send_ping_keeps c.handed.runtime m) short)
        (λ action c inv.
          bind-Sound (apply wire port (action ∷ []) c) (λ u. schedule wire port now_ms)
            (apply-Sound (action ∷ []) c inv) (λ u c inv. inv))

  pub poll_ping-Sound : (now_ms : ℕ) → Keeps (poll_ping wire port now_ms)
  unfolding poll_ping
  poll_ping-Sound now_ms c inv = elim (Bool-cases (is_active c.handed.runtime)) [
    | inr off ↦ rw (off, poll_ping) inv
    | inl on ↦
        rw (on, poll_ping)
          (elim (Bool-cases (ltb now_ms (due wire port c now_ms))) [
            | inl early ↦ rw early inv
            | inr late ↦ rw late (
                ping_now-Sound now_ms (record c { next_ping_ms = some (due wire port c now_ms) })
                  inv)
          ])
  ]
