-- ===== src/ControllerClient/Pings.antt =====
-- `poll_ping` of src-tauri/src/controller_client.rs keeps a ping scheduled.
use mykvm.Base.{
  ℕ, ◌≡◌, ◌<◌, ◌+◌, ◌^◌, refl, inl, inr, true, some, [], ◌∷◌, Result, ok, err, map_err, Bool-cases,
  ltb, arith, saturating_add,
}
use mykvm.Ports.{CapturePort}
use mykvm.ControllerRuntime
use mykvm.ControllerRuntime.{ControllerAction, is_active}
use mykvm.ControllerRuntime.Control.{on_runtime}
use mykvm.ControllerClient.{
  ControllerTransport, ControllerClientError, runtime, Client, Driving, apply, schedule,
  send_action, ping_now, poll_ping, due, ping_interval_ms,
}

module _ {T C : Type 0} where
  -- A ping is due later than at `now_ms`.
  abbrev pub Scheduled : ℕ → Client T C × Result ControllerClientError (Unit {0}) → Type 0
  Scheduled now_ms (c, ok u) = (d : ℕ) × (c.next_ping_ms ≡ some d) × (now_ms < d)
  Scheduled now_ms (c, err e) = Unit {0}

  then-Scheduled :
      {A : Type 0} (now_ms : ℕ) (u : Client T C × Result ControllerClientError A)
      (k : A → Driving T C (Unit {0}))
      → ((a : A) (c : Client T C) → Scheduled now_ms (k a c))
      → Scheduled now_ms (elim u.1 [ ok a ↦ k a u.0 | err e ↦ (u.0, err e) ])
  then-Scheduled now_ms (c, ok a) k later = later a c
  then-Scheduled now_ms (c, err e) k later = tt

later :
    (now_ms : ℕ)
    → now_ms + ping_interval_ms < 2 ^ 64
    → now_ms < saturating_add now_ms ping_interval_ms
later now_ms early = ground arith

module _ {T C : Type 0} (wire : ControllerTransport T) (port : CapturePort C) where
  ping_now-Scheduled :
      (now_ms : ℕ) (c : Client T C)
      → now_ms + ping_interval_ms < 2 ^ 64
      → Scheduled now_ms (ping_now wire port now_ms c)
  ping_now-Scheduled now_ms c early =
      let pinged = on_runtime ControllerRuntime.send_ping c.handed in
      then-Scheduled now_ms (record c { handed = pinged.0 }, map_err runtime pinged.1)
        (send_action wire port now_ms)
        (λ action c.
          then-Scheduled now_ms (apply wire port (action ∷ []) c) (λ u. schedule wire port now_ms)
            (λ u c. (saturating_add now_ms ping_interval_ms, refl, later now_ms early)))

  -- While a session is active, a call of `poll_ping` that succeeds leaves a ping scheduled for later
  -- than the call, at any time that the clock can show with the interval added.
  pub poll_ping-Scheduled :
      (now_ms : ℕ) (c : Client T C)
      → is_active c.handed.runtime ≡ true
      → now_ms + ping_interval_ms < 2 ^ 64
      → Scheduled now_ms (poll_ping wire port now_ms c)
  unfolding poll_ping
  poll_ping-Scheduled now_ms c on early =
      rw (on, poll_ping)
        (elim (Bool-cases (ltb now_ms (due wire port c now_ms))) [
          | inl waits ↦ rw waits (due wire port c now_ms, refl, ground arith)
          | inr late ↦ rw late (
              ping_now-Scheduled now_ms (record c { next_ping_ms = some (due wire port c now_ms) })
                early)
        ])
