-- ===== src/ControllerClient/Histories.antt =====
-- Every call of `ControllerClient` (src-tauri/src/controller_client.rs), in any order, with frames that
-- arrive and requests for local control in between.
use mykvm.Base.{
  ℕ, ℤ, ◌≡◌, ◌≤◌, refl, sym, ap, subst, inl, inr, Bool, false, Option, List, [], ◌∷◌, String,
  Result, ok, err, length, Bool-cases, Result-cases, ltb, arith, length-append,
}
use mykvm.Ports.{CapturePort, FocusPort}
use mykvm.Protocol.Types.{BootId, ControlFrame, CriticalEvent}
use mykvm.Routing.Types.{ReturnReason, network_failed}
use mykvm.Routing.Gate.{requested}
use mykvm.ControllerRuntime
use mykvm.ControllerRuntime.{
  ControllerAction, ControllerRuntimeError, can_begin, next_input, next_motion,
}
use mykvm.ControllerRuntime.Lockstep.Calls.{go_local_home}
use mykvm.ControllerRuntime.Lockstep.Histories.{new_with_override-InStep}
use mykvm.ControllerRuntime.Lockstep.Arms.{home_game_mode}
use mykvm.ControllerClient.{
  ControllerTarget, ControllerTransport, Answer, ControllerClientError, runtime, transport,
  inbound_overflow, Client, Driving, inbound_control_frames, clear_inbound, on_handed, disconnected,
  fail_transport, answered, apply, guarded, poll_ping, offer, set_game_mode,
}
use mykvm.ControllerClient
use mykvm.ControllerClient.Calls
use mykvm.ControllerClient.Calls.{
  connected, carry_out, begin_runtime, begin_fresh, drain, advanced, after_drain, poll, send_input,
  send_moved, send_motion, local_actions,
}
use mykvm.ControllerClient.Sound.{Inv, Stopped, Sound}
use mykvm.ControllerClient.Sound.Calls.{
  begin-Sound, poll-Sound, send_input-Sound, send_motion-Sound, go_local-Sound,
}

pub data ClientCall : Type 0 where
  begins : ControllerTarget → (now_ms : ℕ) → ClientCall
  polls : (now_ms : ℕ) (keys_released : Bool) (random : ℕ → Option ℕ) → ClientCall
  sends : CriticalEvent → ClientCall
  moves : (x y : ℤ) → ClientCall
  returns : ReturnReason → ClientCall
  game_mode : Bool → ClientCall
  arrives : ControlFrame → ClientCall
  interferes : (requests : ℕ) → ClientCall

-- The number that `send_motion` returns is dropped.
abbrev forget_number :
    {T C : Type 0}
    → Client T C × Result ControllerClientError ℕ
    → Client T C × Result ControllerClientError (Unit {0})
forget_number (c, ok n) = (c, ok tt)
forget_number (c, err e) = (c, err e)

forget_number-Sound :
    {T C : Type 0} (u : Client T C × Result ControllerClientError ℕ)
    → Sound u
    → Sound (forget_number u)
forget_number-Sound (c, ok n) s = s
forget_number-Sound (c, err (runtime e)) s = s
forget_number-Sound (c, err (transport e)) s = s
forget_number-Sound (c, err inbound_overflow) s = s

offer-Inv : {T C : Type 0} (frame : ControlFrame) (c : Client T C) → Inv c → Inv (offer frame c)
unfolding offer
offer-Inv frame c (m, short) = elim (Bool-cases (ltb (length c.inbound) inbound_control_frames)) [
  | inl room ↦ rw room (
    m,
    subst (λ n. n ≤ inbound_control_frames) (sym (length-append c.inbound (frame ∷ [])))
        (ground arith),
  )
  | inr full ↦ rw full (m, short)
]

client_same :
    {T C : Type 0} {a b : Client T C}
    → ◌≡◌ {A = Result ControllerClientError (Client T C)} (ok a) (ok b)
    → a ≡ b
client_same {T} {C} {a} e = ap (λ o. elim o as (λ _. Client T C) [ ok c ↦ c | err x ↦ a ]) e

new_client-Inv :
    {T C : Type 0} (t : T) (capture : C) (local_boot : BootId) (peer_id : String) (override : ℕ)
    (c : Client T C)
    → ControllerClient.new_with_override t local_boot peer_id override capture ≡ ok c
    → Inv c
unfolding ControllerClient.new_with_override
new_client-Inv t capture local_boot peer_id override c e =
    elim (Result-cases (ControllerRuntime.new_with_override local_boot peer_id override)) [
      | inr (x, q) ↦ cc (rw (q, ControllerClient.new_with_override) at e)
      | inl (r, q) ↦
          subst Inv (client_same (rw (q, ControllerClient.new_with_override) at e))
            (new_with_override-InStep local_boot peer_id override r q, omega arith)
    ]

module _ {T C F : Type 0} (wire : ControllerTransport T) (port : CapturePort C)
    (focus : FocusPort F) where
  -- The client with the focus port.
  abbrev pub World : Type 0
  World = F × Client T C

  abbrev pub Outcome : Type 0
  Outcome = F × (Client T C × Result ControllerClientError (Unit {0}))

  unfoldable pub call : ClientCall → World → Outcome
  call (begins target now_ms) (f, c) = (f, Calls.begin wire port target now_ms c)
  call (polls now_ms keys_released random) (f, c) =
      poll wire port focus now_ms keys_released random f c
  call (sends event) (f, c) = (f, send_input wire port event c)
  call (moves x y) (f, c) = (f, forget_number (send_motion wire port x y c))
  call (returns reason) (f, c) = (f, Calls.go_local wire port reason c)
  call (game_mode enabled) (f, c) = (f, (set_game_mode enabled c, ok tt))
  call (arrives frame) (f, c) = (f, (offer frame c, ok tt))
  call (interferes requests) (f, c) =
      let r = c.handed.runtime in
      let router = record r.router { gate = requested requests r.router.gate } in
      (f, (record c { handed = record c.handed { runtime = record r { router = router } } }, ok tt))

  unfoldable pub run : List ClientCall → World → World
  unfolding call
  run [] w = w
  run (x ∷ xs) w = let done = call x w in run xs (done.0, done.1.0)

  pub call-Sound : (x : ClientCall) (w : World) → Inv w.1 → Sound (call x w).1
  unfolding call set_game_mode
  call-Sound (begins target now_ms) (f, c) inv = begin-Sound wire port target now_ms c inv
  call-Sound (polls now_ms keys_released random) (f, c) inv =
      poll-Sound wire port focus now_ms keys_released random f c inv
  call-Sound (sends event) (f, c) inv = send_input-Sound wire port event c inv
  call-Sound (moves x y) (f, c) inv =
      forget_number-Sound (send_motion wire port x y c) (send_motion-Sound wire port x y c inv)
  call-Sound (returns reason) (f, c) inv = go_local-Sound wire port reason c inv
  call-Sound (game_mode enabled) (f, c) (m, short) =
      (home_game_mode c.handed.runtime enabled m, short)
  call-Sound (arrives frame) (f, c) inv = offer-Inv frame c inv
  call-Sound (interferes requests) (f, c) inv = inv

  Sound-Inv : (u : Client T C × Result ControllerClientError (Unit {0})) → Sound u → Inv u.0
  Sound-Inv (c, ok u) s = s
  Sound-Inv (c, err (runtime e)) s = s
  Sound-Inv (c, err (transport e)) s = s.0
  Sound-Inv (c, err inbound_overflow) s = s.0

  run-Inv_lem : (xs : List ClientCall) (w : World) → Inv w.1 → Inv (run xs w).1
  unfolding run
  run-Inv_lem [] w inv = inv
  run-Inv_lem (x ∷ xs) w inv =
      let done = call x w in
      run-Inv_lem xs (done.0, done.1.0) (Sound-Inv done.1 (call-Sound x w inv))

  -- A new client with the state of its ports.
  abbrev pub NewClient : T → C → BootId → String → ℕ → World → Type 0
  NewClient t capture local_boot peer_id override w =
      ControllerClient.new_with_override t local_boot peer_id override capture ≡ ok w.1

  -- Whatever the calls of a controller's client, in whatever order, whatever the frames that arrive
  -- and the answers of the transport and the platform: after every further call the router and the
  -- handshake go together and the inbox is within its bound; and when the call fails because of the
  -- transport or of a full inbox, then local control is restored and no ping is scheduled.
  pub run-Sound :
      (t : T) (capture : C) (local_boot : BootId) (peer_id : String) (override : ℕ) (w : World)
      (xs : List ClientCall) (x : ClientCall)
      → NewClient t capture local_boot peer_id override w
      → Sound (call x (run xs w)).1
  run-Sound t capture local_boot peer_id override w xs x made =
      call-Sound x (run xs w)
        (run-Inv_lem xs w (new_client-Inv t capture local_boot peer_id override w.1 made))

  -- A frame that arrives while the inbox is full is not lost in silence: the next poll fails with
  -- `InboundOverflow`, local control is restored and no ping is scheduled.
  pub poll-offer :
      (frame : ControlFrame) (c : Client T C) (f : F) (now_ms : ℕ) (keys_released : Bool)
      (random : ℕ → Option ℕ)
      → length c.inbound ≡ inbound_control_frames
      → let done = (poll wire port focus now_ms keys_released random f (offer frame c)).1 in
        (done.1 ≡ err inbound_overflow) × Stopped done.0
  unfolding poll offer fail_transport
  poll-offer frame c f now_ms keys_released random full =
      let no_room : ltb (length c.inbound) inbound_control_frames ≡ false = ground arith in
      rw (no_room, poll, offer) (refl, (go_local_home port network_failed c.handed, refl))
