-- ===== src/ControllerRuntime/Control.antt =====
-- The methods of src-tauri/src/controller_runtime.rs that are handed a capture port: `begin`, `handle_control`,
-- `advance` and `go_local`.
use mykvm.Base.{
  ℕ, Bool, not, Option, none, some, List, [], ◌∷◌, ◌++◌, map, String, if◌then◌else◌, nat_eq, Result,
  ok, err, ok_or, map_err,
}
use mykvm.Base.Methods.{Method, pure, ◌>>=◌, ◌>>◌, modify, lift, fail_when, cleaned}
use mykvm.Ports.{CapturePort, FocusPort}
use mykvm.Protocol.Types.{SessionId, session_beq, ControlFrame, invalid_transition, wrong_session}
use mykvm.Protocol.Controller
use mykvm.Protocol.Controller.{ControllerHandshake}
use mykvm.Routing.Types.{ReturnReason, emergency, network_failed, RouteEffect}
use mykvm.Routing.Router
use mykvm.Base.{is_nil}
use mykvm.ControllerRuntime.{
  ControllerAction, send_control, open_input, close_input, ControllerRuntimeError, route, protocol,
  not_active, Runtime, Local, forget, framed, aborted, is_active, session_token, route_effects,
  shake,
}

-- The runtime with the capture port that a method is handed.
pub record Handed (C : Type 0) : Type 0 where
  pub runtime : Runtime
  pub capture : C

abbrev pub Handling : Type 0 → Type 0 → Type 0
Handling C A = Method (Handed C) ControllerRuntimeError A

-- A method that does not use the port.
abbrev pub on_runtime : {C A : Type 0} → Local A → Handling C A
on_runtime m h = let r = m h.runtime in (record h { runtime = r.0 }, r.1)

abbrev pub first_request : List RouteEffect → Option ℕ
first_request (RouteEffect.prepare peer request ∷ es) = some request
first_request _ = none

abbrev pub router_ready : ℕ → SessionId → Local (Unit {0})
router_ready request session_id r =
    let ready = Router.ready r.router request (session_token session_id) in
    (record r { router = ready.0 }, map_err route ready.1)

abbrev pub pending_of : Runtime → Option (ℕ × SessionId)
pending_of r = elim r.pending_request [
  | none ↦ none
  | some request ↦ elim r.pending_session [ none ↦ none | some s ↦ some (request, s) ]
]

module _ {C : Type 0} (port : CapturePort C) where
  -- `self.router.go_local(reason, capture)`, its effects dropped.
  abbrev pub router_local : ReturnReason → Handed C → Handed C
  router_local reason h =
      let gone = Router.go_local port h.runtime.router reason h.capture in
      record { runtime = record h.runtime { router = gone.0 }; capture = gone.1 }

  unfoldable pub fail_local : Handed C → Handed C
  fail_local h =
      let gone = router_local network_failed h in
      record gone { runtime = forget (aborted gone.runtime) }

  -- `if let Ok(end) = self.handshake.end(..) { actions.push(..) }` of an active session.
  abbrev pub end_late : Runtime → Runtime × List ControllerAction
  end_late r =
      let ended = framed (λ h. Controller.end h "late-or-cancelled-ack") r in
      if is_active r
      then elim ended.1 [ ok action ↦ (ended.0, action ∷ []) | err e ↦ (r, []) ]
      else (r, [])

  unfoldable pub end_after_failed_ack : Handed C → Handed C × List ControllerAction
  end_after_failed_ack h =
      let ended = end_late h.runtime in
      let gone = router_local emergency (record h { runtime = ended.0 }) in
      (record gone { runtime = forget gone.runtime }, ended.1 ++ close_input ∷ [])

  abbrev pub go_remote : String → ℕ → Handling C (List RouteEffect)
  go_remote peer_id now_ms h =
      let (router, capture, result) =
        Router.go_remote port h.runtime.router peer_id now_ms h.capture in
      (
        record { runtime = record h.runtime { router = router }; capture = capture },
        map_err route result,
      )

  -- `begin` once the router prepares.
  abbrev pub begin_handshake : String → ℕ → ℕ → Handling C (List ControllerAction)
  begin_handshake target_display layout_revision request h =
      elim (Controller.begin h.runtime.handshake request target_display layout_revision) [
        | ok begun ↦ (
          record h {
            runtime = record h.runtime {
              handshake = begun.0;
              display = some (target_display, layout_revision);
            };
          },
          ok (map send_control begun.1),
        )
        | err e ↦ (
          router_local network_failed (record h { runtime = record h.runtime { display = none } }),
          err (protocol e),
        )
      ]

  -- `let Some(RouteEffect::Prepare { request, .. }) = .. else { return Ok(Vec::new()); }`.
  abbrev pub begin_request : String → ℕ → List RouteEffect → Handling C (List ControllerAction)
  begin_request target_display layout_revision effects h = elim (first_request effects) [
    | none ↦ (h, ok [])
    | some request ↦ begin_handshake target_display layout_revision request h
  ]

  unfoldable pub begin : String → String → ℕ → ℕ → Handling C (List ControllerAction)
  begin peer_id target_display layout_revision now_ms =
      go_remote peer_id now_ms >>= begin_request target_display layout_revision

  -- The arm for `Ready`: whatever fails, `fail_local` follows.
  unfoldable pub handle_ready : ControlFrame → Option ℕ → Handling C (List ControllerAction)
  unfolding fail_local
  handle_ready frame random = cleaned fail_local (do
    on_runtime (shake frame random)
    known ←
        lift (λ h.
          ok_or (Controller.prepared_session h.runtime.handshake) (protocol invalid_transition))
    on_runtime
        (modify (λ r. record r { pending_request = some known.0; pending_session = some known.1 }))
    on_runtime (router_ready known.0 known.1)
    pure [])

  -- The router's acknowledgement, and what follows it.
  abbrev pub acknowledge : ℕ → SessionId → ℕ → Handling C (List ControllerAction)
  acknowledge request session_id now_ms h =
      let (router, capture, result) =
        Router.commit_ack port h.runtime.router request (session_token session_id) now_ms
          h.capture in
      let acked : Handed C = record {
        runtime = record h.runtime { router = router };
        capture = capture;
      } in
      elim result [
        | err e ↦
            let ended = end_after_failed_ack acked in
            (ended.0, if is_nil ended.1 then err (route e) else ok ended.1)
        | ok _ ↦ (
          record acked {
            runtime = record acked.runtime {
              pending_request = none;
              input_sequence = 0;
              motion_sequence = 0;
            };
          },
          ok (open_input session_id ∷ []),
        )
      ]

  unfoldable pub handle_commit_ack :
      SessionId → ControlFrame → Option ℕ → ℕ → Handling C (List ControllerAction)
  unfolding fail_local end_after_failed_ack
  handle_commit_ack session_id frame random now_ms = do
    pending ← lift (λ h. ok_or (pending_of h.runtime) not_active)
    cleaned fail_local (do
      fail_when (λ h. not (session_beq pending.1 session_id)) (protocol wrong_session)
      on_runtime (shake frame random))
    acknowledge pending.0 session_id now_ms

  unfoldable pub handle_control : ControlFrame → ℕ → Option ℕ → Handling C (List ControllerAction)
  unfolding fail_local handle_ready handle_commit_ack
  handle_control (ControlFrame.ready request boot input_ready display revision) now_ms random h =
      handle_ready (ControlFrame.ready request boot input_ready display revision) random h
  handle_control (ControlFrame.commit_ack session_id) now_ms random h =
      handle_commit_ack session_id (ControlFrame.commit_ack session_id) random now_ms h
  handle_control (ControlFrame.pong session_id sequence highest) now_ms random h =
      cleaned fail_local
        (on_runtime (shake (ControlFrame.pong session_id sequence highest) random) >> pure []) h
  handle_control (ControlFrame.reject code detail) now_ms random h = (
    fail_local (on_runtime (shake (ControlFrame.reject code detail) random) h).0,
    err (protocol invalid_transition),
  )
  handle_control _ now_ms random h = (fail_local h, err (protocol invalid_transition))

  unfoldable pub go_local : ReturnReason → Handling C (List ControllerAction)
  unfolding route_effects
  go_local reason h =
      let (router, capture, effects) = Router.go_local port h.runtime.router reason h.capture in
      on_runtime (route_effects effects)
        (record { runtime = record h.runtime { router = router }; capture = capture })

  -- `advance`, with the new state of the focus port.
  unfoldable pub advance :
      {F : Type 0}
      → FocusPort F
      → ℕ
      → Bool
      → F
      → Handed C
      → F × (Handed C × Result ControllerRuntimeError (List ControllerAction))
  unfolding route_effects
  advance focus now_ms keys_released f h =
      let (router, capture, f', effects) =
        Router.advance port focus h.runtime.router now_ms keys_released h.capture f in
      (
        f',
        on_runtime (route_effects effects)
            (record { runtime = record h.runtime { router = router }; capture = capture }),
      )
