-- ===== src/ControllerRuntime/Lockstep/Arms.antt =====
-- The calls of `ControllerRuntime` (src-tauri/src/controller_runtime.rs) that the handshake answers keep
-- it in step with the router.
use mykvm.Base.{
  ℕ, ◌≡◌, inl, inr, refl, sym, ap, subst, Bool, true, false, Option, none, List, [], String, Result,
  ok, err, is_ok, Bool-cases, Result-cases, map_err,
}
use mykvm.Base.Methods.{pure, ◌>>=◌, ◌>>◌}
use mykvm.Ports.{CapturePort}
use mykvm.Protocol.Types.{ControlFrame}
use mykvm.Protocol.Controller
use mykvm.Protocol.Controller.{
  ControllerHandshake, ControllerState, await_ready, prepared, await_commit_ack, active, ended,
}
use mykvm.Protocol.Controller.Replies.{pong_answer, begin_answer}
use mykvm.Routing.Types.{Preparing, RouteState, preparing_remote, RouteEffect, RouteError}
use mykvm.Routing.Router
use mykvm.Routing.Router.{at_home}
use mykvm.Routing.Router.Outcomes.{Departs, go_remote_outcome, local_home}
use mykvm.ControllerRuntime.{route, protocol, ControllerAction, Runtime, set_game_mode, shake}
use mykvm.ControllerRuntime.Control
use mykvm.ControllerRuntime.Control.{
  Handed, Handling, fail_local, on_runtime, router_local, router_ready, handle_ready, end_late,
  end_after_failed_ack, acknowledge, handle_commit_ack, handle_control,
}
use mykvm.ControllerRuntime.Lockstep.{Matched, InStep, home-Matched, Matched-may_begin}
use mykvm.ControllerRuntime.Lockstep.Calls.{Keeps, fail_local_steps}
use mykvm.ControllerRuntime.Lockstep.Frames.{cleaned-Keeps, handle_ready-Keeps}
use mykvm.ControllerRuntime.Lockstep.Acks.{handle_commit_ack-Keeps}

-- A method that changes only the counters of the handshake.
abbrev after_reply : {C : Type 0} → Controller.Reply → Handling C (List ControllerAction)
after_reply reply =
    on_runtime (λ r.
      (record r { handshake = reply.0 }, elim reply.1 [ ok _ ↦ ok tt | err e ↦ err (protocol e) ]))
    >> pure []

after_reply-Keeps :
    {C : Type 0} (reply : Controller.Reply) (h : Handed C)
    → InStep h.runtime
    → (is_ok reply.1 ≡ true → reply.0.state ≡ h.runtime.handshake.state)
    → is_ok (after_reply reply h).1 ≡ true
    → Keeps (after_reply reply h)
after_reply-Keeps (next, err e) h m same good = cc
after_reply-Keeps (next, ok o) h m same good =
    let r = h.runtime in
    subst (λ t. Matched r.router.state t r.pending_request r.pending_session) (sym (same refl)) m

pub home_game_mode : (r : Runtime) (enabled : Bool) → InStep r → InStep (set_game_mode r enabled)
unfolding set_game_mode Router.set_game_mode
home_game_mode r enabled m = elim (Bool-cases (at_home r.router.state)) [
  | inl home ↦ rw home (
      home-Matched (Router.local_state (record r.router { game_mode = enabled })) r.handshake.state
        r.pending_request r.pending_session (local_home (record r.router { game_mode = enabled }))
        (Matched-may_begin r.router.state r.handshake.state r.pending_request r.pending_session home
          m))
  | inr away ↦ rw away m
]

module _ {C : Type 0} (port : CapturePort C) where
  pub handle_control-Keeps :
      (frame : ControlFrame) (now_ms : ℕ) (random : Option ℕ) (h : Handed C)
      → InStep h.runtime
      → Keeps (handle_control port frame now_ms random h)
  unfolding handle_control
  handle_control-Keeps (ControlFrame.ready request boot input_ready display revision) now_ms random
        h m =
      handle_ready-Keeps port request boot input_ready display revision random h m
  handle_control-Keeps (ControlFrame.commit_ack s) now_ms random h m =
      handle_commit_ack-Keeps port s random now_ms h m
  handle_control-Keeps (ControlFrame.pong s sequence highest) now_ms random h m =
      let reply =
        Controller.handle h.runtime.handshake (ControlFrame.pong s sequence highest) random in
      cleaned-Keeps port (after_reply reply h)
        (after_reply-Keeps reply h m (pong_answer h.runtime.handshake s sequence highest random))
  handle_control-Keeps (ControlFrame.reject code detail) now_ms random h m =
      fail_local_steps port (on_runtime (shake (ControlFrame.reject code detail) random) h).0
  handle_control-Keeps _ now_ms random h m = fail_local_steps port h

  -- The handshake has begun, or the router is back at home.
  begin_handshake-Keeps :
      (p : Preparing) (display : String) (revision : ℕ) (h : Handed C)
      → h.runtime.router.state ≡ preparing_remote p
      → p.session ≡ none
      → p.commit_sent ≡ false
      → Controller.may_begin h.runtime.handshake.state ≡ true
      → Keeps (Control.begin_handshake port display revision p.request h)
  unfolding Router.go_local
  begin_handshake-Keeps p display revision h there absent unsent free =
      let r = h.runtime in
      elim (Result-cases (Controller.begin r.handshake p.request display revision)) [
        | inl (begun, q) ↦
            rw (q, Control.begin_handshake)
              (subst (λ t. Matched t begun.0.state r.pending_request r.pending_session) (sym there)
                (inl (
                  absent,
                  unsent,
                  display,
                  revision,
                  ap (λ h. h.state) (begin_answer r.handshake p.request display revision begun q),
                )))
        | inr (x, q) ↦
            rw (q, Control.begin_handshake)
              (home-Matched (Router.local_state r.router) r.handshake.state r.pending_request
                r.pending_session (local_home r.router) free)
      ]

  -- `h` has the router's new state, `t` is its old one.
  start-Keeps :
      (t : RouteState) (h : Handed C) (result : Result RouteError (List RouteEffect))
      (display : String) (revision : ℕ)
      → Departs t h.runtime.router.state result
      → Matched t h.runtime.handshake.state h.runtime.pending_request h.runtime.pending_session
      → Keeps (((λ h. (h, map_err route result)) >>= Control.begin_request port display revision) h)
  start-Keeps t h (err e) display revision (inl same) m =
      subst
        (λ u.
          Matched u h.runtime.handshake.state h.runtime.pending_request h.runtime.pending_session)
        (sym same) m
  start-Keeps t h (err e) display revision (inr (was, home)) m =
      home-Matched h.runtime.router.state h.runtime.handshake.state h.runtime.pending_request
        h.runtime.pending_session home
        (Matched-may_begin t h.runtime.handshake.state h.runtime.pending_request
          h.runtime.pending_session was m)
  start-Keeps t h (ok effects) display revision (inl (nothing, same)) m =
      subst (λ es. Keeps (Control.begin_request port display revision es h)) (sym nothing)
        (subst
          (λ u.
            Matched u h.runtime.handshake.state h.runtime.pending_request h.runtime.pending_session)
          (sym same) m)
  start-Keeps t h (ok effects) display revision (inr (peer, p, one, was, there, absent, unsent)) m =
      subst (λ es. Keeps (Control.begin_request port display revision es h)) (sym one)
        (begin_handshake-Keeps p display revision h there absent unsent (
          Matched-may_begin t h.runtime.handshake.state h.runtime.pending_request
            h.runtime.pending_session was m))

  pub begin-Keeps :
      (peer display : String) (revision now_ms : ℕ) (h : Handed C)
      → InStep h.runtime
      → Keeps (Control.begin port peer display revision now_ms h)
  unfolding Control.begin
  begin-Keeps peer display revision now_ms h m =
      let gone = Router.go_remote port h.runtime.router peer now_ms h.capture in
      start-Keeps h.runtime.router.state
        (record { runtime = record h.runtime { router = gone.0 }; capture = gone.1 }) gone.2 display
        revision (go_remote_outcome port h.runtime.router peer now_ms h.capture) m
