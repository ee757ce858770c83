-- ===== src/ControllerRuntime/Lockstep/Frames.antt =====
-- `ControllerRuntime::handle_control` and `begin` (src-tauri/src/controller_runtime.rs) keep the router
-- and the handshake in step.
use mykvm.Base.{
  ℕ, ◌≡◌, inl, inr, refl, sym, ap, subst, Bool, true, false, Option, some, List, [], String, Result,
  ok, err, is_ok, ok_or, map_err,
}
use mykvm.Base.Methods.{pure, ◌>>=◌, ◌>>◌, modify, lift}
use mykvm.Ports.{CapturePort}
use mykvm.Protocol.Types.{SessionId, ControlFrame, invalid_transition}
use mykvm.Protocol.Controller
use mykvm.Protocol.Controller.{
  ControllerHandshake, ControllerState, await_ready, prepared, await_commit_ack, active, ended,
}
use mykvm.Protocol.Controller.Replies.{ready_answer}
use mykvm.Routing.Types.{Router, Preparing, RouteState, preparing_remote, RouteError}
use mykvm.Routing.Router
use mykvm.Routing.Router.{at_home}
use mykvm.Routing.Router.Outcomes.{ready_ok}
use mykvm.ControllerRuntime.{ControllerRuntimeError, route, protocol, ControllerAction, Runtime}
use mykvm.ControllerRuntime.Control.{
  Handed, Handling, fail_local, on_runtime, router_ready, handle_ready,
}
use mykvm.ControllerRuntime.Lockstep.{Matched, InStep}
use mykvm.ControllerRuntime.Lockstep.Calls.{Keeps, fail_local_steps}

-- A router that takes the offer of a session `s` for `request` was waiting for one.
offer-Matched :
    (t u : RouteState) (h : ControllerState) (request : Option ℕ) (pending : Option SessionId)
    (asked : ℕ) (display : String) (revision : ℕ) (s : SessionId)
    → Matched t h request pending
    → h ≡ await_ready asked display revision
    → (p : Preparing) → t ≡ preparing_remote p
    → p.request ≡ asked
    → u ≡ preparing_remote (record p { session = some s.nonce })
    → Matched u (prepared asked s) (some asked) (some s)
offer-Matched t u h request pending asked display revision s m waits p before named after =
    let at : Matched (preparing_remote p) (await_ready asked display revision) request pending =
      subst (λ h. Matched (preparing_remote p) h request pending) waits
        (subst (λ t. Matched t h request pending) before m) in
    let unsent : p.commit_sent ≡ false = elim at [
      | inl (absent, unsent, d, v, e) ↦ unsent
      | inr (inl (x, known, unsent, e, q, w)) ↦ unsent
      | inr (inr (x, known, sent, e, q, w)) ↦ cc
    ] in
    subst (λ u. Matched u (prepared asked s) (some asked) (some s)) (sym after)
      (inr (inl (s, refl, unsent, ap (λ n. prepared n s) (sym named), ap some (sym named), refl)))

-- Whatever fails is cleaned up.
pub cleaned-Keeps :
    {C A : Type 0} (port : CapturePort C) (u : Handed C × Result ControllerRuntimeError A)
    → (is_ok u.1 ≡ true → InStep u.0.runtime)
    → Keeps {C = C} {A = A} (elim u.1 [ ok a ↦ (u.0, ok a) | err e ↦ (fail_local port u.0, err e) ])
cleaned-Keeps port (h, ok a) k = k refl
cleaned-Keeps port (h, err e) k = fail_local_steps port h

module _ {C : Type 0} where
  -- `handle_ready` after the handshake's answer.
  abbrev offered_after : Controller.Reply → Handling C (List ControllerAction)
  offered_after reply =
      on_runtime (λ r. (
        record r { handshake = reply.0 },
        elim reply.1 [ ok _ ↦ ok tt | err e ↦ err (protocol e) ],
      ))
      >> (lift (λ h.
            ok_or (Controller.prepared_session h.runtime.handshake) (protocol invalid_transition))
          >>= λ known.
              on_runtime (
                modify (λ r. record r {
                  pending_request = some known.0;
                  pending_session = some known.1;
                }))
              >> (on_runtime (router_ready known.0 known.1) >> pure []))

  -- And after the router's.
  abbrev accepted_after : Router × Result RouteError (Unit {0}) → Handling C (List ControllerAction)
  accepted_after ready =
      on_runtime (λ r. (record r { router = ready.0 }, map_err route ready.1)) >> pure []

  accepted_steps :
      (ready : Router × Result RouteError (Unit {0})) (h : Handed C)
      → (ready.1 ≡ ok tt → InStep (record h.runtime { router = ready.0 }))
      → is_ok (accepted_after ready h).1 ≡ true
      → Keeps (accepted_after ready h)
  accepted_steps (router, ok tt) h k good = k refl
  accepted_steps (router, err e) h k good = cc

  ready_then :
      (h : Handed C) (next : ControllerHandshake) (asked : ℕ) (display : String) (revision : ℕ)
      (s : SessionId) (o : Option ControlFrame)
      → InStep h.runtime
      → h.runtime.handshake.state ≡ await_ready asked display revision
      → next ≡ record h.runtime.handshake { state = prepared asked s }
      → is_ok (offered_after (next, ok o) h).1 ≡ true
      → Keeps (offered_after (next, ok o) h)
  unfolding Controller.prepared_session
  ready_then h next asked display revision s o m waits named =
      let r = h.runtime in
      let found : Runtime = record r {
        handshake = record r.handshake { state = prepared asked s };
        pending_request = some asked;
        pending_session = some s;
      } in
      subst
        (λ next.
          is_ok (offered_after (next, ok o) h).1 ≡ true → Keeps (offered_after (next, ok o) h))
        (sym named)
        (accepted_steps (Router.ready r.router asked s.nonce) (record h { runtime = found })
          λ good.
            let (p, before, same, after) = ready_ok r.router asked s.nonce good in
            offer-Matched r.router.state _ r.handshake.state r.pending_request r.pending_session
              asked display revision s m waits p before same after)

  offered-Keeps :
      (reply : Controller.Reply) (h : Handed C)
      → InStep h.runtime
      → (is_ok reply.1 ≡ true
          → (asked : ℕ) × (display : String) × (revision : ℕ) × (s : SessionId)
            × (h.runtime.handshake.state ≡ await_ready asked display revision)
            × (reply.0 ≡ record h.runtime.handshake { state = prepared asked s }))
      → is_ok (offered_after reply h).1 ≡ true
      → Keeps (offered_after reply h)
  offered-Keeps (next, err e) h m known good = cc
  offered-Keeps (next, ok o) h m known good =
      let (asked, display, revision, s, waits, named) = known refl in
      ready_then h next asked display revision s o m waits named good

module _ {C : Type 0} (port : CapturePort C) where
  pub handle_ready-Keeps :
      (request : ℕ) (boot : ℕ) (input_ready : Bool) (target : String) (layout : ℕ)
      (random : Option ℕ) (h : Handed C)
      → InStep h.runtime
      → Keeps
          (handle_ready port (ControlFrame.ready request boot input_ready target layout) random h)
  unfolding handle_ready
  handle_ready-Keeps request boot input_ready target layout random h m =
      let frame = ControlFrame.ready request boot input_ready target layout in
      let reply = Controller.handle h.runtime.handshake frame random in
      cleaned-Keeps port (offered_after reply h) (
        offered-Keeps reply h m
          (ready_answer h.runtime.handshake request boot input_ready target layout random))
