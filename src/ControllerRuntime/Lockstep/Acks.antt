-- ===== src/ControllerRuntime/Lockstep/Acks.antt =====
-- `CommitAck` in `ControllerRuntime::handle_control` (src-tauri/src/controller_runtime.rs).
use mykvm.Base.{
  ℕ, ◌≡◌, inl, inr, refl, sym, ap, subst, ◌∙◌, Bool, true, false, not, Option, none, some, List, [],
  ◌∷◌, String, Result, ok, err, is_ok, Result-cases, ok_or, is_some, if◌then◌else◌,
}
use mykvm.Base.Methods.{◌>>=◌, ◌>>◌, lift, fail_when, cleaned}
use mykvm.Ports.{CapturePort}
use mykvm.Protocol.Types.{SessionId, session_beq, ControlFrame, ProtocolError, wrong_session}
use mykvm.Protocol.Validate.{validate_session, validate_text}
use mykvm.Protocol.Controller
use mykvm.Protocol.Controller.{
  ControllerHandshake, ControllerState, await_ready, prepared, await_commit_ack, active, ended,
}
use mykvm.Protocol.Controller.Replies.{ack_answer}
use mykvm.Routing.Router
use mykvm.Routing.Router.{at_home}
use mykvm.Routing.Router.Outcomes.{local_home}
use mykvm.Routing.Router.Handover.{commit_ack_ok}
use mykvm.ControllerRuntime.{
  ControllerRuntimeError, protocol, not_active, ControllerAction, Runtime, framed, shake,
}
use mykvm.ControllerRuntime.Control.{
  Handed, Handling, fail_local, on_runtime, end_late, end_after_failed_ack, acknowledge,
  handle_commit_ack, pending_of,
}
use mykvm.ControllerRuntime.Lockstep.{Matched, InStep, home-Matched, end_ok}
use mykvm.ControllerRuntime.Lockstep.Calls.{Keeps, fail_local_steps}

module _ {C : Type 0} (port : CapturePort C) where
  abbrev late : String
  late = "late-or-cancelled-ack"

  -- `end_late`, with whether a session is active and with the handshake's answer.
  abbrev late_after :
      Bool
      → Result ProtocolError (ControllerHandshake × ControlFrame)
      → Runtime
      → Runtime × List ControllerAction
  late_after on x r =
      let done = framed (λ h. x) r in
      if on then elim done.1 [ ok action ↦ (done.0, action ∷ []) | err e ↦ (r, []) ] else (r, [])

  -- A late acknowledgement ends the session that the handshake has just made active.
  end_late_ended :
      (r : Runtime) (s : SessionId)
      → r.handshake.state ≡ active s
      → validate_session s ≡ ok tt
      → (end_late port r).0 ≡ record r { handshake = record r.handshake { state = ended } }
  unfolding Controller.active_session validate_text
  end_late_ended r s e valid =
      let over = end_ok r.handshake s late e valid refl in
      ap
        (λ h.
          (late_after (is_some (Controller.session_of h)) (Controller.end r.handshake late) r).0)
        e
      ∙ ap (λ x. (late_after true x r).0) over

  failed_ack_steps :
      (h : Handed C) (s : SessionId)
      → h.runtime.handshake.state ≡ active s
      → validate_session s ≡ ok tt
      → InStep (end_after_failed_ack port h).0.runtime
  unfolding end_after_failed_ack Router.go_local
  failed_ack_steps h s e valid =
      let free : Controller.may_begin (end_late port h.runtime).0.handshake.state ≡ true =
        ap (λ r. Controller.may_begin r.handshake.state) (end_late_ended h.runtime s e valid) in
      home-Matched (Router.local_state (end_late port h.runtime).0.router) _ none none
        (local_home (end_late port h.runtime).0.router) free

  -- The router takes the acknowledgement of the session, or it is at home again.
  acknowledge_steps :
      (request : ℕ) (s : SessionId) (now_ms : ℕ) (h : Handed C)
      → h.runtime.handshake.state ≡ active s
      → validate_session s ≡ ok tt
      → Keeps (acknowledge port request s now_ms h)
  acknowledge_steps request s now_ms h e valid =
      let r = h.runtime.router in
      let acked = Router.commit_ack port r request s.nonce now_ms h.capture in
      elim (Result-cases acked.2) [
        | inl (u, q) ↦
            let done = commit_ack_ok port r request s.nonce now_ms h.capture (ap is_ok q) in
            let (p, before, completed) = done in
            let (same, known, sent, early, captured, opened, unlocked) = completed in
            rw (q, acknowledge)
              (subst (λ t. Matched t h.runtime.handshake.state none h.runtime.pending_session)
                (sym opened) (s, e, refl, valid))
        | inr (x, q) ↦
            rw (q, acknowledge)
              (failed_ack_steps
                (record { runtime = record h.runtime { router = acked.0 }; capture = acked.1 }) s e
                valid)
      ]

  shaken :
      (x : Result ProtocolError (Option ControlFrame))
      → is_ok {E = ControllerRuntimeError} {A = Unit {0}}
          (elim x [ ok _ ↦ ok tt | err e ↦ err (protocol e) ])
        ≡ true
      → is_ok x ≡ true
  shaken (ok o) good = refl
  shaken (err e) good = cc

  -- The handshake's part, past a test.
  abbrev checked : Bool → SessionId → Option ℕ → Handling C (Unit {0})
  checked stale s random =
      fail_when (λ h. stale) (protocol wrong_session)
      >> on_runtime (shake (ControlFrame.commit_ack s) random)

  checked_ok :
      (stale : Bool) (s : SessionId) (random : Option ℕ) (h : Handed C)
      → is_ok (checked stale s random h).1 ≡ true
      → (validate_session s ≡ ok tt)
        × ((checked stale s random h).0.runtime.handshake.state ≡ active s)
  checked_ok true s random h good = cc
  checked_ok false s random h good =
      let (valid, waits, now_active) = ack_answer h.runtime.handshake s random (shaken _ good) in
      (valid, now_active)

  then-Keeps :
      (u : Handed C × Result ControllerRuntimeError (Unit {0}))
      (k : Handling C (List ControllerAction))
      → (is_ok u.1 ≡ true → Keeps (k u.0))
      → Keeps ((cleaned (fail_local port) (λ h. u) >> k) u.0)
  then-Keeps (h, ok tt) k good = good refl
  then-Keeps (h, err e) k good = fail_local_steps port h

  acking-Keeps :
      (pending : Option (ℕ × SessionId)) (s : SessionId) (random : Option ℕ) (now_ms : ℕ)
      (h : Handed C)
      → InStep h.runtime
      → Keeps (
          (lift (λ h. ok_or pending not_active) >>= λ pending.
          cleaned (fail_local port) (checked (not (session_beq pending.1 s)) s random)
          >> acknowledge port pending.0 s now_ms)
            h)
  acking-Keeps none s random now_ms h m = m
  acking-Keeps (some (request, known)) s random now_ms h m =
      let stale = not (session_beq known s) in
      then-Keeps (checked stale s random h) (acknowledge port request s now_ms) λ good.
        let (valid, on) = checked_ok stale s random h good in
        acknowledge_steps request s now_ms (checked stale s random h).0 on valid

  pub handle_commit_ack-Keeps :
      (s : SessionId) (random : Option ℕ) (now_ms : ℕ) (h : Handed C)
      → InStep h.runtime
      → Keeps (handle_commit_ack port s (ControlFrame.commit_ack s) random now_ms h)
  unfolding handle_commit_ack
  handle_commit_ack-Keeps s random now_ms h m =
      acking-Keeps (pending_of h.runtime) s random now_ms h m
