-- ===== src/ControllerRuntime/Lockstep.antt =====
-- The router and the controller's handshake of `ControllerRuntime`
-- (src-tauri/src/controller_runtime.rs) are always in states that go together.
pub mod Effects
pub mod Calls
pub mod Frames
pub mod Acks
pub mod Arms
pub mod Sends
pub mod Histories
use mykvm.Base.{
  ℕ, ◌≡◌, ◌⊎◌, inl, inr, refl, sym, ap, subst, Bool, true, false, Option, none, some, List, [], ◌∷◌,
  String, arith, Result, ok, err, is_ok, is_some, ◌==◌, ==_refl, Bool-cases, Result-cases,
  Option-cases,
}
use mykvm.Ports.{CapturePort, FocusPort}
use mykvm.Protocol.Types.{SessionId, session_beq, session_beq_iff, ControlFrame, ProtocolError}
use mykvm.Protocol.Types
use mykvm.Protocol.Validate.{validate_frame, validate_session, validate_text, max_detail_bytes}
use mykvm.Protocol.Controller
use mykvm.Protocol.Controller.{
  ControllerState, ControllerHandshake, await_ready, prepared, await_commit_ack, active, idle,
  ended,
}
use mykvm.Routing.Types.{
  ReturnReason, Preparing, RouteState, local_desktop, local_game, preparing_remote, remote_active,
  returning_local, RouteEffect, user, emergency, timeout, keys_held, focus_unavailable,
  capture_failed, network_failed, queue_full,
}
use mykvm.Routing.Router
use mykvm.Routing.Router.{at_home, seen_in, return_effects}
use mykvm.ControllerRuntime.{
  Runtime, return_reason, forget, aborted, is_active, route_effect, route_effects, commit_effect,
  say_end,
}

-- No session is offered yet.
abbrev pub Waiting : Preparing → ControllerState → Type 0
Waiting p h =
    (p.session ≡ none)
    × (p.commit_sent ≡ false)
    × (display : String) × (revision : ℕ) × (h ≡ await_ready p.request display revision)

-- A session is known to both, its commit sent or not.
abbrev pub Offered : Preparing → Bool → ControllerState → Option ℕ → Option SessionId → Type 0
Offered p sent h request pending =
    (s : SessionId) × (p.session ≡ some s.nonce)
    × (p.commit_sent ≡ sent)
    × (h ≡ (elim sent [ true ↦ await_commit_ack s | false ↦ prepared p.request s ]))
    × (request ≡ some p.request)
    × (pending ≡ some s)

-- The state of the router beside that of the handshake and the pending request and session.
abbrev pub Matched : RouteState → ControllerState → Option ℕ → Option SessionId → Type 0
Matched (preparing_remote p) h request pending =
    Waiting p h ⊎ Offered p false h request pending ⊎ Offered p true h request pending
Matched (remote_active peer token) h request pending =
    (s : SessionId) × (h ≡ active s) × (s.nonce ≡ token) × (validate_session s ≡ ok tt)
Matched (returning_local reason) h request pending = ⊥
Matched _ h request pending = Controller.may_begin h ≡ true

abbrev pub InStep : Runtime → Type 0
InStep r = Matched r.router.state r.handshake.state r.pending_request r.pending_session

pub home-Matched :
    (t : RouteState) (h : ControllerState) (request : Option ℕ) (pending : Option SessionId)
    → at_home t ≡ true
    → Controller.may_begin h ≡ true
    → Matched t h request pending
home-Matched local_desktop h request pending home free = free
home-Matched local_game h request pending home free = free
home-Matched _ h request pending home free = cc

pub Matched-may_begin :
    (t : RouteState) (h : ControllerState) (request : Option ℕ) (pending : Option SessionId)
    → at_home t ≡ true
    → Matched t h request pending
    → Controller.may_begin h ≡ true
Matched-may_begin local_desktop h request pending home m = m
Matched-may_begin local_game h request pending home m = m
Matched-may_begin _ h request pending home m = cc

pub reason_ok :
    (reason : ReturnReason) → validate_text (return_reason reason) max_detail_bytes "reason" ≡ ok tt
unfolding validate_text
reason_ok user = refl
reason_ok emergency = refl
reason_ok timeout = refl
reason_ok keys_held = refl
reason_ok focus_unavailable = refl
reason_ok capture_failed = refl
reason_ok network_failed = refl
reason_ok queue_full = refl

pub end_ok :
    (h : ControllerHandshake) (s : SessionId) (text : String)
    → h.state ≡ active s
    → validate_session s ≡ ok tt
    → validate_text text max_detail_bytes "reason" ≡ ok tt
    → Controller.end h text ≡ ok (record h { state = ended }, Types.end_session s text)
unfolding Controller.end Controller.active_session validate_frame
end_ok h s text e valid good = rw (e, valid, good, Controller.end) refl
