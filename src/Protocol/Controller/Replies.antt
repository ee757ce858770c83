-- ===== src/Protocol/Controller/Replies.antt =====
-- What an accepted frame does to the controller's handshake (`ControllerHandshake::handle` in
-- src-tauri/src/protocol_v2.rs), and a started one (`begin`).
use mykvm.Base.{
  ℕ, ◌≡◌, inl, inr, refl, sym, ap, ◌∙◌, Bool, true, not, Option, List, ◌==◌, ◌&&◌, String, ok,
  is_ok, Bool-cases, Result-cases, ltb, leb, string_beq,
}
use mykvm.Protocol.Types.{SessionId, ControlFrame, session_beq, session_beq_iff}
use mykvm.Protocol.Validate.{validate_frame, validate_session}
use mykvm.Protocol.Controller
use mykvm.Protocol.Controller.{
  ControllerState, ControllerHandshake, idle, await_ready, prepared, await_commit_ack, active,
  ended,
}

dispatch-ready :
    (t : ControllerState) (h : ControllerHandshake) (request : ℕ) (boot : ℕ) (input_ready : Bool)
    (target : String) (layout : ℕ) (random : Option ℕ)
    → is_ok
        (Controller.dispatch t
          (ControlFrame.ready request boot input_ready target layout)
          random
          h).1
      ≡ true
    → (asked : ℕ) × (display : String) × (revision : ℕ) × (s : SessionId) × (t
        ≡ await_ready asked display revision)
      × ((Controller.dispatch t
            (ControlFrame.ready request boot input_ready target layout)
            random
            h).0
          ≡ record h { state = prepared asked s })
unfolding Controller.dispatch Controller.ready_for
dispatch-ready (await_ready asked display revision) h request boot input_ready target layout random
      e =
    elim (Bool-cases (
      asked == request
      && string_beq display target
      && revision == layout
      && not (boot == 0)
      && input_ready)) [
        | inr bad ↦ cc (rw (bad, Controller.dispatch) at e)
        | inl good ↦ elim (Result-cases (Controller.generate h.local_boot boot random)) [
          | inr (x, q) ↦ cc (rw (good, q, Controller.dispatch) at e)
          | inl (s, q) ↦ (asked, display, revision, s, refl, rw (good, q, Controller.dispatch) refl)
        ]
      ]
dispatch-ready idle h request boot input_ready target layout random e = cc
dispatch-ready (prepared r s) h request boot input_ready target layout random e = cc
dispatch-ready (await_commit_ack s) h request boot input_ready target layout random e = cc
dispatch-ready (active s) h request boot input_ready target layout random e = cc
dispatch-ready ended h request boot input_ready target layout random e = cc

-- What follows from the answer to a frame that passed its validation.
handled :
    (h : ControllerHandshake) (frame : ControlFrame) (random : Option ℕ)
    → is_ok (Controller.handle h frame random).1 ≡ true
    → (validate_frame frame ≡ ok tt)
      × (Controller.handle h frame random ≡ Controller.dispatch h.state frame random h)
unfolding Controller.handle
handled h frame random e = elim (Result-cases (validate_frame frame)) [
  | inl (u, q) ↦ (q, rw (q, Controller.handle) refl)
  | inr (x, q) ↦ cc (rw (q, Controller.handle) at e)
]

ack_dispatch :
    (t : ControllerState) (h : ControllerHandshake) (received : SessionId) (random : Option ℕ)
    → is_ok (Controller.dispatch t (ControlFrame.commit_ack received) random h).1 ≡ true
    → (t ≡ await_commit_ack received)
      × ((Controller.dispatch t (ControlFrame.commit_ack received) random h).0.state
          ≡ active received)
unfolding Controller.dispatch
ack_dispatch (await_commit_ack s) h received random e = elim (Bool-cases (session_beq s received)) [
  | inr bad ↦ cc (rw (bad, Controller.dispatch) at e)
  | inl good ↦
      let same = (session_beq_iff s received).0 good in
      (ap await_commit_ack same, rw (good, Controller.dispatch) (ap active same))
]
ack_dispatch idle h received random e = cc
ack_dispatch (prepared r s) h received random e = cc
ack_dispatch (await_ready r d v) h received random e = cc
ack_dispatch (active s) h received random e = cc
ack_dispatch ended h received random e = cc

pong_dispatch :
    (t : ControllerState) (h : ControllerHandshake) (received : SessionId) (sequence highest : ℕ)
    (random : Option ℕ)
    → is_ok (Controller.dispatch t (ControlFrame.pong received sequence highest) random h).1 ≡ true
    → (Controller.dispatch t (ControlFrame.pong received sequence highest) random h).0.state
      ≡ h.state
unfolding Controller.dispatch
pong_dispatch (active s) h received sequence highest random e =
    elim (Bool-cases (
      session_beq s received
      && ltb h.last_pong_sequence sequence
      && leb sequence h.ping_sequence
      && leb h.highest_remote_applied highest)) [
        | inr bad ↦ cc (rw (bad, Controller.dispatch) at e)
        | inl good ↦ rw (good, Controller.dispatch) refl
      ]
pong_dispatch idle h received sequence highest random e = cc
pong_dispatch (prepared r s) h received sequence highest random e = cc
pong_dispatch (await_ready r d v) h received sequence highest random e = cc
pong_dispatch (await_commit_ack s) h received sequence highest random e = cc
pong_dispatch ended h received sequence highest random e = cc

-- A frame is accepted for `Ready` only while one is awaited.
pub ready_answer :
    (h : ControllerHandshake) (request : ℕ) (boot : ℕ) (input_ready : Bool) (target : String)
    (layout : ℕ) (random : Option ℕ)
    → let reply =
        Controller.handle h (ControlFrame.ready request boot input_ready target layout) random in
      is_ok reply.1 ≡ true
      → (asked : ℕ) × (display : String) × (revision : ℕ) × (s : SessionId) × (h.state
          ≡ await_ready asked display revision)
        × (reply.0 ≡ record h { state = prepared asked s })
ready_answer h request boot input_ready target layout random e =
    let frame = ControlFrame.ready request boot input_ready target layout in
    let same = (handled h frame random e).1 in
    let (asked, display, revision, s, waits, next) =
      dispatch-ready h.state h request boot input_ready target layout random
        (ap (λ reply. is_ok reply.1) (sym same) ∙ e) in
    (asked, display, revision, s, waits, ap (λ reply. reply.0) same ∙ next)

-- A `CommitAck` only while one is awaited for that session.
pub ack_answer :
    (h : ControllerHandshake) (s : SessionId) (random : Option ℕ)
    → is_ok (Controller.handle h (ControlFrame.commit_ack s) random).1 ≡ true
    → (validate_session s ≡ ok tt)
      × (h.state ≡ await_commit_ack s)
      × ((Controller.handle h (ControlFrame.commit_ack s) random).0.state ≡ active s)
unfolding validate_frame
ack_answer h s random e =
    let (valid, same) = handled h (ControlFrame.commit_ack s) random e in
    let known = ack_dispatch h.state h s random (ap (λ reply. is_ok reply.1) (sym same) ∙ e) in
    (valid, known.0, ap (λ reply. reply.0.state) same ∙ known.1)

-- A `Pong` changes no state but the counters.
pub pong_answer :
    (h : ControllerHandshake) (s : SessionId) (sequence highest : ℕ) (random : Option ℕ)
    → is_ok (Controller.handle h (ControlFrame.pong s sequence highest) random).1 ≡ true
    → (Controller.handle h (ControlFrame.pong s sequence highest) random).0.state ≡ h.state
pong_answer h s sequence highest random e =
    let same = (handled h (ControlFrame.pong s sequence highest) random e).1 in
    ap (λ reply. reply.0.state) same
    ∙ pong_dispatch h.state h s sequence highest random (ap (λ reply. is_ok reply.1) (sym same) ∙ e)

-- `begin` starts only an idle or ended handshake, and then awaits `Ready`.
pub begin_answer :
    (h : ControllerHandshake) (request : ℕ) (display : String) (revision : ℕ)
    (begun : ControllerHandshake × List ControlFrame)
    → Controller.begin h request display revision ≡ ok begun
    → begun.0 ≡ record h { state = await_ready request display revision }
unfolding Controller.begin
begin_answer h request display revision begun e = elim (Bool-cases (Controller.may_begin h.state)) [
  | inr bad ↦ cc (rw (bad, Controller.begin) at e)
  | inl good ↦
      elim (Result-cases (validate_frame (ControlFrame.prepare request display revision))) [
        | inr (x, q) ↦ cc (rw (good, q, Controller.begin) at e)
        | inl (u, q) ↦ cc (rw (good, q, Controller.begin) at e)
      ]
]
