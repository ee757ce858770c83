-- ===== src/ControllerRuntime/Lockstep/Effects.antt =====
-- What `ControllerRuntime::route_effects` (src-tauri/src/controller_runtime.rs) does to the handshake,
-- and that it never fails on what the router asks for.
use mykvm.Base
use mykvm.Base.{
  Bool-cases, Option-cases, ℕ, ◌≡◌, ◌&&◌, ◌⊎◌, inl, inr, refl, sym, ap, subst, not, fail_if,
  option_beq, ok_or, nat_eq, some_same, ◌∙◌, Bool, true, false, Option, none, some, List, [], ◌∷◌,
  ◌++◌, String, arith, Result, ok, err, is_ok, is_some, ◌==◌, ==_refl, Bool-cases, Result-cases,
  Option-cases,
}
use mykvm.Protocol.Types.{
  wrong_session, SessionId, session_beq, session_beq_iff, ControlFrame, ProtocolError, commit,
  end_session,
}
use mykvm.Base.Methods
use mykvm.Base.Methods.{lift, fail_when, passes, continues, pure, ◌>>=◌, ◌>>◌, modify}
use mykvm.Protocol.Validate.{validate_session}
use mykvm.Protocol.Controller
use mykvm.Protocol.Controller.{
  ControllerState, ControllerHandshake, await_ready, prepared, await_commit_ack, active, idle,
  ended,
}
use mykvm.Routing.Types.{
  ReturnReason, Preparing, RouteState, local_desktop, local_game, preparing_remote, remote_active,
  returning_local, RouteEffect,
}
use mykvm.Routing.Router.{at_home, return_effects}
use mykvm.ControllerRuntime.{
  not_active, is_token, ControllerAction, send_control, close_input, ControllerRuntimeError,
  Runtime, return_reason, forget, aborted, is_active, route_effect, route_effects, commit_effect,
  say_end, Local, framed,
}
use mykvm.ControllerRuntime.Lockstep.{Matched, InStep, Offered, home-Matched, end_ok, reason_ok}

-- A method that succeeded and left the runtime in step.
abbrev pub Steps : {A : Type 0} → Runtime × Result ControllerRuntimeError A → Type 0
Steps u = InStep u.0 × (is_ok u.1 ≡ true)

then_nothing :
    (u : Runtime × Result ControllerRuntimeError (List ControllerAction))
    → Steps u
    → Steps {A = List ControllerAction}
        (elim u.1 [ ok a ↦ (u.0, ok (a ++ [])) | err e ↦ (u.0, err e) ])
then_nothing (r, ok a) s = s
then_nothing (r, err e) s = cc

first_state :
    (u : Runtime × Result ControllerRuntimeError (List ControllerAction))
    → ◌≡◌ {A = Runtime}
        (elim u.1 as (λ _. Runtime × Result ControllerRuntimeError (List ControllerAction)) [
          | ok a ↦ (u.0, ok (a ++ []))
          | err e ↦ (u.0, err e)
        ]).0
        u.0
first_state (r, ok a) = refl
first_state (r, err e) = refl

one_effect :
    (e : RouteEffect) (r : Runtime) → Steps (route_effect e r) → Steps (route_effects (e ∷ []) r)
unfolding route_effects
one_effect e r s = then_nothing (route_effect e r) s

free-Steps :
    (r : Runtime) (actions : List ControllerAction)
    → at_home r.router.state ≡ true
    → Controller.may_begin r.handshake.state ≡ true
    → Steps {A = List ControllerAction} (r, ok actions)
free-Steps r actions home free = (
  home-Matched r.router.state r.handshake.state r.pending_request r.pending_session home free,
  refl,
)

end_idle :
    (session : ℕ) (reason : ReturnReason) (r : Runtime)
    → at_home r.router.state ≡ true
    → is_active r ≡ false
    → Steps (route_effect (RouteEffect.end session reason) r)
unfolding route_effect Controller.abort
end_idle session reason r home quiet =
    rw (quiet, route_effect) (free-Steps (forget (aborted r)) (close_input ∷ []) home refl)

-- `say_end` after the handshake's answer.
abbrev said :
    Result ProtocolError (ControllerHandshake × ControlFrame) → Local (List ControllerAction)
said x = framed (λ h. x) >>= λ action. modify forget >> pure (action ∷ close_input ∷ [])

say_end_ok :
    (r : Runtime) (reason : ReturnReason) (sent : ControllerHandshake × ControlFrame)
    → Controller.end r.handshake (return_reason reason) ≡ ok sent
    → say_end reason r
      ≡ (forget (record r { handshake = sent.0 }), ok (send_control sent.1 ∷ close_input ∷ []))
unfolding say_end
say_end_ok r reason sent e = ap (λ x. said x r) e

end_active :
    (session : ℕ) (reason : ReturnReason) (r : Runtime) (s : SessionId)
    → at_home r.router.state ≡ true
    → r.handshake.state ≡ active s
    → validate_session s ≡ ok tt
    → Steps (route_effect (RouteEffect.end session reason) r)
unfolding route_effect Controller.active_session
end_active session reason r s home e valid =
    let said = say_end_ok r reason _ (end_ok r.handshake s _ e valid (reason_ok reason)) in
    let on : is_active r ≡ true = ap (λ h. is_some (Controller.session_of h)) e in
    rw (on, said, route_effect)
      (free-Steps (forget (record r { handshake = record r.handshake { state = ended } }))
        (send_control (end_session s (return_reason reason)) ∷ close_input ∷ []) home refl)

inactive :
    (r : Runtime) (h : ControllerState)
    → r.handshake.state ≡ h
    → Controller.session_of h ≡ none
    → is_active r ≡ false
unfolding Controller.active_session
inactive r h e q = ap (λ h. is_some (Controller.session_of h)) e ∙ ap is_some q

end_prepared :
    (sent : Bool) (p : Preparing) (reason : ReturnReason) (r : Runtime)
    → Offered p sent r.handshake.state r.pending_request r.pending_session
    → at_home r.router.state ≡ true
    → Steps (route_effects (return_effects (preparing_remote p) reason) r)
end_prepared false p reason r (s, known, sent, e, asked, pending) home =
    rw known (one_effect _ r (end_idle s.nonce reason r home (inactive r _ e refl)))
end_prepared true p reason r (s, known, sent, e, asked, pending) home =
    rw known (one_effect _ r (end_idle s.nonce reason r home (inactive r _ e refl)))

-- The router went home from `t`.
pub return-Steps :
    (t : RouteState) (reason : ReturnReason) (r : Runtime)
    → Matched t r.handshake.state r.pending_request r.pending_session
    → at_home r.router.state ≡ true
    → Steps (route_effects (return_effects t reason) r)
unfolding route_effects route_effect Controller.abort
return-Steps local_desktop reason r m home = free-Steps r [] home m
return-Steps local_game reason r m home = free-Steps r [] home m
return-Steps (remote_active peer token) reason r (s, e, same, valid) home =
    one_effect (RouteEffect.end token reason) r (end_active token reason r s home e valid)
return-Steps (preparing_remote p) reason r (inl (absent, unsent, display, revision, e)) home =
    rw absent (
      one_effect (RouteEffect.cancel p.request) r
        (free-Steps (forget (aborted r)) (close_input ∷ []) home refl))
return-Steps (preparing_remote p) reason r (inr (inl known)) home =
    end_prepared false p reason r known home
return-Steps (preparing_remote p) reason r (inr (inr known)) home =
    end_prepared true p reason r known home
return-Steps (returning_local other) reason r m home = elim m [ ]

same_session : (request : ℕ) (s : SessionId) → (request == request && session_beq s s) ≡ true
same_session request s = rw (==_refl request, (session_beq_iff s s).1 refl) refl

commit_session_ok :
    (h : ControllerHandshake) (request : ℕ) (s : SessionId)
    → h.state ≡ prepared request s
    → Controller.commit_session h request s
      ≡ ok (record h { state = await_commit_ack s }, commit request s)
unfolding Controller.commit_session Controller.prepared_session
commit_session_ok h request s e =
    let asked : Controller.is_prepared (Controller.prepared_of h.state) request s ≡ true =
      ap (λ t. Controller.is_prepared (Controller.prepared_of t) request s) e
      ∙ same_session request s in
    ap
      (λ b.
        Base.◌>>◌ (fail_if (not b) wrong_session)
          (ok (record h { state = await_commit_ack s }, commit request s)))
      asked

-- `commit_effect` past each of its checks.
abbrev sends : ℕ → SessionId → Local (List ControllerAction)
sends request s =
    framed (λ h. Controller.commit_session h request s) >>= λ action. pure (action ∷ [])

abbrev reads_pending : ℕ → Local (List ControllerAction)
reads_pending request = lift (λ r. ok_or r.pending_session not_active) >>= sends request

abbrev checks_session : ℕ → ℕ → Local (List ControllerAction)
checks_session request token =
    fail_when (λ r. not (is_token r.pending_session token)) not_active >> reads_pending request

-- The commit of what both know goes out.
commit_out :
    (r : Runtime) (request : ℕ) (s : SessionId)
    → r.handshake.state ≡ prepared request s
    → r.pending_request ≡ some request
    → r.pending_session ≡ some s
    → commit_effect request s.nonce r ≡ (
      record r { handshake = record r.handshake { state = await_commit_ack s } },
      ok (send_control (commit request s) ∷ []),
    )
unfolding commit_effect
commit_out r request s e asked pending =
    passes (λ r. not (option_beq r.pending_request (some request))) not_active
      (checks_session request s.nonce) r
      (ap (λ o. not (option_beq o (some request))) asked ∙ ap not (==_refl request))
    ∙ passes (λ r. not (is_token r.pending_session s.nonce)) not_active (reads_pending request) r
        (ap (λ o. not (is_token o s.nonce)) pending ∙ ap not (==_refl s.nonce))
    ∙ continues (lift (λ r. ok_or r.pending_session not_active)) (sends request) r r s
        (ap (λ o. (r, ok_or o not_active)) pending)
    ∙ ap (λ x. Methods.◌>>=◌ (framed (λ h. x)) (λ action. pure (action ∷ [])) r)
        (commit_session_ok r.handshake request s e)

-- The router has sent the commit of what it prepares.
pub commit-Steps :
    (p q : Preparing) (token : ℕ) (r : Runtime)
    → Offered p false r.handshake.state r.pending_request r.pending_session
    → p.session ≡ some token
    → q.request ≡ p.request
    → q.session ≡ p.session
    → q.commit_sent ≡ true
    → r.router.state ≡ preparing_remote q
    → Steps (route_effects (RouteEffect.commit p.request token ∷ []) r)
unfolding route_effect
commit-Steps p q token r (s, known, unsent, e, asked, pending) offered same_request same_session
      sent there =
    let named : s.nonce ≡ token = some_same (sym known ∙ offered) in
    let at : Matched (preparing_remote q) (await_commit_ack s) r.pending_request r.pending_session =
      inr
        (inr (s, same_session ∙ known, sent, refl, asked ∙ ap some (sym same_request), pending)) in
    one_effect (RouteEffect.commit p.request token) r (
      subst (λ n. Steps (commit_effect p.request n r)) named
        (subst (λ u. Steps u) (sym (commit_out r p.request s e asked pending))
          (
            subst (λ t. Matched t (await_commit_ack s) r.pending_request r.pending_session)
                (sym there) at,
            refl,
          )))

one_state : (e : RouteEffect) (r : Runtime) → (route_effects (e ∷ []) r).0 ≡ (route_effect e r).0
unfolding route_effects
one_state e r = first_state (route_effect e r)

said_home :
    (x : Result ProtocolError (ControllerHandshake × ControlFrame)) (r : Runtime)
    → at_home r.router.state ≡ true
    → at_home (said x r).0.router.state ≡ true
said_home (ok sent) r home = home
said_home (err e) r home = home

end_home :
    (session : ℕ) (reason : ReturnReason) (r : Runtime)
    → at_home r.router.state ≡ true
    → at_home (route_effects (RouteEffect.end session reason ∷ []) r).0.router.state ≡ true
unfolding route_effect say_end
end_home session reason r home =
    ap (λ r. at_home r.router.state) (one_state (RouteEffect.end session reason) r)
    ∙ elim (Bool-cases (is_active r)) [
      | inl on ↦
          rw (on, route_effect)
            (said_home (Controller.end r.handshake (return_reason reason)) r home)
      | inr off ↦ rw (off, route_effect) home
    ]

-- What follows the router's return does not take the router away from home.
pub return_home :
    (t : RouteState) (reason : ReturnReason) (r : Runtime)
    → at_home r.router.state ≡ true
    → at_home (route_effects (return_effects t reason) r).0.router.state ≡ true
unfolding route_effects route_effect
return_home local_desktop reason r home = home
return_home local_game reason r home = home
return_home (returning_local other) reason r home = home
return_home (remote_active peer token) reason r home = end_home token reason r home
return_home (preparing_remote p) reason r home = elim (Option-cases p.session) [
  | inl q ↦ rw q home
  | inr (session, q) ↦ rw q (end_home session reason r home)
]
