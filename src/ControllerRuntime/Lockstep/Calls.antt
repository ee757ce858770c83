-- ===== src/ControllerRuntime/Lockstep/Calls.antt =====
-- The methods of `ControllerRuntime` that only route effects (src-tauri/src/controller_runtime.rs) keep
-- the router and the handshake in step.
use mykvm.Base.{
  ℕ, ◌≡◌, inl, inr, refl, sym, subst, Bool, true, false, none, some, List, [], ◌∷◌, Result, is_ok,
}
use mykvm.Ports.{CapturePort, FocusPort}
use mykvm.Protocol.Controller
use mykvm.Routing.Types.{ReturnReason, Preparing, RouteState, preparing_remote, RouteEffect}
use mykvm.Routing.Router
use mykvm.Routing.Router.{at_home, seen_in, return_effects}
use mykvm.Routing.Router.Outcomes.{Advances, advance_outcome, local_home}
use mykvm.ControllerRuntime.{ControllerRuntimeError, Runtime, route_effects}
use mykvm.ControllerRuntime.Control
use mykvm.ControllerRuntime.Control.{Handed, fail_local, on_runtime, router_local}
use mykvm.ControllerRuntime.Lockstep.{Matched, InStep, home-Matched}
use mykvm.ControllerRuntime.Lockstep.Effects.{return_home, Steps, return-Steps, commit-Steps}

-- The runtime of what a method with the port gives.
abbrev pub Keeps : {C A : Type 0} → Handed C × Result ControllerRuntimeError A → Type 0
Keeps u = InStep u.0.runtime

commit_of :
    (p : Preparing) (keys : Bool) (token : ℕ) (r : Runtime)
    → Matched (preparing_remote p) r.handshake.state r.pending_request r.pending_session
    → p.session ≡ some token
    → p.commit_sent ≡ false
    → r.router.state ≡ preparing_remote (record (seen_in p keys) { commit_sent = true })
    → Steps (route_effects (RouteEffect.commit p.request token ∷ []) r)
commit_of p keys token r (inl (absent, quiet, display, revision, e)) offered unsent there = cc
commit_of p keys token r (inr (inl known)) offered unsent there =
    commit-Steps p (record (seen_in p keys) { commit_sent = true }) token r known offered refl refl
      refl there
commit_of p keys token r (inr (inr (s, known, sent, e, asked, pending))) offered unsent there = cc

-- `r` has the router's new state, and `effects` is what the router asks for.
follow :
    (t : RouteState) (r : Runtime) (effects : List RouteEffect)
    → Advances t r.router.state effects
    → Matched t r.handshake.state r.pending_request r.pending_session
    → Steps (route_effects effects r)
unfolding route_effects
follow t r effects (inl (same, nothing)) m =
    subst (λ es. Steps (route_effects es r)) (sym nothing)
      (
        subst (λ u. Matched u r.handshake.state r.pending_request r.pending_session) (sym same) m,
        refl,
      )
follow t r effects (inr (inl (p, keys, before, after, nothing))) m =
    let at : Matched (preparing_remote p) r.handshake.state r.pending_request r.pending_session =
      subst (λ u. Matched u r.handshake.state r.pending_request r.pending_session) before m in
    subst (λ es. Steps (route_effects es r)) (sym nothing)
      (
        subst (λ u. Matched u r.handshake.state r.pending_request r.pending_session) (sym after) at,
        refl,
      )
follow t r effects (inr (inr (inl (p, keys, token, before, offered, unsent, after, sends)))) m =
    subst (λ es. Steps (route_effects es r)) (sym sends)
      (commit_of p keys token r
        (subst (λ u. Matched u r.handshake.state r.pending_request r.pending_session) before m)
        offered unsent after)
follow t r effects (inr (inr (inr (reason, home, returns)))) m =
    subst (λ es. Steps (route_effects es r)) (sym returns) (return-Steps t reason r m home)

module _ {C : Type 0} (port : CapturePort C) where
  -- `advance` keeps the two in step and never fails.
  pub advance_steps :
      {F : Type 0} (focus : FocusPort F) (now_ms : ℕ) (keys_released : Bool) (f : F) (h : Handed C)
      → InStep h.runtime
      → InStep (Control.advance port focus now_ms keys_released f h).1.0.runtime
        × (is_ok (Control.advance port focus now_ms keys_released f h).1.1 ≡ true)
  unfolding Control.advance
  advance_steps focus now_ms keys_released f h m =
      let routed = Router.advance port focus h.runtime.router now_ms keys_released h.capture f in
      follow h.runtime.router.state (record h.runtime { router = routed.0 }) routed.3
        (advance_outcome port focus h.runtime.router now_ms keys_released h.capture f) m

  -- Likewise `go_local`.
  pub go_local_steps :
      (reason : ReturnReason) (h : Handed C)
      → InStep h.runtime
      → InStep (Control.go_local port reason h).0.runtime
        × (is_ok (Control.go_local port reason h).1 ≡ true)
  unfolding Control.go_local Router.go_local
  go_local_steps reason h m =
      let routed = Router.go_local port h.runtime.router reason h.capture in
      return-Steps h.runtime.router.state reason (record h.runtime { router = routed.0 }) m
        (local_home h.runtime.router)

  -- Whatever was before, after `fail_local` the router is at home and the handshake is over.
  pub fail_local_steps : (h : Handed C) → InStep (fail_local port h).runtime
  unfolding fail_local Router.go_local Controller.abort
  fail_local_steps h =
      home-Matched (Router.local_state h.runtime.router) _ none none (local_home h.runtime.router)
        refl

  -- After `go_local` the router is at home, whatever was before.
  pub go_local_home :
      (reason : ReturnReason) (h : Handed C)
      → at_home (Control.go_local port reason h).0.runtime.router.state ≡ true
  unfolding Control.go_local Router.go_local
  go_local_home reason h =
      let routed = Router.go_local port h.runtime.router reason h.capture in
      return_home h.runtime.router.state reason (record h.runtime { router = routed.0 })
        (local_home h.runtime.router)
