-- ===== src/Routing/Router/Emergency.antt =====
-- Histories of a router (src-tauri/src/routing.rs): the actor's calls, and the requests for local
-- control that others make through the shared gate, in any order.
use mykvm.Base.{
  ℕ, ◌<◌, ◌≡◌, refl, Bool, true, false, List, [], ◌∷◌, String, arith, is_ok, subst, Bool-cases, inl,
  inr, ◌⊎◌,
}
use mykvm.Ports.{CapturePort, FocusPort}
use mykvm.Routing.Gate.{with_local, is_local, request_local, still_preparing}
use mykvm.Routing.Order.{IsWord, request_local_passes}
use mykvm.Routing.Types.{
  ReturnReason, Preparing, RouteState, local_desktop, local_game, preparing_remote, remote_active,
  returning_local, Router,
}
use mykvm.Routing.Router
use mykvm.Routing.Router.Advance.{advance-Later}
use mykvm.Routing.Router.Invariant.{
  Inv, Settled, Later, Later-trans, Later-refl, go_local-Later, go_remote-Later, commit_ack-Later,
  ready-Later, set_game_mode-Later, request-Later,
}

pub data Event : Type 0 where
  go_remote : (peer : String) (now_ms : ℕ) → Event
  ready : (request session : ℕ) → Event
  advance : (now_ms : ℕ) (keys_released : Bool) → Event
  commit_ack : (request session now_ms : ℕ) → Event
  go_local : ReturnReason → Event
  set_game_mode : Bool → Event
  asks_local : Event

-- The router and the two ports.
pub record World (C F : Type 0) : Type 0 where
  pub router : Router
  pub capture : C
  pub focus : F

abbrev asked : Router → Router
asked r = record r { gate = request_local r.gate }

with_gate-Inv : (gate : ℕ) → IsWord gate → is_local gate ≡ true → Inv (Router.with_gate gate)
unfolding Router.with_gate
with_gate-Inv gate w closed = record { word = w; settled = closed }

open_in :
    (t : RouteState) (gate : ℕ)
    → Settled t gate
    → (is_local gate ≡ true) ⊎ ((peer : String) × (s : ℕ) × (t ≡ remote_active peer s))
open_in local_desktop gate h = inl h
open_in local_game gate h = inl h
open_in (preparing_remote p) gate h = inl h.0
open_in (remote_active peer s) gate h = inr (peer, s, refl)
open_in (returning_local reason) gate h = absurd h

open_cases :
    (r : Router)
    → Inv r
    → (is_local r.gate ≡ true) ⊎ ((peer : String) × (s : ℕ) × (r.state ≡ remote_active peer s))
open_cases r v = open_in r.state r.gate v.settled

past_gone : (g v : ℕ) → is_local g ≡ true → g < with_local v → still_preparing v g ≡ false
unfolding is_local still_preparing
past_gone g v odd past = ground arith

ready_gone :
    (r : Router) (request session : ℕ)
    → still_preparing r.gate request ≡ false
    → is_ok (Router.ready r request session).1 ≡ false
unfolding Router.ready
ready_gone r request session gone = ground arith

gone_late :
    (r : Router) (p : Preparing) (request now_ms : ℕ)
    → still_preparing r.gate request ≡ false
    → Router.is_late r p request now_ms ≡ true
unfolding Router.is_late
gone_late r p request now_ms gone = ground arith

commit_ack_gone :
    {C : Type 0} (port : CapturePort C) (t : RouteState) (r : Router) (request session now_ms : ℕ)
    (c : C)
    → still_preparing r.gate request ≡ false
    → is_ok (Router.commit_ack_in port t r request session now_ms c).2 ≡ false
unfolding Router.commit_ack_in
commit_ack_gone port (preparing_remote p) r request session now_ms c gone =
    elim (Bool-cases (Router.is_stale p request session)) [
      | inl stale ↦ rw (stale, Router.commit_ack_in) refl
      | inr known ↦ rw (known, gone_late r p request now_ms gone, Router.commit_ack_in) refl
    ]
commit_ack_gone port _ r request session now_ms c gone = refl

-- A local router that has not been used, between its two ports.
abbrev pub fresh : {C F : Type 0} → ℕ → C → F → World C F
fresh gate c f = record { router = Router.with_gate gate; capture = c; focus = f }

module _ {C F : Type 0} (port : CapturePort C) (focus_port : FocusPort F) where
  pub act : World C F → Event → World C F
  act w (go_remote peer now_ms) =
      let (r, c, result) = Router.go_remote port w.router peer now_ms w.capture in
      record w { router = r; capture = c }
  act w (ready request session) = record w { router = (Router.ready w.router request session).0 }
  act w (advance now_ms keys_released) =
      let (r, c, f, effects) =
        Router.advance port focus_port w.router now_ms keys_released w.capture w.focus in
      record w { router = r; capture = c; focus = f }
  act w (commit_ack request session now_ms) =
      let (r, c, result) = Router.commit_ack port w.router request session now_ms w.capture in
      record w { router = r; capture = c }
  act w (go_local reason) =
      let (r, c, effects) = Router.go_local port w.router reason w.capture in
      record w { router = r; capture = c }
  act w (set_game_mode on) = record w { router = Router.set_game_mode w.router on }
  act w asks_local = record w { router = record w.router { gate = request_local w.router.gate } }
    where
      open w use {router}

  pub run : World C F → List Event → World C F
  run w [] = w
  run w (e ∷ es) = run (act w e) es

  act-Later : (w : World C F) (e : Event) → Inv w.router → Later w.router (act w e).router
  unfolding act
  act-Later w (go_remote peer now_ms) v = go_remote-Later port w.router peer now_ms w.capture v
  act-Later w (ready request session) v = ready-Later w.router request session v
  act-Later w (advance now_ms released) v =
      advance-Later port focus_port w.router now_ms released w.capture w.focus v
  act-Later w (commit_ack request session now_ms) v =
      commit_ack-Later port w.router request session now_ms w.capture v
  act-Later w (go_local reason) v = go_local-Later port w.router reason w.capture v.word
  act-Later w (set_game_mode on) v = set_game_mode-Later w.router on v
  act-Later w asks_local v = request-Later w.router v

  run-Later : (w : World C F) (es : List Event) → Inv w.router → Later w.router (run w es).router
  unfolding run
  run-Later w [] v = Later-refl v
  run-Later w (e ∷ es) v =
      let now = act-Later w e v in Later-trans now (run-Later (act w e) es now.inv)

  -- From a new router whose gate is local, whatever is called, in whatever order, and however often
  -- others ask for local control while the platform's calls run: the gate is open to remote control
  -- only while a remote session is active.
  pub run_closed :
      (gate : ℕ) (c : C) (f : F) (es : List Event)
      → IsWord gate
      → is_local gate ≡ true
      → let r = (run (fresh gate c f) es).router in
        (is_local r.gate ≡ true) ⊎ ((peer : String) × (s : ℕ) × (r.state ≡ remote_active peer s))
  run_closed gate c f es w closed =
      open_cases (run (fresh gate c f) es).router
        (run-Later (fresh gate c f) es (with_gate-Inv gate w closed)).inv

  -- Once local control is asked for while a router that keeps its invariant prepares a hand-over,
  -- whatever happens after that, no late reply to that request is taken: neither its `Ready` nor its
  -- `CommitAck` succeeds.
  pub request_wins :
      (w : World C F) (p : Preparing) (es : List Event) (session now_ms : ℕ)
      → Inv w.router
      → w.router.state ≡ preparing_remote p
      → let v = run (act w asks_local) es in
        (is_ok (Router.ready v.router p.request session).1 ≡ false)
        × (is_ok (Router.commit_ack port v.router p.request session now_ms v.capture).2 ≡ false)
  unfolding act Router.commit_ack Router.commit_ack_in
  request_wins w p es session now_ms inv e =
      let held = subst (λ t. Settled t w.router.gate) e inv.settled in
      let passed = request_local_passes p.request w.router.gate inv.word held.2 held.3 in
      let later = run-Later (act w asks_local) es (request-Later w.router inv).inv in
      let r = (run (act w asks_local) es).router in
      let gone = past_gone p.request r.gate held.1 (omega (arith, passed, later.grown)) in
      (
        ready_gone r p.request session gone,
        commit_ack_gone port r.state r p.request session now_ms (run (act w asks_local) es).capture
            gone,
      )
