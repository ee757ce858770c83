-- ===== src/Routing/Router/Invariant.antt =====
-- What holds of a router (src-tauri/src/routing.rs) between two calls, whatever the ports do.
use mykvm.Base.{
  ℕ, ◌≤◌, ◌<◌, ◌≡◌, refl, Bool, true, Option, some, String, arith, u64_max, Result-cases,
  Option-cases, Bool-cases, inl, inr, subst, not, ◌||◌, ◌==◌,
}
use mykvm.Ports.{CapturePort}
use mykvm.Routing.Gate.{with_local, is_local, request_local, reserve, still_preparing, activate}
use mykvm.Routing.Order.{
  IsWord, requested-Requested, home-Requested, reserve_fresh, activate_opens,
  request_local-Requested,
}
use mykvm.Routing.Types.{
  ReturnReason, Preparing, RouteState, local_desktop, local_game, preparing_remote, remote_active,
  returning_local, Router, RouteError, cancelled, emergency, capture_failed,
}
use mykvm.Routing.Router

-- While a hand-over is prepared, its request is a generation that the gate has reached.
abbrev pub Settled : RouteState → ℕ → Type 0
Settled local_desktop gate = is_local gate ≡ true
Settled local_game gate = is_local gate ≡ true
Settled (preparing_remote p) gate =
    (is_local gate ≡ true)
    × (is_local p.request ≡ true)
    × (p.request < u64_max)
    × (p.request ≤ with_local gate)
Settled (remote_active peer session) gate = Unit {0}
Settled (returning_local reason) gate = ⊥

-- The gate is open only to an active remote session.
pub record Inv (r : Router) : Type 0 where
  pub word : IsWord r.gate
  pub settled : Settled r.state r.gate

-- A later router, with a gate that has not gone back.
pub record Later (r s : Router) : Type 0 where
  pub inv : Inv s
  pub grown : with_local r.gate ≤ with_local s.gate

pub Later-trans : {r s t : Router} → Later r s → Later s t → Later r t
Later-trans a b = record { inv = b.inv; grown = omega arith }

pub Later-refl : {r : Router} → Inv r → Later r r
Later-refl v = record { inv = v; grown = omega arith }

module _ {C : Type 0} (port : CapturePort C) where
  pub go_local-Later :
      (r : Router) (reason : ReturnReason) (c : C)
      → IsWord r.gate
      → Later r (Router.go_local port r reason c).0
  unfolding Router.go_local
  go_local-Later r reason c w =
      ground (arith, home-Requested (Router.restore port r.state c).1 r.gate w)

  pub interfered-Later : (r : Router) (n : ℕ) → Inv r → Later r (Router.interfered r n)
  interfered-Later r n v = ground (arith, requested-Requested n r.gate v.word)

  refuse-Later :
      (r : Router) (reason : ReturnReason) (c : C) (e : RouteError)
      → Inv r
      → Later r (Router.refuse port r reason c e).0
  refuse-Later r reason c e v = go_local-Later r reason c v.word

  open_remote-Later :
      (r : Router) (p : Preparing) (session : ℕ) (c : C)
      → Inv r
      → r.state ≡ preparing_remote p
      → Later r (Router.open_remote port r p session c).0
  unfolding Router.open_remote
  open_remote-Later r p session c v e =
      let called = port.activate_capture c in
      let r' = Router.interfered r called.requests in
      let moved = interfered-Later r called.requests v in
      let held = subst (λ t. Settled t r.gate) e v.settled in
      let home = λ (reason : ReturnReason).
        Later-trans moved (go_local-Later r' reason called.port moved.inv.word) in
      elim (Result-cases called.result) [
        | inr (x, q) ↦ rw (q, Router.open_remote) (home capture_failed)
        | inl (u, q) ↦ elim (Option-cases (activate r'.gate p.request)) [
          | inl a ↦ rw (q, a, Router.open_remote) (home emergency)
          | inr (g, a) ↦
              let opens = activate_opens r'.gate p.request g a in
              rw (q, a, Router.open_remote)
                (record {
                  inv = record { word = omega (arith, opens.3, held.2); settled = tt };
                  grown = omega (arith, moved.grown, opens.2 held.1);
                })
        ]
      ]

  commit_ack_in-Later :
      (t : RouteState) (r : Router) (request session now_ms : ℕ) (c : C)
      → Inv r
      → r.state ≡ t
      → Later r (Router.commit_ack_in port t r request session now_ms c).0
  unfolding Router.commit_ack_in
  commit_ack_in-Later (preparing_remote p) r request session now_ms c v e =
      elim (Bool-cases (Router.is_stale p request session)) [
        | inl stale ↦ rw (stale, Router.commit_ack_in) (Later-refl v)
        | inr known ↦ elim (Bool-cases (Router.is_late r p request now_ms)) [
          | inl late ↦ rw (known, late, Router.commit_ack_in) (refuse-Later r _ c cancelled v)
          | inr timely ↦
              rw (known, timely, Router.commit_ack_in) (open_remote-Later r p session c v e)
        ]
      ]
  commit_ack_in-Later _ r request session now_ms c v e = Later-refl v

  pub commit_ack-Later :
      (r : Router) (request session now_ms : ℕ) (c : C)
      → Inv r
      → Later r (Router.commit_ack port r request session now_ms c).0
  unfolding Router.commit_ack
  commit_ack-Later r request session now_ms c v =
      commit_ack_in-Later r.state r request session now_ms c v refl

  start_remote-Later :
      (r : Router) (peer : String) (request : ℕ) (c : C)
      → Inv r
      → Later r (Router.start_remote port r peer request c).0
  unfolding Router.start_remote
  start_remote-Later r peer request c v =
      let called = port.prepare_capture c in
      let r' = Router.interfered r called.requests in
      let moved = interfered-Later r called.requests v in
      let home = λ (reason : ReturnReason).
        Later-trans moved (go_local-Later r' reason called.port moved.inv.word) in
      elim (Result-cases called.result) [
        | inr (x, q) ↦ rw (q, Router.start_remote) (home capture_failed)
        | inl (u, q) ↦ elim (Bool-cases (still_preparing r'.gate request)) [
          | inl current ↦ rw (q, current, Router.start_remote) moved
          | inr gone ↦ rw (q, gone, Router.start_remote) (home emergency)
        ]
      ]

  prepared-Later :
      (r : Router) (peer : String) (request deadline keys : ℕ)
      → Inv r
      → reserve r.gate ≡ some request
      → Later r (Router.prepared r peer request deadline keys)
  prepared-Later r peer request deadline keys v e =
      ground (arith, reserve_fresh r.gate request v.word e)

  reserved-Later :
      (r : Router) (peer : String) (deadline keys request : Option ℕ) (c : C)
      → Inv r
      → reserve r.gate ≡ request
      → Later r (Router.reserved port r peer deadline keys request c).0
  unfolding Router.reserved
  reserved-Later r peer (some deadline) (some keys) (some request) c v e =
      let ready = prepared-Later r peer request deadline keys v e in
      Later-trans ready
        (start_remote-Later (Router.prepared r peer request deadline keys) peer request c ready.inv)
  reserved-Later r peer _ _ _ c v e = Later-refl v

  go_remote_from-Later :
      (t : RouteState) (r : Router) (peer : String) (now_ms : ℕ) (c : C)
      → Inv r
      → Later r (Router.go_remote_from port t r peer now_ms c).0
  unfolding Router.go_remote_from Router.leave_home Router.same_target
  go_remote_from-Later local_desktop r peer now_ms c v = reserved-Later r peer _ _ _ c v refl
  go_remote_from-Later local_game r peer now_ms c v = reserved-Later r peer _ _ _ c v refl
  go_remote_from-Later _ r peer now_ms c v = ground (arith, Later-refl v)

  pub go_remote-Later :
      (r : Router) (peer : String) (now_ms : ℕ) (c : C)
      → Inv r
      → Later r (Router.go_remote port r peer now_ms c).0
  unfolding Router.go_remote
  go_remote-Later r peer now_ms c v =
      ground (arith, Later-refl v, go_remote_from-Later r.state r peer now_ms c v)

ready_for-Later :
    (t : RouteState) (r : Router) (request offered : ℕ)
    → Inv r
    → r.state ≡ t
    → Later r (Router.ready_for t r request offered).0
unfolding Router.ready_for
ready_for-Later (preparing_remote p) r request offered v e =
    elim (Bool-cases (not (request == p.request) || Router.other_session p.session offered)) [
      | inl bad ↦ rw bad (Later-refl v)
      | inr good ↦ rw good (record {
        inv = record { word = v.word; settled = subst (λ t. Settled t r.gate) e v.settled };
        grown = omega arith;
      })
    ]
ready_for-Later _ r request offered v e = Later-refl v

pub ready-Later :
    (r : Router) (request offered : ℕ) → Inv r → Later r (Router.ready r request offered).0
unfolding Router.ready
ready-Later r request offered v =
    elim (Bool-cases (offered == 0 || not (still_preparing r.gate request))) [
      | inl bad ↦ rw bad (Later-refl v)
      | inr good ↦ rw good (ready_for-Later r.state r request offered v refl)
    ]

pub set_game_mode-Later : (r : Router) (on : Bool) → Inv r → Later r (Router.set_game_mode r on)
unfolding Router.set_game_mode
set_game_mode-Later r on v = ground arith

-- `LocalOverride::request_local`, called by anyone who holds the gate.
pub request-Later : (r : Router) → Inv r → Later r (record r { gate = request_local r.gate })
request-Later r v = ground (arith, request_local-Requested r.gate v.word)
