-- ===== src/Routing/Router/Handover.antt =====
-- What it takes to hand control over in src-tauri/src/routing.rs, and where a failure leaves it.
use mykvm.Base.{
  ℕ, ◌<◌, ◌≡◌, refl, true, false, some, arith, ok, is_ok, Bool-cases, Option-cases, Result-cases,
  inl, inr,
}
use mykvm.Ports.{CapturePort}
use mykvm.Routing.Gate.{is_local, activate}
use mykvm.Routing.Order.{activate_opens}
use mykvm.Routing.Types.{
  Preparing, RouteState, local_desktop, preparing_remote, remote_active, Router,
}
use mykvm.Routing.Router

module _ {C : Type 0} (port : CapturePort C) where
  -- What a successful acknowledgement says of the hand-over that it completes, and of its result.
  abbrev pub Completed : Preparing → Router → ℕ → ℕ → ℕ → C → Router → Type 0
  Completed p r request session now_ms c s =
      (p.request ≡ request)
      × (p.session ≡ some session)
      × (p.commit_sent ≡ true)
      × (now_ms < p.deadline_ms)
      × ((port.activate_capture c).result ≡ ok tt)
      × (s.state ≡ remote_active p.peer session)
      × (is_local s.gate ≡ false)

  open_remote_ok :
      (r : Router) (p : Preparing) (session : ℕ) (c : C)
      → is_ok (Router.open_remote port r p session c).2 ≡ true
      → let s = (Router.open_remote port r p session c).0 in
        ((port.activate_capture c).result ≡ ok tt)
        × (s.state ≡ remote_active p.peer session)
        × (is_local s.gate ≡ false)
  unfolding Router.open_remote
  open_remote_ok r p session c e =
      let called = port.activate_capture c in
      let r' = Router.interfered r called.requests in
      elim (Result-cases called.result) [
        | inr (x, q) ↦ cc (rw (q, Router.open_remote) at e)
        | inl (u, q) ↦ elim (Option-cases (activate r'.gate p.request)) [
          | inl a ↦ cc (rw (q, a, Router.open_remote) at e)
          | inr (g, a) ↦
              rw (q, a, Router.open_remote) (refl, refl, (activate_opens r'.gate p.request g a).1)
        ]
      ]

  current :
      (p : Preparing) (request session : ℕ)
      → Router.is_stale p request session ≡ false
      → (p.request ≡ request) × (p.session ≡ some session) × (p.commit_sent ≡ true)
  unfolding Router.is_stale
  current p request session e = ground arith

  timely :
      (r : Router) (p : Preparing) (request now_ms : ℕ)
      → Router.is_late r p request now_ms ≡ false
      → now_ms < p.deadline_ms
  unfolding Router.is_late
  timely r p request now_ms e = ground arith

  commit_ack_in_ok :
      (t : RouteState) (r : Router) (request session now_ms : ℕ) (c : C)
      → is_ok (Router.commit_ack_in port t r request session now_ms c).2 ≡ true
      → (p : Preparing) × (t ≡ preparing_remote p)
        × Completed p r request session now_ms c
            (Router.commit_ack_in port t r request session now_ms c).0
  unfolding Router.commit_ack_in
  commit_ack_in_ok (preparing_remote p) r request session now_ms c e =
      elim (Bool-cases (Router.is_stale p request session)) [
        | inl stale ↦ cc (rw (stale, Router.commit_ack_in) at e)
        | inr known ↦ elim (Bool-cases (Router.is_late r p request now_ms)) [
          | inl late ↦ cc (rw (known, late, Router.commit_ack_in) at e)
          | inr early ↦
              let opened =
                open_remote_ok r p session c (rw (known, early, Router.commit_ack_in) at e) in
              let named = current p request session known in
              (
                p,
                refl,
                rw (known, early, Router.commit_ack_in)
                    (
                      named.0,
                      named.1,
                      named.2,
                      timely r p request now_ms early,
                      opened.0,
                      opened.1,
                      opened.2,
                    ),
              )
        ]
      ]
  commit_ack_in_ok local_desktop r request session now_ms c e = cc
  commit_ack_in_ok _ r request session now_ms c e = cc

  -- A `CommitAck` is taken only for the request being prepared, for the session that was offered for
  -- it, after the commit was sent and before the deadline, once the platform has activated the
  -- capture; then the session is the active one and the gate is open.
  pub commit_ack_ok :
      (r : Router) (request session now_ms : ℕ) (c : C)
      → is_ok (Router.commit_ack port r request session now_ms c).2 ≡ true
      → (p : Preparing) × (r.state ≡ preparing_remote p)
        × Completed p r request session now_ms c
            (Router.commit_ack port r request session now_ms c).0
  unfolding Router.commit_ack
  commit_ack_ok r request session now_ms c e = commit_ack_in_ok r.state r request session now_ms c e
