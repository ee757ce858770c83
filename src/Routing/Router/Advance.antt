-- ===== src/Routing/Router/Advance.antt =====
-- `Router::advance` of src-tauri/src/routing.rs keeps what holds of a router.
use mykvm.Base.{
  ℕ, ◌≡◌, refl, Bool, arith, Result-cases, Option-cases, Bool-cases, inl, inr, subst, not, ◌||◌,
}
use mykvm.Ports.{CapturePort, FocusPort}
use mykvm.Routing.Gate.{is_local, still_preparing}
use mykvm.Routing.Types.{
  ReturnReason, Preparing, RouteState, preparing_remote, remote_active, Router, emergency,
  focus_unavailable,
}
use mykvm.Routing.Router
use mykvm.Routing.Router.Invariant.{
  Settled, Inv, Later, Later-trans, Later-refl, interfered-Later, go_local-Later,
}

module _ {C F : Type 0} (port : CapturePort C) (focus : FocusPort F) where
  send_commit-Later :
      (r : Router) (p : Preparing) (session : ℕ) (c : C) (f : F)
      → Inv r
      → r.state ≡ preparing_remote p
      → Later r (Router.send_commit port focus r p session c f).0
  unfolding Router.send_commit
  send_commit-Later r p session c f v e =
      let called = focus.prepare_focus f in
      let r' = Router.interfered r called.requests in
      let moved = interfered-Later port r called.requests v in
      let home = λ (reason : ReturnReason).
        Later-trans moved (go_local-Later port r' reason c moved.inv.word) in
      elim (Result-cases called.result) [
        | inr (x, q) ↦ rw (q, Router.send_commit) (home focus_unavailable)
        | inl (u, q) ↦ elim (Bool-cases (still_preparing r'.gate p.request)) [
          | inl current ↦
              rw (q, current, Router.send_commit)
                (record {
                  inv = record {
                    word = moved.inv.word;
                    settled = subst (λ t. Settled t r'.gate) e moved.inv.settled;
                  };
                  grown = moved.grown;
                })
          | inr gone ↦ rw (q, gone, Router.send_commit) (home emergency)
        ]
      ]

  seen-Later :
      (r : Router) (p : Preparing) (keys_released : Bool)
      → Inv r
      → r.state ≡ preparing_remote p
      → Later r (Router.seen r p keys_released)
  seen-Later r p keys_released v e = record {
    inv = record { word = v.word; settled = subst (λ t. Settled t r.gate) e v.settled };
    grown = omega arith;
  }

  wait_or_commit-Later :
      (r : Router) (p : Preparing) (keys_released : Bool) (c : C) (f : F)
      → Inv r
      → r.state ≡ preparing_remote p
      → Later r (Router.wait_or_commit port focus r p keys_released c f).0
  unfolding Router.wait_or_commit
  wait_or_commit-Later r p keys_released c f v e =
      let q = Router.seen_in p keys_released in
      let moved = seen-Later r p keys_released v e in
      elim (Bool-cases (p.commit_sent || not keys_released)) [
        | inl wait ↦ rw (wait, Router.wait_or_commit) moved
        | inr go ↦ elim (Option-cases p.session) [
          | inl absent ↦ rw (go, absent, Router.wait_or_commit) moved
          | inr (s, offered) ↦
              rw (go, offered, Router.wait_or_commit)
                (Later-trans moved
                  (send_commit-Later (Router.seen r p keys_released) q s c f moved.inv refl))
        ]
      ]

  advance_in-Later :
      (t : RouteState) (r : Router) (now_ms : ℕ) (keys_released : Bool) (c : C) (f : F)
      → Inv r
      → r.state ≡ t
      → Later r (Router.advance_in port focus t r now_ms keys_released c f).0
  unfolding Router.advance_in
  advance_in-Later (preparing_remote p) r now_ms keys_released c f v e =
      elim (Option-cases (Router.give_up_reason r p now_ms keys_released)) [
        | inr (reason, q) ↦ rw (q, Router.advance_in) (go_local-Later port r reason c v.word)
        | inl q ↦ rw (q, Router.advance_in) (wait_or_commit-Later r p keys_released c f v e)
      ]
  advance_in-Later (remote_active peer session) r now_ms keys_released c f v e =
      elim (Bool-cases (is_local r.gate)) [
        | inl closed ↦ rw closed (go_local-Later port r emergency c v.word)
        | inr open_gate ↦ rw open_gate (Later-refl v)
      ]
  advance_in-Later _ r now_ms keys_released c f v e = Later-refl v

  pub advance-Later :
      (r : Router) (now_ms : ℕ) (keys_released : Bool) (c : C) (f : F)
      → Inv r
      → Later r (Router.advance port focus r now_ms keys_released c f).0
  unfolding Router.advance
  advance-Later r now_ms keys_released c f v =
      advance_in-Later r.state r now_ms keys_released c f v refl
