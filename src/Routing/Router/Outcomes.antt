-- ===== src/Routing/Router/Outcomes.antt =====
-- What each call of the router in src-tauri/src/routing.rs can come to, for its clients.
use mykvm.Base.{
  ||_false, subst, ℕ, ◌≡◌, refl, ◌⊎◌, inl, inr, Bool, true, false, not, ◌||◌, Option, none, some,
  List, [], ◌∷◌, String, arith, Result, ok, err, Result-cases, Option-cases, Bool-cases, ◌==◌,
  is_blank, ltb, string_beq,
}
use mykvm.Ports.{CapturePort, FocusPort}
use mykvm.Routing.Gate.{is_local, still_preparing}
use mykvm.Routing.Types.{
  ReturnReason, Preparing, RouteState, local_desktop, local_game, preparing_remote, remote_active,
  returning_local, RouteEffect, RouteError, Router, emergency, focus_unavailable,
}
use mykvm.Routing.Router
use mykvm.Routing.Router.{return_effects, at_home, seen_in}

-- The effects of `go_remote`, and the state after it.
abbrev pub Prepares : RouteState → RouteState → List RouteEffect → Type 0
Prepares t u effects =
    ((effects ≡ []) × (u ≡ t))
    ⊎ ((peer : String) × (p : Preparing) × (effects ≡ RouteEffect.prepare peer p.request ∷ [])
        × (at_home t ≡ true)
        × (u ≡ preparing_remote p)
        × (p.session ≡ none)
        × (p.commit_sent ≡ false))

-- The result of `go_remote`: an error leaves a router at home at home, and any other as it was.
abbrev pub Departs : RouteState → RouteState → Result RouteError (List RouteEffect) → Type 0
Departs t u (ok effects) = Prepares t u effects
Departs t u (err e) = (u ≡ t) ⊎ ((at_home t ≡ true) × (at_home u ≡ true))

-- What `advance` can come to.
abbrev pub Advances : RouteState → RouteState → List RouteEffect → Type 0
Advances t u effects =
    ((u ≡ t) × (effects ≡ []))
    ⊎ ((p : Preparing) × (keys : Bool) × (t ≡ preparing_remote p)
        × (u ≡ preparing_remote (seen_in p keys))
        × (effects ≡ []))
    ⊎ ((p : Preparing) × (keys : Bool) × (session : ℕ) × (t ≡ preparing_remote p)
        × (p.session ≡ some session)
        × (p.commit_sent ≡ false)
        × (u ≡ preparing_remote (record (seen_in p keys) { commit_sent = true }))
        × (effects ≡ RouteEffect.commit p.request session ∷ []))
    ⊎ ((reason : ReturnReason) × (at_home u ≡ true) × (effects ≡ return_effects t reason))

pub local_home : (r : Router) → at_home (Router.local_state r) ≡ true
local_home r = ground arith

ready_for_ok :
    (t : RouteState) (r : Router) (request offered : ℕ)
    → (Router.ready_for t r request offered).1 ≡ ok tt
    → (p : Preparing) × (t ≡ preparing_remote p)
      × (p.request ≡ request)
      × ((Router.ready_for t r request offered).0.state
          ≡ preparing_remote (record p { session = some offered }))
unfolding Router.ready_for
ready_for_ok (preparing_remote p) r request offered e =
    elim (Bool-cases (not (request == p.request) || Router.other_session p.session offered)) [
      | inl bad ↦ cc (rw (bad, Router.ready_for) at e)
      | inr good ↦ (p, refl, ground arith, rw (good, Router.ready_for) refl)
    ]
ready_for_ok local_desktop r request offered e = cc
ready_for_ok _ r request offered e = cc

pub ready_ok :
    (r : Router) (request offered : ℕ)
    → (Router.ready r request offered).1 ≡ ok tt
    → (p : Preparing) × (r.state ≡ preparing_remote p)
      × (p.request ≡ request)
      × ((Router.ready r request offered).0.state
          ≡ preparing_remote (record p { session = some offered }))
unfolding Router.ready
ready_ok r request offered =
    elim (Bool-cases (offered == 0 || not (still_preparing r.gate request))) [
      | inl bad ↦ rw (bad, Router.ready) λ e. cc
      | inr good ↦ rw (good, Router.ready) (ready_for_ok r.state r request offered)
    ]

module _ {C : Type 0} (port : CapturePort C) where
  start_remote_outcome :
      (t : RouteState) (r : Router) (p : Preparing) (peer : String) (c : C)
      → at_home t ≡ true
      → r.state ≡ preparing_remote p
      → p.session ≡ none
      → p.commit_sent ≡ false
      → Departs t
          (Router.start_remote port r peer p.request c).0.state
          (Router.start_remote port r peer p.request c).2
  unfolding Router.start_remote Router.go_local
  start_remote_outcome t r p peer c home e unoffered unsent =
      let called = port.prepare_capture c in
      let r' = Router.interfered r called.requests in
      elim (Result-cases called.result) [
        | inr (x, q) ↦ rw (q, Router.start_remote) (inr (home, local_home r'))
        | inl (u, q) ↦ elim (Bool-cases (still_preparing r'.gate p.request)) [
          | inr gone ↦ rw (q, gone, Router.start_remote) (inr (home, local_home r'))
          | inl current ↦
              rw (q, current, Router.start_remote) (inr (peer, p, refl, home, e, unoffered, unsent))
        ]
      ]

  reserved_outcome :
      (t : RouteState) (r : Router) (peer : String) (d k n : Option ℕ) (c : C)
      → r.state ≡ t
      → at_home t ≡ true
      → Departs t
          (Router.reserved port r peer d k n c).0.state
          (Router.reserved port r peer d k n c).2
  unfolding Router.reserved
  reserved_outcome t r peer (some d) (some k) (some n) c e home =
      start_remote_outcome t (Router.prepared r peer n d k)
        (record {
          peer = peer;
          request = n;
          deadline_ms = d;
          keys_deadline_ms = k;
          keys_released_seen = false;
          session = none;
          commit_sent = false;
        })
        peer c home refl refl refl
  reserved_outcome t r peer _ _ _ c e home = inl e

  same_target_outcome :
      (r : Router) (current peer : String) (c : C)
      → Departs r.state
          (Router.same_target port r current peer c).0.state
          (Router.same_target port r current peer c).2
  unfolding Router.same_target
  same_target_outcome r current peer c = elim (Bool-cases (string_beq current peer)) [
    | inl same ↦ rw same (inl (refl, refl))
    | inr other ↦ rw other (inl refl)
  ]

  go_remote_from_outcome :
      (t : RouteState) (r : Router) (peer : String) (now_ms : ℕ) (c : C)
      → r.state ≡ t
      → Departs t
          (Router.go_remote_from port t r peer now_ms c).0.state
          (Router.go_remote_from port t r peer now_ms c).2
  unfolding Router.go_remote_from Router.leave_home
  go_remote_from_outcome (preparing_remote p) r peer now_ms c e =
      subst
        (λ t.
          Departs t (Router.same_target port r p.peer peer c).0.state
            (Router.same_target port r p.peer peer c).2)
        e (same_target_outcome r p.peer peer c)
  go_remote_from_outcome (remote_active current session) r peer now_ms c e =
      subst
        (λ t.
          Departs t (Router.same_target port r current peer c).0.state
            (Router.same_target port r current peer c).2)
        e (same_target_outcome r current peer c)
  go_remote_from_outcome (returning_local reason) r peer now_ms c e = inl e
  go_remote_from_outcome local_desktop r peer now_ms c e =
      reserved_outcome local_desktop r peer _ _ _ c e refl
  go_remote_from_outcome local_game r peer now_ms c e =
      reserved_outcome local_game r peer _ _ _ c e refl

  pub go_remote_outcome :
      (r : Router) (peer : String) (now_ms : ℕ) (c : C)
      → Departs r.state
          (Router.go_remote port r peer now_ms c).0.state
          (Router.go_remote port r peer now_ms c).2
  unfolding Router.go_remote
  go_remote_outcome r peer now_ms c =
      elim (Bool-cases (is_blank peer || ltb 256 (Router.len peer))) [
        | inl bad ↦ rw (bad, Router.go_remote) (inl refl)
        | inr good ↦
            rw (good, Router.go_remote) (go_remote_from_outcome r.state r peer now_ms c refl)
      ]

  module _ {F : Type 0} (focus : FocusPort F) where
    send_commit_outcome :
        (r : Router) (p : Preparing) (keys : Bool) (session : ℕ) (c : C) (f : F)
        → r.state ≡ preparing_remote (seen_in p keys)
        → p.session ≡ some session
        → p.commit_sent ≡ false
        → Advances
            (preparing_remote p)
            (Router.send_commit port focus r (seen_in p keys) session c f).0.state
            (Router.send_commit port focus r (seen_in p keys) session c f).3
    unfolding Router.send_commit Router.go_local
    send_commit_outcome r p keys session c f e offered unsent =
        let called = focus.prepare_focus f in
        let r' = Router.interfered r called.requests in
        elim (Result-cases called.result) [
          | inr (x, q) ↦
              rw (q, Router.send_commit)
                (inr (inr (inr (focus_unavailable, local_home r', rw e refl))))
          | inl (u, q) ↦ elim (Bool-cases (still_preparing r'.gate p.request)) [
            | inr gone ↦
                rw (q, gone, Router.send_commit)
                  (inr (inr (inr (emergency, local_home r', rw e refl))))
            | inl current ↦
                rw (q, current, Router.send_commit)
                  (inr (inr (inl (p, keys, session, refl, offered, unsent, refl, refl))))
          ]
        ]

    wait_or_commit_outcome :
        (r : Router) (p : Preparing) (keys : Bool) (c : C) (f : F)
        → Advances
            (preparing_remote p)
            (Router.wait_or_commit port focus r p keys c f).0.state
            (Router.wait_or_commit port focus r p keys c f).3
    unfolding Router.wait_or_commit
    wait_or_commit_outcome r p keys c f =
        let Comes : Router × C × F × List RouteEffect → Type 0 =
          λ u. Advances (preparing_remote p) u.0.state u.3 in
        elim (Bool-cases (p.commit_sent || not keys)) [
          | inl wait ↦ rw (wait, Router.wait_or_commit) (inr (inl (p, keys, refl, refl, refl)))
          | inr go ↦
              rw (go, Router.wait_or_commit)
                ((elim p.session
                    as (λ o.
                      p.session ≡ o
                      → Comes (elim o [
                        | none ↦ (Router.seen r p keys, c, f, [])
                        | some s ↦
                            Router.send_commit port focus (Router.seen r p keys) (seen_in p keys) s
                              c f
                      ])) [
                        | none ↦ λ absent. inr (inl (p, keys, refl, refl, refl))
                        | some s ↦ λ offered.
                            send_commit_outcome (Router.seen r p keys) p keys s c f refl offered
                              (||_false p.commit_sent (not keys) go).0
                      ])
                  refl)
        ]

    advance_in_outcome :
        (t : RouteState) (r : Router) (now_ms : ℕ) (keys : Bool) (c : C) (f : F)
        → r.state ≡ t
        → Advances t
            (Router.advance_in port focus t r now_ms keys c f).0.state
            (Router.advance_in port focus t r now_ms keys c f).3
    unfolding Router.advance_in Router.go_local
    advance_in_outcome (preparing_remote p) r now_ms keys c f e =
        elim (Option-cases (Router.give_up_reason r p now_ms keys)) [
          | inr (reason, q) ↦
              rw (q, Router.advance_in) (inr (inr (inr (reason, local_home r, rw e refl))))
          | inl q ↦ rw (q, Router.advance_in) (wait_or_commit_outcome r p keys c f)
        ]
    advance_in_outcome (remote_active peer session) r now_ms keys c f e =
        elim (Bool-cases (is_local r.gate)) [
          | inl closed ↦ rw closed (inr (inr (inr (emergency, local_home r, rw e refl))))
          | inr open_gate ↦ rw open_gate (inl (e, refl))
        ]
    advance_in_outcome _ r now_ms keys c f e = inl (e, refl)

    pub advance_outcome :
        (r : Router) (now_ms : ℕ) (keys_released : Bool) (c : C) (f : F)
        → Advances r.state
            (Router.advance port focus r now_ms keys_released c f).0.state
            (Router.advance port focus r now_ms keys_released c f).3
    unfolding Router.advance
    advance_outcome r now_ms keys_released c f =
        advance_in_outcome r.state r now_ms keys_released c f refl
