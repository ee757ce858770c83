-- ===== src/Session/Control/Lease.antt =====
-- The lease of an input session (src-tauri/src/session_runtime.rs): when it runs out, the session is over.
use mykvm.Base.{
  ℕ, ◌≡◌, ◌≤◌, arith, refl, true, false, none, some, ok, Result-cases, Bool-cases, inl, inr, Option,
  ltb, ◌-◌, ◌+◌,
}
use mykvm.Ports.{InjectorPort}
use mykvm.Protocol.Types.{SessionId}
use mykvm.Session.Types.{lease_expired, Runtime, SessionFault}
use mykvm.Session.Runtime.{release_pressed, drop_session, pure, ◌>>=◌}
use mykvm.Session.Runtime.Invariant.{
  Agree, Inv, drop_session-Inv, release_pressed_keeps, bind_cases, release_pressed_ok, AllReleased,
}
use mykvm.Session.Control

-- No session, a gate that lets nothing in, no motion that waits.
pub record Closed {I : Type 0} (r : Runtime I) : Type 0 where
  pub session : r.active_session ≡ none
  pub gate : r.input_gate.active ≡ none
  pub motion : r.pending_motion ≡ none

Agree-none : (g : Option (SessionId × ℕ)) → Agree none g → g ≡ none
Agree-none none a = refl
Agree-none (some g) a = elim a [ ]

late_lem : (t now : ℕ) → t + 3000 ≤ now → ltb (now - t) 3000 ≡ false
late_lem t now h = ground arith

module _ {I : Type 0} (port : InjectorPort I) where
  release_Closed : (r : Runtime I) → Closed r → Closed (release_pressed port r).0
  release_Closed r c =
      release_pressed_keeps port Closed r
        (λ i. record { session = c.session; gate = c.gate; motion = c.motion })
        (λ i e. record { session = c.session; gate = c.gate; motion = c.motion })

  force_end-Closed :
      (session_id : SessionId) (fault : SessionFault) (r : Runtime I)
      → Inv r
      → r.active_session ≡ some session_id
      → Closed (Control.force_end port session_id fault r).0
  force_end-Closed session_id fault r v e =
      let d = drop_session-Inv session_id r v e in
      let x = record (drop_session session_id r) { last_fault = some fault } in
      let c : Closed x = record { session = refl; gate = Agree-none _ d.agree; motion = refl } in
      bind_cases (release_pressed port) (λ _. pure true) x Closed (λ a o. release_Closed x c)
        (λ y o. release_Closed x c)

  released_ok :
      (x : Runtime I)
      → ((release_pressed port >>= λ _. pure true) x).1 ≡ ok true
      → AllReleased port x ((release_pressed port >>= λ _. pure true) x).0
  unfolding ◌>>=◌
  released_ok x = elim (Result-cases (release_pressed port x).1) [
    | inl (a, o) ↦ rw (o, ◌>>=◌) λ done. release_pressed_ok port x o
    | inr (y, o) ↦ rw (o, ◌>>=◌) λ done. ground arith
  ]

  expire_session_ok :
      (session : Option SessionId) (last : Option ℕ) (now_ms : ℕ) (r : Runtime I)
      → (Control.expire_session port session last now_ms r).1 ≡ ok true
      → AllReleased port r (Control.expire_session port session last now_ms r).0
  unfolding Control.expire_session
  expire_session_ok (some s) (some t) now_ms r = elim (Bool-cases (ltb (now_ms - t) 3000)) [
    | inl early ↦ rw early λ done. ground arith
    | inr late ↦ rw late (released_ok _)
  ]
  expire_session_ok (some s) none now_ms r = λ done. ground arith
  expire_session_ok none last now_ms r = λ done. ground arith

  -- A lease check that answers true has released everything: the injector took, one after the other,
  -- each of the commands that release what the session held, and no key and no button is held.
  pub expire_if_needed_ok :
      (r : Runtime I) (now_ms : ℕ)
      → (Control.expire_if_needed port now_ms r).1 ≡ ok true
      → AllReleased port r (Control.expire_if_needed port now_ms r).0
  unfolding Control.expire_if_needed
  expire_if_needed_ok r now_ms = expire_session_ok r.active_session r.last_activity_ms now_ms r

  -- Of a runtime that keeps the invariant and whose session was last touched three seconds ago or
  -- longer, a lease check leaves no session, no gate that lets input in and no motion that waits,
  -- whether or not the injector fails.
  pub expire_if_needed-Closed :
      (r : Runtime I) (session_id : SessionId) (last_activity_ms now_ms : ℕ)
      → Inv r
      → r.active_session ≡ some session_id
      → r.last_activity_ms ≡ some last_activity_ms
      → last_activity_ms + 3000 ≤ now_ms
      → Closed (Control.expire_if_needed port now_ms r).0
  unfolding Control.expire_if_needed Control.expire_session
  expire_if_needed-Closed r s t now v e l late =
      simp (e, l, late_lem t now late) (force_end-Closed s lease_expired r v e)
