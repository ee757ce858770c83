-- ===== src/Session/Runtime/Invariant.antt =====
-- What holds of a receiver's runtime (src-tauri/src/session_runtime.rs) between two calls, and the
-- steps that every call is made of.
use mykvm.Base.{
  ℕ, ◌≡◌, refl, subst, Option, none, some, List, [], ◌∷◌, arith, ok, err, Result-cases,
  Option-cases, inl, inr,
}
use mykvm.Input.{InputCommand}
use mykvm.Ports.{InjectorPort, PortError, submit_ready}
use mykvm.Pressed
use mykvm.Pressed.{PressedState}
use mykvm.Pressed.Distinct.{ButtonsDistinct}
use mykvm.Protocol.Types.{SessionId, MotionFrame}
use mykvm.Protocol.Gate
use mykvm.Protocol.Gate.{InputSessionGate}
use mykvm.Session.Types.{SessionRuntimeError, Runtime, SessionFault}
use mykvm.Session.Runtime.{M, ◌>>=◌, drop_session, gate_ended, release_pressed, submit_all}

-- The session of the runtime is the one that its input gate lets in.
abbrev pub Agree : Option SessionId → Option (SessionId × ℕ) → Type 0
Agree none none = Unit {0}
Agree none (some g) = ⊥
Agree (some s) none = ⊥
Agree (some s) (some g) = g.0 ≡ s

-- A motion that waits is one of the session.
abbrev pub Pending : Option MotionFrame → Option SessionId → Type 0
Pending none session = Unit {0}
Pending (some f) session = session ≡ some f.session_id

pub record Inv {I : Type 0} (r : Runtime I) : Type 0 where
  pub agree : Agree r.active_session r.input_gate.active
  pub pending : Pending r.pending_motion r.active_session
  pub distinct : ButtonsDistinct r.pressed.buttons

module _ {I A B : Type 0} (m : M I A) (f : A → M I B) (r : Runtime I) where
  -- A sequence of two steps, by the outcome of the first.
  pub bind_cases :
      (P : Runtime I → Type 0)
      → ((a : A) → (m r).1 ≡ ok a → P (f a (m r).0).0)
      → ((e : SessionRuntimeError) → (m r).1 ≡ err e → P (m r).0)
      → P ((m >>= f) r).0
  unfolding ◌>>=◌
  bind_cases P good bad = elim (Result-cases (m r).1) [
    | inl (a, e) ↦ rw (e, ◌>>=◌) (good a e)
    | inr (x, e) ↦ rw (e, ◌>>=◌) (bad x e)
  ]

gate_ended_active :
    (g : InputSessionGate) (s : SessionId)
    → Agree (some s) g.active
    → (gate_ended g s).active ≡ none
unfolding Gate.end
gate_ended_active g s h = ground arith

pub drop_session-Inv :
    {I : Type 0} (s : SessionId) (r : Runtime I)
    → Inv r
    → r.active_session ≡ some s
    → Inv (drop_session s r)
drop_session-Inv s r v e = record {
  agree =
      rw (gate_ended_active r.input_gate s (subst (λ t. Agree t r.input_gate.active) e v.agree)) tt;
  pending = tt;
  distinct = v.distinct;
}

release_all-empty : (p : PressedState) → (Pressed.release_all p).0 ≡ Pressed.empty
unfolding Pressed.release_all
release_all-empty p = refl

module _ {I : Type 0} (port : InjectorPort I) where
  -- Releasing touches the ledger, the injector and the fault only; when it succeeds nothing is held.
  pub release_pressed_keeps :
      (P : Runtime I → Type 0) (r : Runtime I)
      → ((i : I) → P (record r { pressed = Pressed.empty; injector = i }))
      → ((i : I) (e : Option SessionFault) → P (record r { injector = i; last_fault = e }))
      → P (release_pressed port r).0
  unfolding release_pressed Pressed.release_all
  release_pressed_keeps P r good bad =
      elim (Option-cases
        (submit_all port (Pressed.release_all r.pressed).1 r.injector none none).1) [
          | inl e ↦ rw (e, release_pressed) (good _)
          | inr (x, e) ↦ rw (e, release_pressed) (bad _ _)
        ]

  pub release_pressed-Inv : (r : Runtime I) → Inv r → Inv (release_pressed port r).0
  release_pressed-Inv r v =
      release_pressed_keeps Inv r
        (λ i. record { agree = v.agree; pending = v.pending; distinct = tt })
        (λ i e. record { agree = v.agree; pending = v.pending; distinct = v.distinct })

  -- The injector took every one of these commands, one after the other, and ended up like this.
  abbrev pub AllTaken : List InputCommand → I → I → Type 0
  AllTaken [] i last = i ≡ last
  AllTaken (c ∷ cs) i last =
      ((submit_ready port i c).1 ≡ ok tt) × AllTaken cs (submit_ready port i c).0 last

  submit_all_first :
      (cs : List InputCommand) (i : I) (e : PortError) (last : Option PortError)
      → (submit_all port cs i (some e) last).1 ≡ some e
  unfolding submit_all
  submit_all_first [] i e last = refl
  submit_all_first (c ∷ cs) i e last = elim (Result-cases (submit_ready port i c).1) [
    | inl (u, q) ↦ rw (q, submit_all) (submit_all_first cs _ e last)
    | inr (x, q) ↦ rw (q, submit_all) (submit_all_first cs _ e (some x))
  ]

  submit_all-AllTaken :
      (cs : List InputCommand) (i : I) (last : Option PortError)
      → (submit_all port cs i none last).1 ≡ none
      → AllTaken cs i (submit_all port cs i none last).0
  unfolding submit_all
  submit_all-AllTaken [] i last = λ h. refl
  submit_all-AllTaken (c ∷ cs) i last = elim (Result-cases (submit_ready port i c).1) [
    | inl (u, q) ↦ rw (q, submit_all) λ h. (refl, submit_all-AllTaken cs _ last h)
    | inr (x, q) ↦
        rw (q, submit_all)
          λ h. absurd (cc (h, submit_all_first cs (submit_ready port i c).0 x (some x)))
  ]

  -- Nothing is held after, and the injector took a release of all that was held before.
  abbrev pub AllReleased : Runtime I → Runtime I → Type 0
  AllReleased before after =
      (after.pressed ≡ Pressed.empty)
      × AllTaken (Pressed.release_all before.pressed).1 before.injector after.injector

  pub release_pressed_ok :
      (r : Runtime I)
      → (release_pressed port r).1 ≡ ok tt
      → AllReleased r (release_pressed port r).0
  unfolding release_pressed
  release_pressed_ok r =
      elim (Option-cases
        (submit_all port (Pressed.release_all r.pressed).1 r.injector none none).1) [
          | inl e ↦
              rw (e, release_pressed)
                λ done. (
                  release_all-empty r.pressed,
                  submit_all-AllTaken (Pressed.release_all r.pressed).1 r.injector none e,
                )
          | inr (x, e) ↦ rw (e, release_pressed) λ done. ground arith
        ]
