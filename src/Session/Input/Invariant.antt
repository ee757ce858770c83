-- ===== src/Session/Input/Invariant.antt =====
-- Every input frame that src-tauri/src/session_runtime.rs takes keeps the runtime's invariant.
use mykvm.Base.{
  ok_same, suc, ℕ, ◌≡◌, refl, sym, subst, none, some, Option, ok, Result-cases, Option-cases, inl,
  inr, arith, List, ℤ, ◌∷◌, [],
}
use mykvm.Input.{InputCommand}
use mykvm.Ports.{InjectorPort}
use mykvm.Pressed
use mykvm.Pressed.{PressedState}
use mykvm.Pressed.Distinct.{ButtonsDistinct, apply-ButtonsDistinct}
use mykvm.Pressed.Release.{ButtonsDistinct-map}
use mykvm.Protocol.Types.{SessionId, CriticalEvent, CriticalFrame, MotionFrame, session_eq}
use mykvm.Protocol.Gate
use mykvm.Protocol.Gate.Order.{accept_active}
use mykvm.Session.Types.{Runtime, SessionFault}
use mykvm.Session.Runtime.{drop_session}
use mykvm.Session.Runtime.Invariant.{Inv, Agree, drop_session-Inv, release_pressed-Inv}
use mykvm.Session.Runtime.Steps.{Good, bind-Good}
use mykvm.Session.Input

pub event_commands-ButtonsDistinct :
    (event mapped : CriticalEvent) (pointer : Option (ℤ × ℤ)) (pressed : PressedState)
    → ButtonsDistinct pressed.buttons
    → ButtonsDistinct (Input.event_commands event mapped pointer pressed).0.buttons
unfolding Input.event_commands Pressed.update_pointer
event_commands-ButtonsDistinct event mapped none pressed d = apply-ButtonsDistinct pressed mapped d
event_commands-ButtonsDistinct event mapped (some (x, y)) pressed d =
    apply-ButtonsDistinct (Pressed.update_pointer pressed x y) mapped
      (ButtonsDistinct-map x y pressed.buttons d)

accepted_session :
    (session : Option SessionId) (active : Option (SessionId × ℕ)) (s : SessionId) (n : ℕ)
    → Agree session active
    → active ≡ some (s, n)
    → session ≡ some s
accepted_session none none s n a e = ground arith
accepted_session none (some g) s n a e = elim a [ ]
accepted_session (some t) none s n a e = elim a [ ]
accepted_session (some t) (some g) s n a e = ground arith

agreed :
    (session : Option SessionId) (active : Option (SessionId × ℕ)) (s : SessionId) (n : ℕ)
    → session ≡ some s
    → active ≡ some (s, n)
    → Agree session active
agreed session active s n p q =
    subst (λ t. Agree t active) (sym p) (subst (Agree (some s)) (sym q) refl)

module _ {I : Type 0} where
  pub gate_accept-Inv :
      (frame : CriticalFrame) (r : Runtime I) → Inv r → Good (Input.gate_accept frame) r
  unfolding Input.gate_accept
  gate_accept-Inv frame r v = elim (Result-cases (Gate.accept r.input_gate frame)) [
    | inr (x, e) ↦ record { inv = rw (e, Input.gate_accept) v }
    | inl (g, e) ↦
        let (n, was, now) = accept_active r.input_gate g frame e in
        record {
          inv =
              rw (e, Input.gate_accept)
                (record {
                  agree =
                      agreed _ _ frame.session_id (suc n) (accepted_session _ _ _ n v.agree was)
                        now;
                  pending = v.pending;
                  distinct = v.distinct;
                });
        }
  ]

  pub gate_accept_session :
      (frame : CriticalFrame) (r : Runtime I)
      → Inv r
      → (Input.gate_accept frame r).1 ≡ ok tt
      → (Input.gate_accept frame r).0.active_session ≡ some frame.session_id
  unfolding Input.gate_accept
  gate_accept_session frame r v = elim (Result-cases (Gate.accept r.input_gate frame)) [
    | inr (x, e) ↦ rw (e, Input.gate_accept) λ done. ground arith
    | inl (g, e) ↦
        let (n, was, now) = accept_active r.input_gate g frame e in
        rw (e, Input.gate_accept) λ done. accepted_session _ _ _ n v.agree was
  ]

module _ {I : Type 0} (port : InjectorPort I) where
  pub inject-Inv :
      (s : SessionId) (before : PressedState) (commands : List InputCommand) (r : Runtime I)
      → ButtonsDistinct before.buttons
      → Inv r
      → r.active_session ≡ some s
      → Good (Input.inject port s before commands) r
  unfolding Input.inject Input.injector_failed
  inject-Inv s before commands r d v e =
      let sent = Input.submit_each port commands r.injector in
      elim (Option-cases sent.1) [
        | inl done ↦ record {
          inv =
              rw (done, Input.inject)
                (record { agree = v.agree; pending = v.pending; distinct = v.distinct });
        }
        | inr (x, failed) ↦
            let back : Runtime I = record r {
              injector = sent.0;
              pressed = before;
              last_fault = some (SessionFault.injector x);
            } in
            let w : Inv back = record { agree = v.agree; pending = v.pending; distinct = d } in
            record {
              inv =
                  rw (failed, Input.inject)
                    (release_pressed-Inv port (drop_session s back) (drop_session-Inv s back w e));
            }
      ]

  pub apply_motion-Inv :
      (frame : MotionFrame) (r : Runtime I)
      → Inv r
      → r.active_session ≡ some frame.session_id
      → Good (Input.apply_motion port frame) r
  unfolding Input.apply_motion Pressed.update_pointer
  apply_motion-Inv frame r v e =
      bind-Good (record { inv = v })
        λ p _.
          bind-Good (record { inv = v })
            λ before was.
              let moved : ButtonsDistinct (Pressed.update_pointer r.pressed p.0 p.1).buttons =
                ButtonsDistinct-map p.0 p.1 r.pressed.buttons v.distinct in
              let w = record r { pressed = Pressed.update_pointer r.pressed p.0 p.1 } in
              let wi : Inv w = record { agree = v.agree; pending = v.pending; distinct = moved } in
              bind-Good (record { inv = wi })
                λ _ _.
                  let injected =
                    inject-Inv frame.session_id before
                      (InputCommand.mouse_move p.0 p.1 (Pressed.drag_button w.pressed) ∷ []) w
                      (subst (λ b. ButtonsDistinct b.buttons) (ok_same was) v.distinct) wi e in
                  bind-Good (record { inv = injected.inv })
                    λ _ _. record {
                      inv = record {
                        agree = injected.inv.agree;
                        pending = injected.inv.pending;
                        distinct = injected.inv.distinct;
                      };
                    }
