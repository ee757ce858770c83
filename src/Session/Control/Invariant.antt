-- ===== src/Session/Control/Invariant.antt =====
-- The control side of src-tauri/src/session_runtime.rs keeps the runtime's invariant.
use mykvm.Protocol.Gate.Order.{activate_active, end_active}
use mykvm.Base.{
  ℕ, ◌≡◌, refl, sym, subst, true, not, none, some, Result-cases, Bool-cases, inl, inr, option_beq,
  ltb, ◌-◌, Option, List, if◌then◌else◌,
}
use mykvm.Ports.{InjectorPort}
use mykvm.Pressed
use mykvm.Protocol.Types.{SessionId, session_eq}
use mykvm.Protocol.Gate
use mykvm.Session.Types.{
  lease_expired, input_stream_closed, Runtime, SessionFault, AuthenticatedPeer,
  ReceiverDisplayLayout,
}
use mykvm.Session.Runtime.{bound_to, M, ◌>>=◌, drop_session, release_pressed, pure}
use mykvm.Session.Runtime.Invariant.{Agree, Inv, bind_cases, drop_session-Inv, release_pressed-Inv}
use mykvm.Session.Control

-- A step that keeps the invariant.
abbrev pub Keeps : {I A : Type 0} → M I A → Type 0
Keeps {I} m = (r : Runtime I) → Inv r → Inv (m r).0

bind-Keeps :
    {I A B : Type 0} (m : M I A) (f : A → M I B)
    → Keeps m
    → ((a : A) → Keeps (f a))
    → Keeps (m >>= f)
bind-Keeps m f first rest r v =
    bind_cases m f r Inv (λ a e. rest a (m r).0 (first r v)) (λ x e. first r v)

module _ {I : Type 0} (port : InjectorPort I) where
  pub start_session-Keeps :
      (session_id : SessionId) (now_ms : ℕ) → Keeps (Control.start_session port session_id now_ms)
  unfolding Control.start_session
  start_session-Keeps session_id now_ms r v = elim (Bool-cases (not (Pressed.is_empty r.pressed))) [
    | inl held ↦ rw held v
    | inr free ↦ elim (Result-cases (Gate.activate r.input_gate session_id)) [
      | inr (x, e) ↦ rw (free, e, Control.start_session) v
      | inl (g, e) ↦
          rw (free, e, Control.start_session)
            (record {
              agree =
                  subst (Agree (some session_id))
                    (sym (activate_active r.input_gate g session_id e)) refl;
              pending = tt;
              distinct = v.distinct;
            })
    ]
  ]

  pub finish_session-Keeps :
      (session_id : SessionId) → Keeps (Control.finish_session port session_id)
  unfolding Control.finish_session
  finish_session-Keeps session_id r v =
      elim (Bool-cases (option_beq r.active_session (some session_id))) [
        | inr other ↦ rw other v
        | inl ours ↦ elim (Result-cases (Gate.end r.input_gate session_id)) [
          | inr (x, e) ↦ rw (ours, e, Control.finish_session) v
          | inl (g, e) ↦
              rw (ours, e, Control.finish_session)
                (record {
                  agree = subst (Agree none) (sym (end_active r.input_gate g session_id e)) tt;
                  pending = tt;
                  distinct = v.distinct;
                })
        ]
      ]

  force_end-Keeps :
      (session_id : SessionId) (fault : SessionFault) (r : Runtime I)
      → Inv r
      → r.active_session ≡ some session_id
      → Inv (Control.force_end port session_id fault r).0
  force_end-Keeps session_id fault r v e =
      let d = drop_session-Inv session_id r v e in
      let x = record (drop_session session_id r) { last_fault = some fault } in
      let w : Inv x = record { agree = d.agree; pending = d.pending; distinct = d.distinct } in
      bind-Keeps (release_pressed port) (λ _. pure true) (release_pressed-Inv port) (λ a s u. u) x w

  expire_session-Inv :
      (session : Option SessionId) (last : Option ℕ) (now_ms : ℕ) (r : Runtime I)
      → Inv r
      → r.active_session ≡ session
      → Inv (Control.expire_session port session last now_ms r).0
  unfolding Control.expire_session
  expire_session-Inv (some s) (some t) now_ms r v e = elim (Bool-cases (ltb (now_ms - t) 3000)) [
    | inl early ↦ rw early v
    | inr late ↦ rw late (force_end-Keeps s lease_expired r v e)
  ]
  expire_session-Inv (some s) none now_ms r v e = v
  expire_session-Inv none last now_ms r v e = v

  closed_in-Inv :
      (session : Option SessionId) (r : Runtime I)
      → Inv r
      → r.active_session ≡ session
      → Inv (Control.closed_in port session r).0
  unfolding Control.closed_in
  closed_in-Inv (some s) r v e = force_end-Keeps s input_stream_closed r v e
  closed_in-Inv none r v e = v

  pub input_stream_closed_by-Keeps :
      (peer : AuthenticatedPeer) → Keeps (Control.input_stream_closed_by port peer)
  unfolding Control.input_stream_closed_by
  input_stream_closed_by-Keeps peer r v = elim (Bool-cases (bound_to r peer)) [
    | inr other ↦ rw other v
    | inl ours ↦ rw ours (closed_in-Inv r.active_session r v refl)
  ]

  layout_dropped-Inv :
      (session : Option SessionId) (r : Runtime I)
      → Inv r
      → r.active_session ≡ session
      → Inv (Control.layout_dropped port session r)
  layout_dropped-Inv none r v e = v
  layout_dropped-Inv (some s) r v e = drop_session-Inv s r v e

  layout_lost-Inv : (r : Runtime I) → Inv r → Inv (Control.layout_lost port r)
  layout_lost-Inv r v =
      let d = layout_dropped-Inv r.active_session r v refl in
      record { agree = d.agree; pending = tt; distinct = d.distinct }

  pub update_display_layouts-Keeps :
      (layouts : List ReceiverDisplayLayout) → Keeps (Control.update_display_layouts port layouts)
  unfolding Control.update_display_layouts
  update_display_layouts-Keeps layouts r v =
      let prepared =
        if Control.still_there port r.prepared_display layouts then r.prepared_display else none in
      let x = record r { display_layouts = layouts; prepared_display = prepared } in
      let w : Inv x = record { agree = v.agree; pending = v.pending; distinct = v.distinct } in
      elim (Bool-cases (Control.still_there port r.active_display layouts)) [
        | inl there ↦ rw there w
        | inr gone ↦ rw gone (
            bind-Keeps (release_pressed port) (λ _. pure true) (release_pressed-Inv port)
              (λ a s u. u) (Control.layout_lost port x) (layout_lost-Inv x w))
      ]

  pub expire_if_needed-Inv :
      (now_ms : ℕ) (r : Runtime I) → Inv r → Inv (Control.expire_if_needed port now_ms r).0
  unfolding Control.expire_if_needed
  expire_if_needed-Inv now_ms r v =
      expire_session-Inv r.active_session r.last_activity_ms now_ms r v refl
