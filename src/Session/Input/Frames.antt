-- ===== src/Session/Input/Frames.antt =====
-- Every input and motion frame that src-tauri/src/session_runtime.rs handles keeps the runtime's invariant.
use mykvm.Base.{
  ℤ, ℕ, ◌≡◌, Bool, true, not, none, some, Option, Result-cases, Bool-cases, inl, inr, arith, ltb,
  leb, option_beq,
}
use mykvm.Ports.{InjectorPort}
use mykvm.Protocol.Types.{
  wrong_session, SessionId, CriticalEvent, CriticalFrame, MotionFrame, session_eq, session_beq_iff,
}
use mykvm.Session.Types.{
  wrong_connection, protocol, Runtime, AuthenticatedPeer, ReceiverDisplayLayout,
}
use mykvm.Session.Layout.{map_pointer}
use mykvm.Session.Runtime.{◌>>=◌, pure, from_controller}
use mykvm.Session.Runtime.Invariant.{Inv, Pending}
use mykvm.Session.Runtime.Steps.{Good, bind-Good, fail_when-Safe}
use mykvm.Session.Input
use mykvm.Session.Input.Invariant.{
  event_commands-ButtonsDistinct, gate_accept-Inv, gate_accept_session, inject-Inv,
  apply_motion-Inv,
}

same_session :
    (session : Option SessionId) (s : SessionId)
    → option_beq session (some s) ≡ true
    → session ≡ some s
same_session none s e = ground arith
same_session (some t) s e = ground (arith, session_beq_iff t s)

module _ {I : Type 0} (port : InjectorPort I) where
  flush_frame-Inv :
      (pending : Option MotionFrame) (r : Runtime I)
      → Inv r
      → Pending pending r.active_session
      → Inv (Input.flush_frame port pending r).0
  unfolding Input.flush_frame
  flush_frame-Inv none r v p = v
  flush_frame-Inv (some frame) r v p =
      let r' = record r { pending_motion = none } in
      let w : Inv r' = record { agree = v.agree; pending = tt; distinct = v.distinct } in
      elim (Bool-cases (ltb r.highest_applied_sequence frame.required_reliable_sequence)) [
        | inl early ↦ rw early v
        | inr due ↦ elim (Bool-cases (ltb r.highest_motion_sequence frame.sequence)) [
          | inl new ↦ rw (due, new) (apply_motion-Inv port frame r' w p).inv
          | inr old ↦ rw (due, old) w
        ]
      ]

  event_injected :
      (event mapped : CriticalEvent) (pointer : Option (ℤ × ℤ)) (s : SessionId) (r : Runtime I)
      → Inv r
      → r.active_session ≡ some s
      → let after = Input.event_commands event mapped pointer r.pressed in
        Inv (Input.inject port s r.pressed after.1 (record r { pressed = after.0 })).0
  event_injected event mapped pointer s r v e =
      let after = Input.event_commands event mapped pointer r.pressed in
      (inject-Inv port s r.pressed after.1 (record r { pressed = after.0 }) v.distinct
        (record {
          agree = v.agree;
          pending = v.pending;
          distinct = event_commands-ButtonsDistinct event mapped pointer r.pressed v.distinct;
        })
        e).inv

  note_applied-Inv :
      (frame : CriticalFrame) (now_ms : ℕ) (r : Runtime I)
      → Inv r
      → Inv (Input.note_applied frame now_ms r)
  note_applied-Inv frame now_ms r v = record {
    agree = v.agree;
    pending = v.pending;
    distinct = v.distinct;
  }

  -- Handling an input frame keeps the invariant of the runtime, whatever the frame and the peer
  -- are, at whatever time, and whether or not it fails.
  pub handle_input_at-Inv :
      (frame : CriticalFrame) (peer : AuthenticatedPeer) (now_ms : ℕ) (r : Runtime I)
      → Inv r
      → Inv (Input.handle_input_at port frame peer now_ms r).0
  unfolding Input.handle_input_at Input.flush_pending_motion
  handle_input_at-Inv frame peer now_ms r v =
      let bound : Runtime I → Bool = λ x. not (from_controller x peer) in
      let old : Runtime I → Bool = λ x. Input.old_snapshot x (Input.motion_snapshot frame.event) in
      let v1 = (fail_when-Safe bound wrong_connection).keeps r v in
      let v2 = (fail_when-Safe old (protocol wrong_session)).keeps _ v1 in
      let good : Good (Input.handle_input_at port frame peer now_ms) r =
        bind-Good (record { inv = v1 })
          λ _ _.
            bind-Good (record { inv = v2 })
              λ _ _.
                bind-Good (record { inv = v2 })
                  λ pointer _.
                    bind-Good (record { inv = v2 })
                      λ mapped _. bind-Good (gate_accept-Inv frame _ v2) λ _ let_in.
                        let v3 = (gate_accept-Inv frame _ v2).inv in
                        let e = gate_accept_session frame _ v2 let_in in
                        let v4 =
                          event_injected frame.event mapped pointer frame.session_id _ v3 e in
                        bind-Good (record { inv = v4 })
                          λ _ _.
                            let v5 = note_applied-Inv frame now_ms _ v4 in
                            bind-Good (record { inv = v5 })
                              λ _ _. record { inv = flush_frame-Inv _ _ v5 v5.pending } in
      good.inv

  keep_pending-Pending :
      (frame : MotionFrame) (pending : Option MotionFrame) (session : Option SessionId)
      → session ≡ some frame.session_id
      → Pending pending session
      → Pending (Input.keep_pending port frame pending) session
  keep_pending-Pending frame none session e p = e
  keep_pending-Pending frame (some old) session e p =
      elim (Bool-cases (ltb old.sequence frame.sequence)) [
        | inl new ↦ rw new e
        | inr same ↦ rw same p
      ]

  take_motion-Inv :
      (frame : MotionFrame) (now_ms : ℕ) (display : Option ReceiverDisplayLayout) (r : Runtime I)
      → Inv r
      → r.active_session ≡ some frame.session_id
      → Inv (Input.take_motion port frame now_ms display r).0
  unfolding Input.take_motion
  take_motion-Inv frame now_ms none r v e = v
  take_motion-Inv frame now_ms (some d) r v e =
      let r' = record r { last_activity_ms = some now_ms } in
      let w : Inv r' = record { agree = v.agree; pending = v.pending; distinct = v.distinct } in
      let applied : Good (Input.apply_motion port frame >>= λ _. pure Input.applied) r' =
        bind-Good (apply_motion-Inv port frame r' w e)
          λ _ _. record { inv = (apply_motion-Inv port frame r' w e).inv } in
      elim (Bool-cases (Input.on_display port frame d)) [
        | inr other ↦ rw other v
        | inl shown ↦ elim (Result-cases (map_pointer d frame.x frame.y)) [
          | inr (x, off) ↦ rw (shown, off) v
          | inl (p, on) ↦
              elim (Bool-cases (ltb r.highest_applied_sequence frame.required_reliable_sequence)) [
                | inl early ↦
                    rw (shown, on, early)
                      (record {
                        agree = v.agree;
                        pending = keep_pending-Pending frame r.pending_motion _ e v.pending;
                        distinct = v.distinct;
                      })
                | inr due ↦ rw (shown, on, due) applied.inv
              ]
        ]
      ]

  -- Handling a motion frame keeps the invariant of the runtime, whatever the frame and the peer
  -- are, at whatever time, and whether or not it fails.
  pub handle_motion_at-Inv :
      (frame : MotionFrame) (peer : AuthenticatedPeer) (now_ms : ℕ) (r : Runtime I)
      → Inv r
      → Inv (Input.handle_motion_at port frame peer now_ms r).0
  unfolding Input.handle_motion_at
  handle_motion_at-Inv frame peer now_ms r v = elim (Bool-cases (from_controller r peer)) [
    | inr stranger ↦ rw stranger v
    | inl known ↦ elim (Bool-cases (Input.wrong_motion port frame r)) [
      | inl wrong ↦ rw (known, wrong) v
      | inr right ↦ elim (Bool-cases (leb frame.sequence r.highest_motion_sequence)) [
        | inl stale ↦ rw (known, right, stale) v
        | inr new ↦
            rw (known, right, new)
              (take_motion-Inv frame now_ms r.active_display r v
                (same_session r.active_session frame.session_id (ground arith)))
      ]
    ]
  ]
