-- ===== src/Protocol/Gate/Order.antt =====
-- What the input gate of src-tauri/src/protocol_v2.rs lets through.
use mykvm.Base.{
  ℕ, suc, ◌≡◌, none, some, List, [], ◌∷◌, arith, ok, err, is_ok, false, Result-cases, inl, inr,
  Option-cases,
}
use mykvm.Protocol.Types.{SessionId, CriticalFrame, wrong_session, session_beq_iff}
use mykvm.Protocol.Gate.{InputSessionGate, activate, accept, end}

-- The frames that a gate accepts, of those offered in turn; a refused frame is dropped.
pub accepted : InputSessionGate → List CriticalFrame → List CriticalFrame
accepted g [] = []
accepted g (f ∷ fs) = elim (accept g f) [ ok g' ↦ f ∷ accepted g' fs | err e ↦ accepted g fs ]

-- Frames of one session, numbered one after the other from `n`.
abbrev pub Numbered : SessionId → ℕ → List CriticalFrame → Type 0
Numbered s n [] = Unit {0}
Numbered s n (f ∷ fs) = (f.session_id ≡ s) × (f.sequence ≡ n) × Numbered s (suc n) fs

accept_advances :
    (g g' : InputSessionGate) (s : SessionId) (n : ℕ) (f : CriticalFrame)
    → g.active ≡ some (s, n)
    → accept g f ≡ ok g'
    → (f.session_id ≡ s) × (f.sequence ≡ n) × (g'.active ≡ some (s, suc n))
unfolding accept
accept_advances g g' s n f e r = ground (arith, session_beq_iff f.session_id s)

-- The frames of one gate's session are let through once each, in the order of their numbers: what
-- is accepted of any offers is a run of consecutive sequence numbers of the active session, from
-- the next one on.
pub accepted-Numbered :
    (g : InputSessionGate) (s : SessionId) (n : ℕ) (fs : List CriticalFrame)
    → g.active ≡ some (s, n)
    → Numbered s n (accepted g fs)
unfolding accepted
accepted-Numbered g s n [] e = tt
accepted-Numbered g s n (f ∷ fs) e = elim (Result-cases (accept g f)) [
  | inl (g', r) ↦
      let step = accept_advances g g' s n f e r in
      rw (r, accepted) (step.0, step.1, accepted-Numbered g' s (suc n) fs step.2)
  | inr (x, r) ↦ rw (r, accepted) (accepted-Numbered g s n fs e)
]

-- A frame that was accepted is refused when it comes again.
pub accept_once :
    (g g' : InputSessionGate) (f : CriticalFrame)
    → accept g f ≡ ok g'
    → accept g' f ≡ err wrong_session
unfolding accept
accept_once g g' f e = ground arith

-- Once a session is ended the gate refuses every frame, and refuses to activate that session again.
pub end_closed :
    (g g' : InputSessionGate) (s : SessionId) (f : CriticalFrame)
    → end g s ≡ ok g'
    → (is_ok (accept g' f) ≡ false) × (is_ok (activate g' s) ≡ false)
unfolding end accept activate
end_closed g g' s f e = ground arith

pub activate_active :
    (g h : InputSessionGate) (s : SessionId) → activate g s ≡ ok h → h.active ≡ some (s, 1)
unfolding activate
activate_active g h s e = ground arith

pub end_active : (g h : InputSessionGate) (s : SessionId) → end g s ≡ ok h → h.active ≡ none
unfolding end
end_active g h s e = ground arith

-- The gate after a frame that it accepts is in the session of that frame.
pub accept_active :
    (g h : InputSessionGate) (f : CriticalFrame)
    → accept g f ≡ ok h
    → (n : ℕ) × (g.active ≡ some (f.session_id, n)) × (h.active ≡ some (f.session_id, suc n))
unfolding accept
accept_active g h f e = elim (Option-cases g.active) [
  | inl none_active ↦ ground arith
  | inr (a, is) ↦ (
    a.1,
    ground (arith, session_beq_iff f.session_id a.0),
    ground (arith, session_beq_iff f.session_id a.0),
  )
]
