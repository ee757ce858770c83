-- ===== src/Transport/Motion/Histories.antt =====
-- What holds of a motion slot after any interleaving of the senders, the worker, the drop and the stop.
use mykvm.Base.{
  ℕ, ◌+◌, Option, some, none, Bool, true, List, [], ◌∷◌, ◌++◌, ◌≡◌, refl, get_elem?, total,
  total-set, sym, subst, ◌∙◌, all, arith, Bool-cases, inl, inr,
}
use mathlib.Core.List.Sublist
use mykvm.Protocol.Types.{MotionFrame}
use mykvm.Protocol.Codec.{MessagePack}
use mykvm.Transport.Motion.Shared.{
  Event, Flusher, Handle, Motion, MotionSlot, Sender, abandoning, call, calls, clearing, closing,
  drop_handle, drop_runs, filtering, gone, held, is_returned, looking, rechecking, rescheduling,
  run, sender_runs, sender_runs_at, start, started, step, stop_worker, taking, try_send, waiting,
  worker_runs, worker_runs_in, worker_stops,
}
use mykvm.Transport.Motion.Invariant.{
  Abandons, Balanced, flush_motion-Balanced, flush_motion-Abandons, flush_motion-keeps,
  flusher_arrivals, flusher_tokens, sender_arrivals, sender_tokens, try_send-Balanced,
  try_send-closed,
}
use mykvm.Transport.Motion.Order.{
  Follows, afloat, carried, emptied-Follows, flush_motion-Follows, try_send-Follows,
}

pub record Inv (m : Motion) : Type 0 where
  pub balanced :
      Balanced
        (flusher_tokens m.flusher + total sender_tokens m.senders)
        (flusher_arrivals m.flusher + total sender_arrivals m.senders)
        m.slot
  pub shut : m.handle ≡ closing → m.slot.closed ≡ true
  pub abandons : Abandons m.flusher m.slot
  pub follows : Follows m.slot.closed (afloat m.slot m.flusher m.sent) m.stored

Balanced-same :
    {t a u b : ℕ} {slot : MotionSlot} → t ≡ u → a ≡ b → Balanced t a slot → Balanced u b slot
Balanced-same p q h = record {
  single = λ e. omega (arith, p, h.single e);
  kept = λ e c. omega (arith, q, h.kept e c);
}

Abandons-closed :
    (f : Flusher) (s t : MotionSlot) → t.closed ≡ s.closed → Abandons f s → Abandons f t
Abandons-closed waiting s t e h = tt
Abandons-closed started s t e h = tt
Abandons-closed abandoning s t e h = e ∙ h
Abandons-closed taking s t e h = tt
Abandons-closed clearing s t e h = tt
Abandons-closed looking s t e h = tt
Abandons-closed rechecking s t e h = tt
Abandons-closed (filtering p) s t e h = tt
Abandons-closed (rescheduling s') s t e h = tt

closes : (f : Flusher) (s : MotionSlot) → Abandons f (record s { closed = true })
closes waiting s = tt
closes started s = tt
closes abandoning s = refl
closes taking s = tt
closes clearing s = tt
closes looking s = tt
closes rechecking s = tt
closes (filtering p) s = tt
closes (rescheduling s') s = tt

pub worker_runs_in-Inv : (m : Motion) → Inv m → Inv (worker_runs_in m)
unfolding worker_runs_in
worker_runs_in-Inv m h = record {
  balanced =
      flush_motion-Balanced (total sender_tokens m.senders) (total sender_arrivals m.senders)
        m.flusher m.slot h.abandons h.balanced;
  shut = λ q. (flush_motion-keeps m.flusher m.slot).0 ∙ h.shut q;
  abandons = flush_motion-Abandons m.flusher m.slot;
  follows = flush_motion-Follows m.flusher m.slot m.sent m.stored h.follows;
}

module _ (pack : MessagePack MotionFrame) where
  sender_runs_at-Inv :
      (i : ℕ) (o : Option Sender) (m : Motion)
      → get_elem? m.senders i ≡ o
      → Inv m
      → Inv (sender_runs_at pack i o m)
  unfolding sender_runs_at
  sender_runs_at-Inv i none m e h = h
  sender_runs_at-Inv i (some s) m e h =
      let held = total-set sender_tokens m.senders i s e in
      let coming = total-set sender_arrivals m.senders i s e in
      let f = flusher_tokens m.flusher in
      let g = flusher_arrivals m.flusher in
      let s' = (try_send pack s m.slot).1 in
      record {
        balanced = Balanced-same (omega (arith, held.2 s')) (omega (arith, coming.2 s')) (
            try_send-Balanced (held.0 + f) (coming.0 + g) pack s m.slot
              (Balanced-same (omega (arith, held.1)) (omega (arith, coming.1)) h.balanced));
        shut = λ q. try_send-closed pack s m.slot ∙ h.shut q;
        abandons =
            Abandons-closed m.flusher m.slot (try_send pack s m.slot).0
              (try_send-closed pack s m.slot) h.abandons;
        follows = try_send-Follows pack s m.slot m.flusher m.sent m.stored h.follows;
      }

  close-Inv : (m : Motion) → Inv m → Inv (drop_handle held m)
  unfolding drop_handle
  close-Inv m h = elim (Bool-cases (all is_returned m.senders)) [
    | inl e ↦ rw e closed_now
    | inr e ↦ rw e h
  ]
    where
      closed_now : Inv (record m { slot = record m.slot { closed = true }; handle = closing })
      closed_now = record {
        balanced = record { single = h.balanced.single; kept = λ p q. cc };
        shut = λ q. refl;
        abandons = closes m.flusher m.slot;
        follows = record { ordered = h.follows.ordered; newest = λ q. cc };
      }

  drop_handle-Inv : (k : Handle) (m : Motion) → m.handle ≡ k → Inv m → Inv (drop_handle k m)
  unfolding drop_handle
  drop_handle-Inv held m e h = close-Inv m h
  drop_handle-Inv closing m e h =
      let shut = h.shut e in
      record {
        balanced = record { single = h.balanced.single; kept = λ p q. absurd (cc) };
        shut = λ q. shut;
        abandons =
            Abandons-closed m.flusher m.slot (record m.slot { latest = none }) refl h.abandons;
        follows =
            subst (λ (c : Bool). Follows c (carried m.flusher ++ m.sent) m.stored) (sym shut)
              (emptied-Follows m.slot.latest (carried m.flusher ++ m.sent) m.stored (
                subst (λ (c : Bool). Follows c (afloat m.slot m.flusher m.sent) m.stored) shut
                  h.follows));
      }
  drop_handle-Inv gone m e h = h

  stop_worker-Inv : (f : Flusher) (m : Motion) → m.flusher ≡ f → Inv m → Inv (stop_worker f m)
  unfolding stop_worker
  stop_worker-Inv waiting m e h = record {
    balanced = record { single = λ p. cc; kept = λ p q. cc };
    shut = h.shut;
    abandons = subst (λ (f : Flusher). Abandons f (stop_worker waiting m).slot) (sym e) tt;
    follows = h.follows;
  }
  stop_worker-Inv started m e h = h
  stop_worker-Inv abandoning m e h = h
  stop_worker-Inv taking m e h = h
  stop_worker-Inv clearing m e h = h
  stop_worker-Inv looking m e h = h
  stop_worker-Inv rechecking m e h = h
  stop_worker-Inv (filtering p) m e h = h
  stop_worker-Inv (rescheduling s) m e h = h

  call-Inv : (k : Handle) (frame : MotionFrame) (m : Motion) → Inv m → Inv (call k frame m)
  call-Inv held frame m h = record {
    balanced = Balanced-same (omega arith) (omega arith) h.balanced;
    shut = h.shut;
    abandons = h.abandons;
    follows = h.follows;
  }
  call-Inv closing frame m h = h
  call-Inv gone frame m h = h

  step-Inv : (e : Event) (m : Motion) → Inv m → Inv (step pack e m)
  unfolding step
  step-Inv (calls frame) m h = call-Inv m.handle frame m h
  step-Inv (sender_runs i) m h = sender_runs_at-Inv i (get_elem? m.senders i) m refl h
  step-Inv worker_runs m h = worker_runs_in-Inv m h
  step-Inv drop_runs m h = drop_handle-Inv m.handle m refl h
  step-Inv worker_stops m h = stop_worker-Inv m.flusher m refl h

  run-from-Inv : (es : List Event) (m : Motion) → Inv m → Inv (run pack es m)
  unfolding run
  run-from-Inv [] m h = h
  run-from-Inv (e ∷ es) m h = run-from-Inv es (step pack e m) (step-Inv e m h)

  pub run-Inv : (es : List Event) → Inv (run pack es start)
  run-Inv es = run-from-Inv es start (record {
    balanced = record { single = λ p. omega arith; kept = λ p q. omega arith };
    shut = λ q. cc;
    abandons = tt;
    follows = record { ordered = Sublist.refl []; newest = λ p. refl };
  })
