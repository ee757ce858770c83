-- ===== src/Transport/Motion/Outcomes.antt =====
-- What the motion slot promises of every interleaving.
use mykvm.Base.{
  ℕ, zero, suc, ◌+◌, ◌≤◌, Option, some, none, true, false, List, [], ◌∷◌, ◌++◌, ◌≡◌, refl, total,
  replicate, subst, ◌∙◌, all, arith,
}
use mathlib.Core.List.{Sublist, sublist_of_cons-sublist}
use mykvm.Protocol.Types.{MotionFrame}
use mykvm.Protocol.Codec.{MessagePack}
use mykvm.Transport.Motion.Shared.{
  Event, Flusher, Motion, Sender, checking, filtering, is_returned, returned, run, scheduling,
  start, step, storing, waiting, worker_runs, worker_runs_in,
}
use mykvm.Transport.Motion.Invariant.{
  Balanced, flusher_arrivals, flusher_tokens, flush_motion-keeps, sender_arrivals, sender_tokens,
}
use mykvm.Transport.Motion.Order.{carried, first, in_slot}
use mykvm.Transport.Motion.Histories.{Inv, run-Inv, worker_runs_in-Inv}
use mykvm.Transport.Motion.Settling.{lowers, rank, rank_bound, settled}

in_slot-sublist :
    (o : Option (List ℕ)) (rest stored : List (List ℕ))
    → Sublist (in_slot o ++ rest) stored
    → Sublist rest stored
in_slot-sublist none rest stored h = h
in_slot-sublist (some p) rest stored h = sublist_of_cons-sublist h

carried-sublist :
    (f : Flusher) (sent stored : List (List ℕ))
    → Sublist (carried f ++ sent) stored
    → Sublist sent stored
carried-sublist (filtering p) sent stored h = sublist_of_cons-sublist h
carried-sublist Flusher.waiting sent stored h = h
carried-sublist Flusher.started sent stored h = h
carried-sublist Flusher.abandoning sent stored h = h
carried-sublist Flusher.taking sent stored h = h
carried-sublist Flusher.clearing sent stored h = h
carried-sublist Flusher.looking sent stored h = h
carried-sublist Flusher.rechecking sent stored h = h
carried-sublist (Flusher.rescheduling s) sent stored h = h

returned_total :
    (ss : List Sender)
    → all is_returned ss ≡ true
    → (total sender_tokens ss ≡ 0) × (total sender_arrivals ss ≡ 0)
returned_total [] h = (refl, refl)
returned_total (checking frame ∷ ss) h = absurd (cc)
returned_total (storing payload ∷ ss) h = absurd (cc)
returned_total (scheduling (returned r) ∷ ss) h =
    let ih = returned_total ss h in (omega (arith, ih.0), omega (arith, ih.1))
returned_total (scheduling s ∷ ss) h = absurd (ground arith)

-- No sender is under way, and the slot is in use.
record Quiet (m : Motion) : Type 0 where
  inv : Inv m
  calls_back : all is_returned m.senders ≡ true
  unclosed : m.slot.closed ≡ false
  runs : m.slot.stopped ≡ false

Quiet-balance :
    {m : Motion}
    → Quiet m
    → Balanced (flusher_tokens m.flusher + 0) (flusher_arrivals m.flusher + 0) m.slot
Quiet-balance {m} q =
    let t = returned_total m.senders q.calls_back in
    subst
      (λ (k : ℕ). Balanced (flusher_tokens m.flusher + 0) (flusher_arrivals m.flusher + k) m.slot)
      t.1
      (subst
        (λ (k : ℕ).
          Balanced (flusher_tokens m.flusher + k)
            (flusher_arrivals m.flusher + total sender_arrivals m.senders) m.slot)
        t.0 q.inv.balanced)

worker_runs_in-Quiet : {m : Motion} → Quiet m → Quiet (worker_runs_in m)
unfolding worker_runs_in
worker_runs_in-Quiet {m} q =
    let k = flush_motion-keeps m.flusher m.slot in
    record {
      inv = worker_runs_in-Inv m q.inv;
      calls_back = q.calls_back;
      unclosed = k.0 ∙ q.unclosed;
      runs = k.1 ∙ q.runs;
    }

at_rest :
    (o : Option (List ℕ)) (f : Flusher) (sent : List (List ℕ)) (newest : Option (List ℕ))
    → o ≡ none
    → f ≡ waiting
    → first (in_slot o ++ (carried f ++ sent)) ≡ newest
    → first sent ≡ newest
at_rest none waiting sent newest p q h = h
at_rest none other sent newest p q h = absurd (cc)
at_rest (some x) f sent newest p q h = absurd (cc)

module _ (pack : MessagePack MotionFrame) where
  settles_within :
      (n : ℕ) (m : Motion)
      → Quiet m
      → rank m.flusher m.slot ≤ n
      → let m' = run pack (replicate n worker_runs) m in
        (m'.flusher ≡ waiting)
        × (m'.slot.queued ≡ 0)
        × (m'.slot.latest ≡ none)
        × (first m'.sent ≡ first m.stored)
  unfolding run step worker_runs_in
  settles_within zero m q h =
      let s =
        settled m.slot q.runs q.unclosed m.flusher q.inv.abandons (Quiet-balance q)
          (omega (arith, h)) in
      (
        s.0,
        s.1,
        s.2,
        at_rest m.slot.latest m.flusher m.sent (first m.stored) s.2 s.0
            (q.inv.follows.newest q.unclosed),
      )
  settles_within (suc n) m q h =
      let less = lowers m.slot q.runs q.unclosed m.flusher q.inv.abandons (Quiet-balance q) in
      settles_within n (worker_runs_in m) (worker_runs_in-Quiet q) (omega (arith, less, h))

  -- However the steps of the senders, the worker, the drop of the handle and the worker's end
  -- interleave: the datagrams that left the slot are a sublist of the payloads put into it, in their
  -- order, so none is reordered, repeated or made up. While the worker runs, at most one
  -- `FlushMotion` command of the slot is queued.
  pub run-sent :
      (es : List Event)
      → let m = run pack es start in
        Sublist m.sent m.stored × (m.slot.stopped ≡ false → m.slot.queued ≤ 1)
  run-sent es =
      let m = run pack es start in
      let h = run-Inv pack es in
      (
        carried-sublist m.flusher m.sent m.stored (
            in_slot-sublist m.slot.latest (carried m.flusher ++ m.sent) m.stored h.follows.ordered),
        λ runs. ground (arith, h.balanced.single runs),
      )

  -- No motion is lost. After any interleaving, once every call of `try_send` is back, while the
  -- handle is not dropped and the worker not stopped, any number of worker steps from eighteen on
  -- leads to rest: the worker waits with no command queued and an empty slot, and the newest
  -- datagram that left is the payload that was put into the slot last (none left if none was put).
  pub run-settles :
      (es : List Event) (n : ℕ)
      → let m = run pack es start in
        all is_returned m.senders ≡ true
        → m.slot.closed ≡ false
        → m.slot.stopped ≡ false
        → 18 ≤ n
        → let m' = run pack (replicate n worker_runs) m in
          (m'.flusher ≡ waiting)
          × (m'.slot.queued ≡ 0)
          × (m'.slot.latest ≡ none)
          × (first m'.sent ≡ first m.stored)
  run-settles es n back unclosed runs enough =
      let m = run pack es start in
      let q : Quiet m = record {
        inv = run-Inv pack es;
        calls_back = back;
        unclosed = unclosed;
        runs = runs;
      } in
      settles_within n m q
        (omega (arith, rank_bound m.slot runs unclosed m.flusher (Quiet-balance q), enough))
