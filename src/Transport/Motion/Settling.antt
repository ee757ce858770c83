-- ===== src/Transport/Motion/Settling.antt =====
-- How soon the worker comes to rest once the calls of `try_send` are back: each of its steps lowers a rank.
use mykvm.Base.{
  ℕ, zero, suc, ◌+◌, ◌-◌, ◌*◌, ◌≤◌, Option, some, none, false, List, ◌≡◌, refl, is_some, arith,
}
use mykvm.Transport.Motion.Shared.{
  Flusher, MotionSlot, abandoning, clearing, entering, filtering, flush_motion, looking, popped,
  rechecking, rescheduling, resetting, returned, schedule_motion, sending, started, swapping, took,
  taking, waiting,
}
use mykvm.Transport.Motion.Invariant.{Abandons, Balanced, flag, flusher_arrivals, flusher_tokens}

-- The steps that the worker still makes, at most.
abbrev pub rank : Flusher → MotionSlot → ℕ
rank waiting slot = 6 * slot.queued
rank started slot = 5
rank abandoning slot = 0
rank taking slot = 4
rank (filtering payload) slot = 3 + 11 * flag (is_some slot.latest)
rank clearing slot = 2 + 11 * flag (is_some slot.latest)
rank looking slot = 1 + 11 * flag (is_some slot.latest) + 6 * slot.queued
rank rechecking slot = 11
rank (rescheduling entering) slot = 10
rank (rescheduling swapping) slot = 9
rank (rescheduling sending) slot = 8
rank (rescheduling resetting) slot = 0
rank (rescheduling (returned result)) slot = 1 + 6 * slot.queued

abbrev Lowers : Flusher → MotionSlot → Type 0
Lowers f slot = let r = flush_motion f slot in rank r.1 r.0 ≤ rank f slot - 1

popped_lowers :
    (n : ℕ) (slot : MotionSlot)
    → slot.queued ≡ n
    → n ≤ 1
    → rank (popped n slot).1 (popped n slot).0 ≤ 6 * n - 1
popped_lowers zero slot e h = omega (arith, e)
popped_lowers (suc n) slot e h = omega arith

rank-took : (o : Option (List ℕ)) (slot : MotionSlot) → slot.latest ≡ none → rank (took o) slot ≤ 3
rank-took none slot e = ground arith
rank-took (some p) slot e = ground arith

module _ (slot : MotionSlot) (runs : slot.stopped ≡ false) (unclosed : slot.closed ≡ false) where
  pub lowers :
      (f : Flusher)
      → Abandons f slot
      → Balanced (flusher_tokens f + 0) (flusher_arrivals f + 0) slot
      → Lowers f slot
  unfolding flush_motion schedule_motion
  lowers waiting w b = popped_lowers slot.queued slot refl (ground (arith, b.single runs))
  lowers started w b = ground arith
  lowers abandoning w b = absurd (cc)
  lowers taking w b = rank-took slot.latest (record slot { latest = none }) refl
  lowers (filtering payload) w b = omega arith
  lowers clearing w b = ground (arith, b.single runs)
  lowers looking w b = ground (arith, b.single runs)
  lowers rechecking w b = ground arith
  lowers (rescheduling entering) w b = ground arith
  lowers (rescheduling swapping) w b = ground (arith, b.single runs)
  lowers (rescheduling sending) w b = ground (arith, b.single runs)
  lowers (rescheduling resetting) w b = ground (arith, b.single runs)
  lowers (rescheduling (returned result)) w b = omega arith

  pub rank_bound :
      (f : Flusher)
      → Balanced (flusher_tokens f + 0) (flusher_arrivals f + 0) slot
      → rank f slot ≤ 18
  rank_bound waiting b = ground (arith, b.single runs)
  rank_bound started b = ground (arith, b.single runs)
  rank_bound abandoning b = ground (arith, b.single runs)
  rank_bound taking b = ground (arith, b.single runs)
  rank_bound (filtering p) b = ground (arith, b.single runs)
  rank_bound clearing b = ground (arith, b.single runs)
  rank_bound looking b = ground (arith, b.single runs)
  rank_bound rechecking b = ground (arith, b.single runs)
  rank_bound (rescheduling entering) b = ground (arith, b.single runs)
  rank_bound (rescheduling swapping) b = ground (arith, b.single runs)
  rank_bound (rescheduling sending) b = ground (arith, b.single runs)
  rank_bound (rescheduling resetting) b = ground (arith, b.single runs)
  rank_bound (rescheduling (returned result)) b = ground (arith, b.single runs)

  latest_none : (o : Option (List ℕ)) → flag (is_some o) ≤ 0 → o ≡ none
  latest_none none h = refl
  latest_none (some p) h = absurd (omega arith)

  settled_waiting :
      Balanced (0 + 0) (0 + 0) slot
      → 6 * slot.queued ≡ 0
      → (waiting ≡ waiting) × (slot.queued ≡ 0) × (slot.latest ≡ none)
  settled_waiting b e = (
    refl,
    omega (arith, e),
    latest_none slot.latest (ground (arith, b.single runs, b.kept runs unclosed, e)),
  )

  -- At rank nought the worker waits, nothing is queued, and nothing waits in the slot.
  pub settled :
      (f : Flusher)
      → Abandons f slot
      → Balanced (flusher_tokens f + 0) (flusher_arrivals f + 0) slot
      → rank f slot ≡ 0
      → (f ≡ waiting) × (slot.queued ≡ 0) × (slot.latest ≡ none)
  settled waiting w b e = settled_waiting b e
  settled started w b e = absurd (omega (arith, e))
  settled abandoning w b e = absurd (cc)
  settled taking w b e = absurd (omega (arith, e))
  settled (filtering p) w b e = absurd (omega (arith, e))
  settled clearing w b e = absurd (omega (arith, e))
  settled looking w b e = absurd (omega (arith, e))
  settled rechecking w b e = absurd (omega (arith, e))
  settled (rescheduling entering) w b e = absurd (omega (arith, e))
  settled (rescheduling swapping) w b e = absurd (omega (arith, e))
  settled (rescheduling sending) w b e = absurd (omega (arith, e))
  settled (rescheduling resetting) w b e = absurd (ground (arith, b.single runs))
  settled (rescheduling (returned result)) w b e = absurd (omega (arith, e))
