-- ===== src/Transport/Motion/Invariant.antt =====
-- One token goes round: a thread between its `swap` and its `send`, a queued command, or the worker before its
-- `store(false)` holds it exactly when the slot is scheduled.
use mykvm.Base.{ℕ, zero, suc, ◌+◌, ◌≤◌, Bool, true, false, ◌≡◌, refl, is_some, arith}
use mykvm.Protocol.Types.{MotionFrame}
use mykvm.Protocol.Codec.{MessagePack}
use mykvm.Transport.Motion.Shared.{
  Flusher, MotionSlot, Schedule, Sender, abandoning, checking, clearing, entering, filtering,
  flush_motion, looking, popped, rechecking, rescheduling, resetting, returned, schedule_motion,
  scheduling, sending, started, storing, swapping, taking, try_send, waiting,
}

abbrev pub flag : Bool → ℕ
flag true = 1
flag false = 0

-- The tokens that a thread holds. While the worker runs no call resets the flag: such a call weighs
-- more than the flag admits.
abbrev pub schedule_tokens : Schedule → ℕ
schedule_tokens sending = 1
schedule_tokens resetting = 2
schedule_tokens other = 0

-- A thread that has still to look at the flag.
abbrev pub schedule_arrivals : Schedule → ℕ
schedule_arrivals entering = 1
schedule_arrivals swapping = 1
schedule_arrivals other = 0

abbrev pub sender_tokens : Sender → ℕ
sender_tokens (scheduling s) = schedule_tokens s
sender_tokens other = 0

abbrev pub sender_arrivals : Sender → ℕ
sender_arrivals (scheduling s) = schedule_arrivals s
sender_arrivals other = 0

abbrev pub flusher_tokens : Flusher → ℕ
flusher_tokens waiting = 0
flusher_tokens looking = 0
flusher_tokens rechecking = 0
flusher_tokens (rescheduling s) = schedule_tokens s
flusher_tokens other = 1

abbrev pub flusher_arrivals : Flusher → ℕ
flusher_arrivals looking = 1
flusher_arrivals rechecking = 1
flusher_arrivals (rescheduling s) = schedule_arrivals s
flusher_arrivals other = 0

-- `tokens` and `arrivals` are those of all threads together.
pub record Balanced (tokens arrivals : ℕ) (slot : MotionSlot) : Type 0 where
  pub single : slot.stopped ≡ false → tokens + slot.queued ≡ flag slot.scheduled
  pub kept :
      slot.stopped ≡ false
      → slot.closed ≡ false
      → flag (is_some slot.latest) ≤ flag slot.scheduled + arrivals

-- The worker gives up only on a closed slot.
abbrev pub Abandons : Flusher → MotionSlot → Type 0
Abandons abandoning slot = slot.closed ≡ true
Abandons other slot = Unit {0}

module _ (o a : ℕ) where
  pub schedule_motion-Balanced :
      (s : Schedule) (slot : MotionSlot)
      → Balanced (schedule_tokens s + o) (schedule_arrivals s + a) slot
      → let r = schedule_motion s slot in
        Balanced (schedule_tokens r.1 + o) (schedule_arrivals r.1 + a) r.0
  unfolding schedule_motion
  schedule_motion-Balanced entering slot b = record {
    single = λ p. ground (arith, b.single p);
    kept = λ p q. ground (arith, b.kept p q);
  }
  schedule_motion-Balanced swapping slot b = record {
    single = λ p. ground (arith, b.single p);
    kept = λ p q. ground (arith, b.kept p q);
  }
  schedule_motion-Balanced sending slot b = record {
    single = ground (arith, b.single);
    kept = ground (arith, b.single, b.kept);
  }
  schedule_motion-Balanced resetting slot b = record {
    single = λ p. ground (arith, b.single p);
    kept = λ p q. ground (arith, b.single p, b.kept p q);
  }
  schedule_motion-Balanced (returned result) slot b = b

  pub try_send-Balanced :
      (pack : MessagePack MotionFrame) (s : Sender) (slot : MotionSlot)
      → Balanced (sender_tokens s + o) (sender_arrivals s + a) slot
      → let r = try_send pack s slot in
        Balanced (sender_tokens r.1 + o) (sender_arrivals r.1 + a) r.0
  unfolding try_send
  try_send-Balanced pack (checking frame) slot b = record {
    single = λ p. ground (arith, b.single p);
    kept = λ p q. ground (arith, b.kept p q);
  }
  try_send-Balanced pack (storing payload) slot b = record {
    single = λ p. ground (arith, b.single p);
    kept = λ p q. ground (arith, b.kept p q);
  }
  try_send-Balanced pack (scheduling s) slot b = schedule_motion-Balanced s slot b

  popped-Balanced :
      (n : ℕ) (slot : MotionSlot)
      → slot.queued ≡ n
      → Balanced (0 + o) (0 + a) slot
      → let r = popped n slot in Balanced (flusher_tokens r.1 + o) (flusher_arrivals r.1 + a) r.0
  popped-Balanced zero slot e b = b
  popped-Balanced (suc n) slot e b = record {
    single = λ p. ground (arith, b.single p);
    kept = λ p q. ground (arith, b.kept p q);
  }

  pub flush_motion-Balanced :
      (f : Flusher) (slot : MotionSlot)
      → Abandons f slot
      → Balanced (flusher_tokens f + o) (flusher_arrivals f + a) slot
      → let r = flush_motion f slot in
        Balanced (flusher_tokens r.1 + o) (flusher_arrivals r.1 + a) r.0
  unfolding flush_motion
  flush_motion-Balanced waiting slot w b = popped-Balanced slot.queued slot refl b
  flush_motion-Balanced started slot w b = record {
    single = λ p. ground (arith, b.single p);
    kept = λ p q. ground (arith, b.kept p q);
  }
  flush_motion-Balanced taking slot w b = record {
    single = λ p. ground (arith, b.single p);
    kept = λ p q. ground (arith);
  }
  flush_motion-Balanced (filtering payload) slot w b = b
  flush_motion-Balanced clearing slot w b = record {
    single = λ p. ground (arith, b.single p);
    kept = λ p q. ground (arith, b.single p, b.kept p q);
  }
  flush_motion-Balanced abandoning slot w b = record {
    single = λ p. ground (arith, b.single p);
    kept = λ p q. cc;
  }
  flush_motion-Balanced looking slot w b = record {
    single = λ p. ground (arith, b.single p);
    kept = λ p q. ground (arith, b.kept p q);
  }
  flush_motion-Balanced rechecking slot w b = record {
    single = λ p. ground (arith, b.single p);
    kept = λ p q. ground (arith, b.kept p q);
  }
  flush_motion-Balanced (rescheduling entering) slot w b = schedule_motion-Balanced entering slot b
  flush_motion-Balanced (rescheduling swapping) slot w b = schedule_motion-Balanced swapping slot b
  flush_motion-Balanced (rescheduling sending) slot w b = schedule_motion-Balanced sending slot b
  flush_motion-Balanced (rescheduling resetting) slot w b =
      schedule_motion-Balanced resetting slot b
  flush_motion-Balanced (rescheduling (returned result)) slot w b = b

pub try_send-closed :
    (pack : MessagePack MotionFrame) (s : Sender) (slot : MotionSlot)
    → (try_send pack s slot).0.closed ≡ slot.closed
unfolding try_send schedule_motion
try_send-closed pack (checking frame) slot = refl
try_send-closed pack (storing payload) slot = refl
try_send-closed pack (scheduling s) slot = ground arith

pub flush_motion-keeps :
    (f : Flusher) (slot : MotionSlot)
    → let r = flush_motion f slot in (r.0.closed ≡ slot.closed) × (r.0.stopped ≡ slot.stopped)
unfolding flush_motion schedule_motion
flush_motion-keeps waiting slot = ground arith
flush_motion-keeps started slot = (refl, refl)
flush_motion-keeps abandoning slot = (refl, refl)
flush_motion-keeps taking slot = (refl, refl)
flush_motion-keeps clearing slot = (refl, refl)
flush_motion-keeps looking slot = (refl, refl)
flush_motion-keeps rechecking slot = (refl, refl)
flush_motion-keeps (filtering payload) slot = (refl, refl)
flush_motion-keeps (rescheduling s) slot = ground arith

pub flush_motion-Abandons :
    (f : Flusher) (slot : MotionSlot) → let r = flush_motion f slot in Abandons r.1 r.0
unfolding flush_motion schedule_motion
flush_motion-Abandons waiting slot = ground arith
flush_motion-Abandons started slot = ground arith
flush_motion-Abandons abandoning slot = tt
flush_motion-Abandons taking slot = ground arith
flush_motion-Abandons clearing slot = tt
flush_motion-Abandons looking slot = ground arith
flush_motion-Abandons rechecking slot = ground arith
flush_motion-Abandons (filtering payload) slot = tt
flush_motion-Abandons (rescheduling s) slot = ground arith
