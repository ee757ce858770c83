-- ===== src/Transport/Motion/Order.antt =====
-- Which payloads are still afloat in a motion slot: in the slot, with the worker, or sent; newest first.
use mykvm.Base.{
  ℕ, zero, suc, Option, some, none, Bool, true, false, List, [], ◌∷◌, ◌++◌, ◌≡◌, refl,
  if◌then◌else◌, ap, sym, subst, arith,
}
use mathlib.Core.List.{Sublist, sublist-cons_self, sublist_of_cons-sublist, cons-sublist-cons}
use mathlib.Core.List.Sublist
use mykvm.Protocol.Types.{MotionFrame}
use mykvm.Protocol.Codec.{MessagePack}
use mykvm.Transport.Motion.Shared.{
  Flusher, MotionSlot, Schedule, Sender, abandoning, checking, clearing, datagram, entering,
  filtering, flush_motion, looking, popped, rechecking, rescheduling, resetting, returned,
  schedule_motion, scheduling, sending, shipped, started, stored_by, storing, swapping, took,
  taking, try_send, waiting,
}

abbrev pub in_slot : Option (List ℕ) → List (List ℕ)
in_slot none = []
in_slot (some payload) = payload ∷ []

abbrev pub carried : Flusher → List (List ℕ)
carried (filtering payload) = payload ∷ []
carried other = []

abbrev pub afloat : MotionSlot → Flusher → List (List ℕ) → List (List ℕ)
afloat slot f sent = in_slot slot.latest ++ (carried f ++ sent)

abbrev pub first : List (List ℕ) → Option (List ℕ)
first [] = none
first (p ∷ ps) = some p

pub record Follows (closed : Bool) (floating stored : List (List ℕ)) : Type 0 where
  -- Nothing was reordered or sent twice.
  pub ordered : Sublist floating stored
  -- On an open slot the newest is not lost.
  pub newest : closed ≡ false → first floating ≡ first stored

Follows-same :
    {c d : Bool} {l k stored : List (List ℕ)}
    → c ≡ d
    → l ≡ k
    → Follows d k stored
    → Follows c l stored
Follows-same {d = d} {l = l} {stored = stored} p q h =
    subst (λ (b : Bool). Follows b l stored) (sym p)
      (subst (λ (m : List (List ℕ)). Follows d m stored) (sym q) h)

schedule_motion-keeps :
    (s : Schedule) (slot : MotionSlot)
    → let r = schedule_motion s slot in (r.0.latest ≡ slot.latest) × (r.0.closed ≡ slot.closed)
unfolding schedule_motion
schedule_motion-keeps entering slot = (refl, refl)
schedule_motion-keeps swapping slot = (refl, refl)
schedule_motion-keeps sending slot = ground arith
schedule_motion-keeps resetting slot = (refl, refl)
schedule_motion-keeps (returned result) slot = (refl, refl)

put_first :
    (o : Option (List ℕ)) (p : List ℕ) (rest stored : List (List ℕ))
    → Sublist (in_slot o ++ rest) stored
    → Sublist (p ∷ rest) (p ∷ stored)
put_first none p rest stored h = cons-sublist-cons.1 h
put_first (some q) p rest stored h = cons-sublist-cons.1 (sublist_of_cons-sublist h)

pub try_send-Follows :
    (pack : MessagePack MotionFrame) (s : Sender) (slot : MotionSlot) (f : Flusher)
    (sent stored : List (List ℕ))
    → Follows slot.closed (afloat slot f sent) stored
    → let r = try_send pack s slot in Follows r.0.closed (afloat r.0 f sent) (stored_by s stored)
unfolding try_send
try_send-Follows pack (checking frame) slot f sent stored h = h
try_send-Follows pack (storing payload) slot f sent stored h = record {
  ordered = put_first slot.latest payload (carried f ++ sent) stored h.ordered;
  newest = λ p. refl;
}
try_send-Follows pack (scheduling s) slot f sent stored h =
    let k = schedule_motion-keeps s slot in
    Follows-same k.1 (ap (λ o. in_slot o ++ (carried f ++ sent)) k.0) h

drop_carried :
    (o : Option (List ℕ)) (p : List ℕ) (sent stored : List (List ℕ))
    → Sublist (in_slot o ++ (p ∷ sent)) stored
    → Sublist (in_slot o ++ sent) stored
drop_carried none p sent stored h = sublist_of_cons-sublist h
drop_carried (some q) p sent stored h =
    Sublist.trans (cons-sublist-cons.1 (sublist-cons_self p sent)) h

popped-Follows :
    (n : ℕ) (slot : MotionSlot) (sent stored : List (List ℕ))
    → Follows slot.closed (in_slot slot.latest ++ sent) stored
    → let r = popped n slot in Follows r.0.closed (afloat r.0 r.1 sent) stored
popped-Follows zero slot sent stored h = h
popped-Follows (suc n) slot sent stored h = h

took-carries :
    (o : Option (List ℕ)) (sent : List (List ℕ)) → carried (took o) ++ sent ≡ in_slot o ++ sent
took-carries none sent = refl
took-carries (some p) sent = refl

filtering-Follows :
    (closed : Bool) (o : Option (List ℕ)) (p : List ℕ) (sent stored : List (List ℕ))
    → Follows closed (in_slot o ++ (p ∷ sent)) stored
    → Follows closed (in_slot o ++ shipped (if closed then [] else p ∷ []) sent) stored
filtering-Follows false o p sent stored h = h
filtering-Follows true o p sent stored h = record {
  ordered = drop_carried o p sent stored h.ordered;
  newest = λ q. cc;
}

pub flush_motion-Follows :
    (f : Flusher) (slot : MotionSlot) (sent stored : List (List ℕ))
    → Follows slot.closed (afloat slot f sent) stored
    → let r = flush_motion f slot in
      Follows r.0.closed (afloat r.0 r.1 (shipped (datagram f slot) sent)) stored
unfolding flush_motion schedule_motion
flush_motion-Follows waiting slot sent stored h = popped-Follows slot.queued slot sent stored h
flush_motion-Follows started slot sent stored h = Follows-same refl (ground arith) h
flush_motion-Follows abandoning slot sent stored h = h
flush_motion-Follows taking slot sent stored h = Follows-same refl (took-carries slot.latest sent) h
flush_motion-Follows (filtering payload) slot sent stored h =
    filtering-Follows slot.closed slot.latest payload sent stored h
flush_motion-Follows clearing slot sent stored h = h
flush_motion-Follows looking slot sent stored h = Follows-same refl (ground arith) h
flush_motion-Follows rechecking slot sent stored h = Follows-same refl (ground arith) h
flush_motion-Follows (rescheduling entering) slot sent stored h = h
flush_motion-Follows (rescheduling swapping) slot sent stored h = h
flush_motion-Follows (rescheduling sending) slot sent stored h =
    let k = schedule_motion-keeps sending slot in
    Follows-same k.1 (ap (λ o. in_slot o ++ sent) k.0) h
flush_motion-Follows (rescheduling resetting) slot sent stored h = h
flush_motion-Follows (rescheduling (returned result)) slot sent stored h = h

pub emptied-Follows :
    (o : Option (List ℕ)) (rest stored : List (List ℕ))
    → Follows true (in_slot o ++ rest) stored
    → Follows true rest stored
emptied-Follows none rest stored h = h
emptied-Follows (some p) rest stored h = record {
  ordered = sublist_of_cons-sublist h.ordered;
  newest = λ q. cc;
}
