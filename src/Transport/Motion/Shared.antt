-- ===== src/Transport/Motion/Shared.antt =====
-- The slot, the programs of the threads that use it, and their interleavings.
use mykvm.Base.{
  ℕ, zero, suc, Option, some, none, Bool, true, false, List, [], ◌∷◌, if◌then◌else◌, is_some, all,
  get_elem?, set, Result, ok, err,
}
use mykvm.Protocol.Types.{MotionFrame, ProtocolError}
use mykvm.Protocol.Codec.{MessagePack, encode_motion}

-- `queued` counts the `FlushMotion` commands of this slot in the worker's channel; the channel is
-- `stopped` when its receiver is gone.
pub record MotionSlot : Type 0 where
  pub latest : Option (List ℕ)
  pub scheduled : Bool
  pub closed : Bool
  pub queued : ℕ
  pub stopped : Bool

pub data SendError : Type 0 where
  handle_closed transport_stopped : SendError
  invalid_frame : ProtocolError → SendError

abbrev pub Sent : Type 0
Sent = Result SendError (Unit {0})

-- Where a call of `schedule_motion` stands: before `closed.load`, `scheduled.swap`,
-- `commands.send` and the `scheduled.store(false)` of a failed send.
pub data Schedule : Type 0 where
  entering swapping sending resetting : Schedule
  returned : Sent → Schedule

unfoldable pub schedule_motion : Schedule → MotionSlot → MotionSlot × Schedule
schedule_motion entering slot =
    (slot, if slot.closed then returned (err handle_closed) else swapping)
schedule_motion swapping slot =
    (record slot { scheduled = true }, if slot.scheduled then returned (ok tt) else sending)
schedule_motion sending slot =
    if slot.stopped
    then (slot, resetting)
    else (record slot { queued = suc slot.queued }, returned (ok tt))
schedule_motion resetting slot =
    (record slot { scheduled = false }, returned (err transport_stopped))
schedule_motion (returned result) slot = (slot, returned result)

-- Where a call of `try_send` stands.
pub data Sender : Type 0 where
  checking : MotionFrame → Sender
  storing : List ℕ → Sender
  scheduling : Schedule → Sender

abbrev pub encoded : Result ProtocolError (List ℕ) → Sender
encoded (ok payload) = storing payload
encoded (err e) = scheduling (returned (err (invalid_frame e)))

unfoldable pub try_send : MessagePack MotionFrame → Sender → MotionSlot → MotionSlot × Sender
try_send pack (checking frame) slot = (
  slot,
  if slot.closed
      then scheduling (returned (err handle_closed))
      else encoded (encode_motion pack frame),
)
try_send pack (storing payload) slot = (record slot { latest = some payload }, scheduling entering)
try_send pack (scheduling s) slot = let r = schedule_motion s slot in (r.0, scheduling r.1)

-- Where the worker stands: waiting for a command, then in `flush_motion_nonblocking`, at each of
-- its accesses in turn. `filtering` holds the payload that it took.
pub data Flusher : Type 0 where
  waiting started abandoning taking clearing looking rechecking : Flusher
  filtering : List ℕ → Flusher
  rescheduling : Schedule → Flusher

abbrev pub popped : ℕ → MotionSlot → MotionSlot × Flusher
popped zero slot = (slot, waiting)
popped (suc n) slot = (record slot { queued = n }, started)

abbrev pub took : Option (List ℕ) → Flusher
took (some payload) = filtering payload
took none = clearing

unfoldable pub flush_motion : Flusher → MotionSlot → MotionSlot × Flusher
flush_motion waiting slot = popped slot.queued slot
flush_motion started slot = (slot, if slot.closed then abandoning else taking)
flush_motion abandoning slot = (record slot { scheduled = false }, waiting)
flush_motion taking slot = (record slot { latest = none }, took slot.latest)
flush_motion (filtering payload) slot = (slot, clearing)
flush_motion clearing slot = (record slot { scheduled = false }, looking)
flush_motion looking slot = (slot, if is_some slot.latest then rechecking else waiting)
flush_motion rechecking slot = (slot, if slot.closed then waiting else rescheduling entering)
flush_motion (rescheduling (returned result)) slot = (slot, waiting)
flush_motion (rescheduling s) slot = let r = schedule_motion s slot in (r.0, rescheduling r.1)

-- What the step hands to `send_datagram_nonblocking`.
abbrev pub datagram : Flusher → MotionSlot → List (List ℕ)
datagram (filtering payload) slot = if slot.closed then [] else payload ∷ []
datagram other slot = []

-- The handle, whose `Drop` closes the slot and then empties it.
pub data Handle : Type 0 where
  held closing gone : Handle

abbrev pub is_returned : Sender → Bool
is_returned (scheduling (returned result)) = true
is_returned other = false

-- `stored` has the payloads that the calls put into the slot, `sent` those that left it, newest
-- first.
pub record Motion : Type 0 where
  pub slot : MotionSlot
  pub senders : List Sender
  pub flusher : Flusher
  pub handle : Handle
  pub stored : List (List ℕ)
  pub sent : List (List ℕ)

abbrev pub start : Motion
start = record {
  slot = record { latest = none; scheduled = false; closed = false; queued = 0; stopped = false };
  senders = [];
  flusher = waiting;
  handle = held;
  stored = [];
  sent = [];
}

pub data Event : Type 0 where
  -- A thread calls `try_send`.
  calls : MotionFrame → Event
  -- The sender at this place, or the worker, makes its next step.
  sender_runs : ℕ → Event
  worker_runs : Event
  -- The last owner of the handle drops it: the next step of `drop`.
  drop_runs : Event
  -- The worker leaves its loop, between two commands.
  worker_stops : Event

-- The payload that the sender's step puts into the slot.
abbrev pub stored_by : Sender → List (List ℕ) → List (List ℕ)
stored_by (storing payload) stored = payload ∷ stored
stored_by other stored = stored

unfoldable pub sender_runs_at : MessagePack MotionFrame → ℕ → Option Sender → Motion → Motion
sender_runs_at pack i none m = m
sender_runs_at pack i (some s) m =
    let r = try_send pack s m.slot in
    record m { slot = r.0; senders = set m.senders i r.1; stored = stored_by s m.stored }

abbrev pub shipped : List (List ℕ) → List (List ℕ) → List (List ℕ)
shipped [] sent = sent
shipped (payload ∷ rest) sent = payload ∷ sent

unfoldable pub worker_runs_in : Motion → Motion
worker_runs_in m =
    let r = flush_motion m.flusher m.slot in
    record m { slot = r.0; flusher = r.1; sent = shipped (datagram m.flusher m.slot) m.sent }

unfoldable pub drop_handle : Handle → Motion → Motion
drop_handle held m =
    if all is_returned m.senders
    then record m { slot = record m.slot { closed = true }; handle = closing }
    else m
drop_handle closing m = record m { slot = record m.slot { latest = none }; handle = gone }
drop_handle gone m = m

unfoldable pub stop_worker : Flusher → Motion → Motion
stop_worker waiting m = record m { slot = record m.slot { queued = 0; stopped = true } }
stop_worker other m = m

abbrev pub call : Handle → MotionFrame → Motion → Motion
call held frame m = record m { senders = checking frame ∷ m.senders }
call other frame m = m

unfoldable pub step : MessagePack MotionFrame → Event → Motion → Motion
step pack (calls frame) m = call m.handle frame m
step pack (sender_runs i) m = sender_runs_at pack i (get_elem? m.senders i) m
step pack worker_runs m = worker_runs_in m
step pack drop_runs m = drop_handle m.handle m
step pack worker_stops m = stop_worker m.flusher m

unfoldable pub run : MessagePack MotionFrame → List Event → Motion → Motion
run pack [] m = m
run pack (e ∷ es) m = run pack es (step pack e m)
