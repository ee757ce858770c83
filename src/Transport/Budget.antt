-- ===== src/Transport/Budget.antt =====
-- The byte budgets of src-tauri/src/quic_transport.rs: `BulkMemoryBudget` with its reservations, and
-- `reserve_input_bytes` with `InputHandle::try_send` and the drop of a `QueuedInput`. The threads interleave at
-- each access to the atomic counter. What the channel answers to a send is given with the step.
pub mod Exact
use mykvm.Base.{
  ℕ, ◌+◌, ◌-◌, ◌*◌, ◌%◌, ◌^◌, Option, some, none, Bool, true, false, List, [], ◌∷◌, ◌++◌, ◌&&◌, not,
  ◌==◌, ltb, if◌then◌else◌, u64_mod, checked_add, get_elem?, set,
}

-- `MAX_BULK_MEMORY_BYTES` and `INPUT_QUEUE_BYTES`.
abbrev pub max_bulk_memory_bytes : ℕ
max_bulk_memory_bytes = 128 * 1024 * 1024

abbrev pub input_queue_bytes : ℕ
input_queue_bytes = 256 * 1024

pub data BudgetError : Type 0 where
  budget_overflow budget_exceeded : BudgetError

-- Where a thread stands that reserves bytes: before the load, before a compare-exchange with what
-- it saw, with its reservation, refused, or with its reservation given away or dropped.
pub data Caller : Type 0 where
  loading : (bytes : ℕ) → Caller
  comparing : (bytes seen : ℕ) → Caller
  holding : (bytes : ℕ) → Caller
  refused : BudgetError → Caller
  finished : (accepted : Bool) → Caller

-- `compare_exchange_weak` may fail though it saw the counter's value: then it is `spurious`.
abbrev pub exchanged : (used bytes seen next : ℕ) → (spurious : Bool) → ℕ × Caller
exchanged used bytes seen next spurious =
    if seen == used && not spurious then (next, holding bytes) else (used, comparing bytes used)

abbrev pub compared : (limit used bytes seen : ℕ) (spurious : Bool) → Option ℕ → ℕ × Caller
compared limit used bytes seen spurious none = (used, refused budget_overflow)
compared limit used bytes seen spurious (some next) =
    if ltb limit next
    then (used, refused budget_exceeded)
    else exchanged used bytes seen next spurious

-- One step of the loop of `BulkMemoryBudget::reserve` or `reserve_input_bytes`, with the counter before and after.
unfoldable pub reserve_bytes : (limit : ℕ) (spurious : Bool) → Caller → (used : ℕ) → ℕ × Caller
reserve_bytes limit spurious (loading bytes) used = (used, comparing bytes used)
reserve_bytes limit spurious (comparing bytes seen) used =
    compared limit used bytes seen spurious (checked_add seen bytes)
reserve_bytes limit spurious (holding bytes) used = (used, holding bytes)
reserve_bytes limit spurious (refused e) used = (used, refused e)
reserve_bytes limit spurious (finished accepted) used = (used, finished accepted)

-- `fetch_sub`, which wraps.
unfoldable pub fetch_sub : ℕ → ℕ → ℕ
fetch_sub used bytes = (used + u64_mod - bytes) % u64_mod

-- `queued` has the sizes of the frames in the channel, oldest first; `writing` those that its
-- receiver took and has not dropped.
pub record Account : Type 0 where
  pub used : ℕ
  pub callers : List Caller
  pub queued : List ℕ
  pub writing : List ℕ

abbrev pub fresh : Account
fresh = record { used = 0; callers = []; queued = []; writing = [] }

pub data BudgetEvent : Type 0 where
  asks : (bytes : ℕ) → BudgetEvent
  reserves : (place : ℕ) (spurious : Bool) → BudgetEvent
  -- `outgoing.try_send`: what is not accepted is dropped with the error.
  sends : (place : ℕ) (accepted : Bool) → BudgetEvent
  -- The drop of a reservation.
  releases : (place : ℕ) → BudgetEvent
  -- The receiver takes the oldest frame, and drops the one it took last.
  receives drops : BudgetEvent

abbrev pub reserve_at : (limit place : ℕ) (spurious : Bool) → Option Caller → Account → Account
reserve_at limit place spurious none a = a
reserve_at limit place spurious (some c) a =
    let r = reserve_bytes limit spurious c a.used in
    record a { used = r.0; callers = set a.callers place r.1 }

-- The end of `InputHandle::try_send`, once the bytes are reserved.
abbrev pub send_at : (place : ℕ) (accepted : Bool) → Option Caller → Account → Account
send_at place true (some (holding bytes)) a = record a {
  queued = a.queued ++ (bytes ∷ []);
  callers = set a.callers place (finished true);
}
send_at place false (some (holding bytes)) a = record a {
  used = fetch_sub a.used bytes;
  callers = set a.callers place (finished false);
}
send_at place accepted other a = a

abbrev pub release_at : (place : ℕ) → Option Caller → Account → Account
release_at place (some (holding bytes)) a = record a {
  used = fetch_sub a.used bytes;
  callers = set a.callers place (finished true);
}
release_at place other a = a

abbrev pub take_frame : List ℕ → Account → Account
take_frame [] a = a
take_frame (bytes ∷ rest) a = record a { queued = rest; writing = bytes ∷ a.writing }

abbrev pub drop_written : List ℕ → Account → Account
drop_written [] a = a
drop_written (bytes ∷ rest) a = record a { used = fetch_sub a.used bytes; writing = rest }

unfoldable pub budget_step : (limit : ℕ) → BudgetEvent → Account → Account
budget_step limit (asks bytes) a = record a { callers = loading bytes ∷ a.callers }
budget_step limit (reserves place spurious) a =
    reserve_at limit place spurious (get_elem? a.callers place) a
budget_step limit (sends place accepted) a = send_at place accepted (get_elem? a.callers place) a
budget_step limit (releases place) a = release_at place (get_elem? a.callers place) a
budget_step limit receives a = take_frame a.queued a
budget_step limit drops a = drop_written a.writing a

unfoldable pub budget_run : (limit : ℕ) → List BudgetEvent → Account → Account
budget_run limit [] a = a
budget_run limit (e ∷ es) a = budget_run limit es (budget_step limit e a)
