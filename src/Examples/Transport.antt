-- ===== src/Examples/Transport.antt =====
-- Concrete interleavings of the transport's threads, and a registry (src-tauri/src/quic_transport.rs).
use mathlib.Core.List.{Sublist}
use mykvm.Base.{
  ℕ, ◌≤◌, ◌≡◌, refl, true, false, Option, none, some, List, [], ◌∷◌, String, all, replicate, arith,
  ok, string_beq, if◌then◌else◌, pos,
}
use mykvm.Protocol.Types.{MotionFrame}
use mykvm.Protocol.Validate.{validate_motion, validate_text, validate_session}
use mykvm.Protocol.Codec.{MessagePack, encode_payload}
use mykvm.Session.Types.{PeerRole}
use mykvm.Transport.Motion.Shared.{
  Event, calls, flush_motion, is_returned, run, schedule_motion, sender_runs, sender_runs_at, start,
  step, try_send, waiting, worker_runs, worker_runs_in,
}
use mykvm.Transport.Motion.Outcomes.{run-sent, run-settles}
use mykvm.Transport.Motion.Order.{first}
use mykvm.Transport.Budget.{BudgetEvent, asks, budget_run, drops, fresh, receives, reserves, sends}
use mykvm.Transport.Budget.Exact.{all_held, budget_run-exact}
use mykvm.Transport.Registry.{Registry, TrustedPeer, push_peer, replace}
use mykvm.Transport.Registry.Trust.{Known, replace-authenticate}

-- A serializer that writes the sequence number alone.
abbrev pack : MessagePack MotionFrame
pack = record { to_vec_named = λ e. some (e.frame.sequence ∷ []); from_slice = λ bytes. none }

abbrev frame : ℕ → MotionFrame
frame n = record {
  session_id = record { controller_boot = 7; receiver_boot = 9; nonce = 5 };
  display_id = "main";
  layout_revision = 1;
  sequence = n;
  required_reliable_sequence = 0;
  x = pos 10;
  y = pos 20;
}

-- Newest last: the first call is scheduled, and a second one comes while the worker has its payload.
abbrev events : List Event
events =
    calls (frame 1)
    ∷ sender_runs 0
    ∷ sender_runs 0
    ∷ sender_runs 0
    ∷ sender_runs 0
    ∷ sender_runs 0
    ∷ worker_runs
    ∷ worker_runs
    ∷ worker_runs
    ∷ calls (frame 2)
    ∷ sender_runs 0
    ∷ sender_runs 0
    ∷ sender_runs 0
    ∷ sender_runs 0
    ∷ []

run-sent_example :
    Sublist (run pack events start).sent (run pack events start).stored
    × ((run pack events start).slot.stopped ≡ false → (run pack events start).slot.queued ≤ 1)
run-sent_example = run-sent pack events

all_back : all is_returned (run pack events start).senders ≡ true
unfolding run step sender_runs_at worker_runs_in try_send schedule_motion flush_motion
    encode_payload validate_motion validate_text validate_session
all_back = refl

unclosed : (run pack events start).slot.closed ≡ false
unfolding run step sender_runs_at worker_runs_in try_send schedule_motion flush_motion
    encode_payload validate_motion validate_text validate_session
unclosed = refl

runs : (run pack events start).slot.stopped ≡ false
unfolding run step sender_runs_at worker_runs_in try_send schedule_motion flush_motion
    encode_payload validate_motion validate_text validate_session
runs = refl

run-settles_example :
    let m = run pack events start in
    let m' = run pack (replicate 20 worker_runs) m in
    (m'.flusher ≡ waiting)
    × (m'.slot.queued ≡ 0)
    × (m'.slot.latest ≡ none)
    × (first m'.sent ≡ first m.stored)
run-settles_example = run-settles pack events 20 all_back unclosed runs (omega arith)

-- Two threads compete for a budget of a hundred bytes.
abbrev competition : List BudgetEvent
competition =
    asks 60
    ∷ asks 50
    ∷ reserves 0 false
    ∷ reserves 1 false
    ∷ reserves 0 true
    ∷ reserves 1 false
    ∷ reserves 0 false
    ∷ reserves 0 false
    ∷ sends 1 true
    ∷ receives
    ∷ drops
    ∷ []

budget_run-exact_example :
    let a = budget_run 100 competition fresh in (a.used ≡ all_held a) × (a.used ≤ 100)
budget_run-exact_example = budget_run-exact 100 (omega arith) competition

abbrev peers : List TrustedPeer
peers =
    record {
      peer_id = "desk";
      certificate = "AQ==";
      role = PeerRole.controller;
      trust_revision = 1;
    }
    ∷ record { peer_id = "lap"; certificate = "AgI="; role = PeerRole.receiver; trust_revision = 2 }
    ∷ []

-- Stands for the decoder of base64.
abbrev decode : String → Option (List ℕ)
decode s = some (if string_beq s "AQ==" then 1 ∷ [] else 2 ∷ 2 ∷ [])

abbrev known : Registry
known =
    record {
      peer_id = "desk";
      certificate = 1 ∷ [];
      role = PeerRole.controller;
      trust_revision = 1;
    }
    ∷ record {
      peer_id = "lap";
      certificate = 2 ∷ 2 ∷ [];
      role = PeerRole.receiver;
      trust_revision = 2;
    }
    ∷ []

installed_both : replace decode peers [] ≡ (known, ok tt)
unfolding replace push_peer
installed_both = refl

replace-authenticate_example : Known decode peers known
replace-authenticate_example = replace-authenticate decode peers [] known installed_both
