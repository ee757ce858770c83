-- ===== src/Examples/Handover.antt =====
-- Concrete histories of the router (src-tauri/src/routing.rs).
use mykvm.Base.{ℕ, ◌≡◌, refl, true, false, some, none, List, [], ◌∷◌, String, arith, ok, is_ok, ◌⊎◌}
use mykvm.Ports.{CapturePort, FocusPort}
use mykvm.Routing.Gate.{is_local, still_preparing, activate, requested}
use mykvm.Routing.Types.{Preparing, preparing_remote, remote_active, Router}
use mykvm.Routing.Router
use mykvm.Routing.Router.Invariant.{Inv}
use mykvm.Routing.Router.Emergency.{Event, World, act, run, fresh, run_closed, request_wins}
use mykvm.Routing.Router.Handover.{Completed, commit_ack_ok}

-- Ports that succeed; a capture during whose activation the user asks `n` times for local control.
abbrev capture : ℕ → CapturePort (Unit {0})
capture n = record {
  prepare_capture = λ c. record { port = c; result = ok tt; requests = 0 };
  activate_capture = λ c. record { port = c; result = ok tt; requests = n };
  request_local_restore = λ c. (c, 0);
}

abbrev focus : FocusPort (Unit {0})
focus = record { prepare_focus = λ f. record { port = f; result = ok tt; requests = 0 } }

abbrev handover : List Event
handover =
    Event.go_remote "desk" 100
    ∷ Event.ready 3 44
    ∷ Event.advance 110 true
    ∷ Event.commit_ack 3 44 120
    ∷ []

abbrev interrupted : List Event
interrupted = Event.ready 3 44 ∷ Event.advance 110 true ∷ []

abbrev preparing : Preparing
preparing = record {
  peer = "desk";
  request = 3;
  deadline_ms = 3100;
  keys_deadline_ms = 600;
  keys_released_seen = true;
  session = some 44;
  commit_sent = true;
}

abbrev waiting : Router
waiting = record {
  state = preparing_remote preparing;
  game_mode = false;
  gate = 3;
  last_return = none;
}

abbrev world : World (Unit {0}) (Unit {0})
world = record { router = waiting; capture = tt; focus = tt }

local_initial : is_local 1 ≡ true
unfolding is_local
local_initial = refl

local_three : is_local 3 ≡ true
unfolding is_local
local_three = refl

run_closed_example :
    let r = (run (capture 1) focus (fresh 1 tt tt) handover).router in
    (is_local r.gate ≡ true) ⊎ ((peer : String) × (s : ℕ) × (r.state ≡ remote_active peer s))
run_closed_example = run_closed (capture 1) focus 1 tt tt handover (omega arith) local_initial

waiting-Inv : Inv waiting
waiting-Inv = record {
  word = omega arith;
  settled = (local_three, local_three, omega arith, omega arith);
}

request_wins_example :
    let v = run (capture 0) focus (act (capture 0) focus world Event.asks_local) interrupted in
    (is_ok (Router.ready v.router 3 44).1 ≡ false)
    × (is_ok (Router.commit_ack (capture 0) v.router 3 44 120 v.capture).2 ≡ false)
request_wins_example =
    request_wins (capture 0) focus world preparing interrupted 44 120 waiting-Inv refl

acked : is_ok (Router.commit_ack (capture 0) waiting 3 44 120 tt).2 ≡ true
unfolding Router.commit_ack still_preparing activate requested
acked = refl

commit_ack_ok_example :
    (p : Preparing) × (preparing_remote preparing ≡ preparing_remote p)
    × Completed
        (capture 0)
        p
        waiting
        3
        44
        120
        tt
        (Router.commit_ack (capture 0) waiting 3 44 120 tt).0
commit_ack_ok_example = commit_ack_ok (capture 0) waiting 3 44 120 tt acked
