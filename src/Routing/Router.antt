-- ===== src/Routing/Router.antt =====
-- The operations of `Router` in src-tauri/src/routing.rs. Each gives the new router, the new state of
-- the ports that it was handed, and its result.
pub mod Invariant
pub mod Advance
pub mod Emergency
pub mod Handover
pub mod Outcomes
use Prim.Native.String.{len}
use mykvm.Base.{
  ℕ, ◌+◌, Bool, true, false, not, ◌&&◌, ◌||◌, Option, none, some, List, [], ◌∷◌, String, ◌==◌, ltb,
  leb, if◌then◌else◌, Result, ok, err, is_blank, string_beq, checked_add,
}
use mykvm.Ports.{CapturePort, FocusPort, Called}
use mykvm.Routing.Gate.{
  initial, is_local, request_local, reserve, still_preparing, activate, requested,
}
use mykvm.Routing.Types.{
  ReturnReason, user, emergency, timeout, keys_held, focus_unavailable, capture_failed, RouteError,
  invalid_peer, busy, stale_reply, exhausted, cancelled, Preparing, RouteState, local_desktop,
  local_game, preparing_remote, remote_active, returning_local, RouteEffect, Router,
}

abbrev pub handoff_timeout_ms : ℕ
handoff_timeout_ms = 2500

abbrev pub keys_release_timeout_ms : ℕ
keys_release_timeout_ms = 1500

unfoldable pub with_gate : ℕ → Router
with_gate gate = record {
  state = local_desktop;
  game_mode = false;
  gate = gate;
  last_return = none;
}

abbrev pub local_state : Router → RouteState
local_state r = if r.game_mode then local_game else local_desktop

abbrev pub at_home : RouteState → Bool
at_home local_desktop = true
at_home local_game = true
at_home _ = false

unfoldable pub set_game_mode : Router → Bool → Router
set_game_mode r enabled =
    let s = record r { game_mode = enabled } in
    if at_home s.state then record s { state = local_state s } else s

-- What other threads do to the gate while a port call runs.
abbrev pub interfered : Router → ℕ → Router
interfered r n = record r { gate = requested n r.gate }

abbrev pub return_effects : RouteState → ReturnReason → List RouteEffect
return_effects local_desktop reason = []
return_effects local_game reason = []
return_effects (returning_local other) reason = []
return_effects (remote_active peer session) reason = RouteEffect.end session reason ∷ []
return_effects (preparing_remote p) reason = elim p.session [
  | none ↦ RouteEffect.cancel p.request ∷ []
  | some session ↦ RouteEffect.end session reason ∷ []
]

abbrev Ready : Type 0
Ready = Router × Result RouteError (Unit {0})

other_session : Option ℕ → ℕ → Bool
other_session none offered = false
other_session (some s) offered = not (s == offered)

ready_for : RouteState → Router → ℕ → ℕ → Ready
unfolding other_session
ready_for (preparing_remote p) r request offered =
    if not (request == p.request) || other_session p.session offered
    then (r, err stale_reply)
    else (record r { state = preparing_remote (record p { session = some offered }) }, ok tt)
ready_for _ r request offered = (r, err stale_reply)

unfoldable pub ready : Router → ℕ → ℕ → Ready
unfolding ready_for
ready r request offered =
    if offered == 0 || not (still_preparing r.gate request)
    then (r, err stale_reply)
    else ready_for r.state r request offered

is_offered : Option ℕ → ℕ → Bool
is_offered none session = false
is_offered (some offered) session = offered == session

is_stale : Preparing → ℕ → ℕ → Bool
unfolding is_offered
is_stale p request session =
    not (p.request == request) || not (is_offered p.session session) || not p.commit_sent

is_late : Router → Preparing → ℕ → ℕ → Bool
is_late r p request now_ms = leb p.deadline_ms now_ms || not (still_preparing r.gate request)

give_up_reason : Router → Preparing → ℕ → Bool → Option ReturnReason
give_up_reason r p now_ms keys_released =
    if not (still_preparing r.gate p.request)
    then some emergency
    else if leb p.deadline_ms now_ms
    then some timeout
    else if (not keys_released && p.commit_sent)
        || ((not keys_released || not p.keys_released_seen) && leb p.keys_deadline_ms now_ms)
    then some keys_held
    else none

-- The router with its generation reserved and a hand-over to the peer begun.
abbrev prepared : Router → String → ℕ → ℕ → ℕ → Router
prepared r peer request deadline keys_deadline = record r {
  gate = request;
  state = preparing_remote (record {
    peer = peer;
    request = request;
    deadline_ms = deadline;
    keys_deadline_ms = keys_deadline;
    keys_released_seen = false;
    session = none;
    commit_sent = false;
  });
}

-- `*keys_released_seen = keys_released`.
abbrev pub seen_in : Preparing → Bool → Preparing
seen_in p keys_released = record p { keys_released_seen = keys_released }

abbrev seen : Router → Preparing → Bool → Router
seen r p keys_released = record r { state = preparing_remote (seen_in p keys_released) }

module _ {C : Type 0} (port : CapturePort C) where
  -- The router, the capture port and the effects.
  -- The capture is asked to restore local control unless nothing was handed over.
  abbrev restore : RouteState → C → C × ℕ
  restore state c = if at_home state then (c, 0) else port.request_local_restore c

  unfoldable pub go_local : Router → ReturnReason → C → Router × C × List RouteEffect
  go_local r reason c =
      let restored = restore r.state c in
      (
        record r {
          state = local_state r;
          gate = requested restored.1 (request_local r.gate);
          last_return = some reason;
        },
        restored.0,
        return_effects r.state reason,
      )

  abbrev Effects : Type 0
  Effects = Router × C × Result RouteError (List RouteEffect)

  -- `self.go_local(reason, capture); return Err(error)`.
  abbrev pub give_up : Router → ReturnReason → C → RouteError → Effects
  give_up r reason c e = let (r', c', effects) = go_local r reason c in (r', c', err e)

  -- `go_remote` from the call that prepares the capture on.
  start_remote : Router → String → ℕ → C → Effects
  start_remote r peer request c =
      let called = port.prepare_capture c in
      let r' = interfered r called.requests in
      elim called.result [
        | err e ↦ give_up r' capture_failed called.port (RouteError.capture e)
        | ok _ ↦
            if not (still_preparing r'.gate request)
            then give_up r' emergency called.port cancelled
            else (r', called.port, ok (RouteEffect.prepare peer request ∷ []))
      ]

  same_target : Router → String → String → C → Effects
  same_target r current peer c = if string_beq current peer then (r, c, ok []) else (r, c, err busy)

  -- `ok_or(Exhausted)?` on the two deadlines and on the reservation, in this order.
  reserved : Router → String → Option ℕ → Option ℕ → Option ℕ → C → Effects
  unfolding start_remote
  reserved r peer (some deadline) (some keys_deadline) (some request) c =
      start_remote (prepared r peer request deadline keys_deadline) peer request c
  reserved r peer _ _ _ c = (r, c, err exhausted)

  leave_home : Router → String → ℕ → C → Effects
  unfolding reserved
  leave_home r peer now_ms c =
      reserved r peer (checked_add now_ms handoff_timeout_ms)
        (checked_add now_ms keys_release_timeout_ms) (reserve r.gate) c

  go_remote_from : RouteState → Router → String → ℕ → C → Effects
  unfolding same_target leave_home
  go_remote_from (preparing_remote p) r peer now_ms c = same_target r p.peer peer c
  go_remote_from (remote_active current session) r peer now_ms c = same_target r current peer c
  go_remote_from (returning_local reason) r peer now_ms c = (r, c, err busy)
  go_remote_from local_desktop r peer now_ms c = leave_home r peer now_ms c
  go_remote_from local_game r peer now_ms c = leave_home r peer now_ms c

  unfoldable pub go_remote : Router → String → ℕ → C → Effects
  unfolding go_remote_from
  go_remote r peer now_ms c =
      if is_blank peer || ltb 256 (len peer)
      then (r, c, err invalid_peer)
      else go_remote_from r.state r peer now_ms c

  abbrev Acked : Type 0
  Acked = Router × C × Result RouteError (Unit {0})

  abbrev refuse : Router → ReturnReason → C → RouteError → Acked
  refuse r reason c e = let (r', c', effects) = go_local r reason c in (r', c', err e)

  -- `commit_ack` from the call that activates the capture on.
  open_remote : Router → Preparing → ℕ → C → Acked
  open_remote r p session c =
      let called = port.activate_capture c in
      let r' = interfered r called.requests in
      elim called.result [
        | err e ↦ refuse r' capture_failed called.port (RouteError.capture e)
        | ok _ ↦ elim (activate r'.gate p.request) [
          | none ↦ refuse r' emergency called.port cancelled
          | some gate ↦
              (record r' { gate = gate; state = remote_active p.peer session }, called.port, ok tt)
        ]
      ]

  commit_ack_in : RouteState → Router → ℕ → ℕ → ℕ → C → Acked
  unfolding open_remote is_stale is_late
  commit_ack_in (preparing_remote p) r request session now_ms c =
      if is_stale p request session
      then (r, c, err stale_reply)
      else if is_late r p request now_ms
      then refuse r (if leb p.deadline_ms now_ms then timeout else emergency) c cancelled
      else open_remote r p session c
  commit_ack_in _ r request session now_ms c = (r, c, err stale_reply)

  unfoldable pub commit_ack : Router → ℕ → ℕ → ℕ → C → Acked
  unfolding commit_ack_in
  commit_ack r request session now_ms c = commit_ack_in r.state r request session now_ms c

  module _ {F : Type 0} (focus_port : FocusPort F) where
    abbrev Advanced : Type 0
    Advanced = Router × C × F × List RouteEffect

    abbrev back : Router → ReturnReason → C → F → Advanced
    back r reason c f = let (r', c', effects) = go_local r reason c in (r', c', f, effects)

    send_commit : Router → Preparing → ℕ → C → F → Advanced
    send_commit r p session c f =
        let called = focus_port.prepare_focus f in
        let r' = interfered r called.requests in
        elim called.result [
          | err e ↦ back r' focus_unavailable c called.port
          | ok _ ↦
              if not (still_preparing r'.gate p.request) then back r' emergency c called.port else (
                record r' { state = preparing_remote (record p { commit_sent = true }) },
                c,
                called.port,
                RouteEffect.commit p.request session ∷ [],
              )
        ]

    -- What is left of `advance` when no reason to give up holds.
    wait_or_commit : Router → Preparing → Bool → C → F → Advanced
    unfolding send_commit
    wait_or_commit r p keys_released c f =
        let q = seen_in p keys_released in
        let r' = seen r p keys_released in
        if p.commit_sent || not keys_released
        then (r', c, f, [])
        else elim p.session [ none ↦ (r', c, f, []) | some s ↦ send_commit r' q s c f ]

    advance_in : RouteState → Router → ℕ → Bool → C → F → Advanced
    unfolding give_up_reason wait_or_commit
    advance_in (preparing_remote p) r now_ms keys_released c f =
        elim (give_up_reason r p now_ms keys_released) [
          | some reason ↦ back r reason c f
          | none ↦ wait_or_commit r p keys_released c f
        ]
    advance_in (remote_active peer session) r now_ms keys_released c f =
        if is_local r.gate then back r emergency c f else (r, c, f, [])
    advance_in _ r now_ms keys_released c f = (r, c, f, [])

    -- `advance` always returns `Ok`: its value stands here without it.
    unfoldable pub advance : Router → ℕ → Bool → C → F → Advanced
    unfolding advance_in
    advance r now_ms keys_released c f = advance_in r.state r now_ms keys_released c f
