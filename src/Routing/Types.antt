-- ===== src/Routing/Types.antt =====
-- The states, effects and errors of the router of src-tauri/src/routing.rs.
use mykvm.Base.{ℕ, Bool, Option, String}
use mykvm.Ports.{PortError}

pub data ReturnReason : Type 0 where
  user emergency timeout keys_held focus_unavailable capture_failed network_failed queue_full :
      ReturnReason

pub data RouteError : Type 0 where
  invalid_peer busy stale_reply exhausted : RouteError
  capture : PortError → RouteError
  cancelled : RouteError

pub record Preparing : Type 0 where
  pub peer : String
  pub request : ℕ
  pub deadline_ms : ℕ
  pub keys_deadline_ms : ℕ
  pub keys_released_seen : Bool
  pub session : Option ℕ
  pub commit_sent : Bool

pub data RouteState : Type 0 where
  local_desktop local_game : RouteState
  preparing_remote : Preparing → RouteState
  remote_active : (peer : String) (session : ℕ) → RouteState
  returning_local : ReturnReason → RouteState

pub data RouteEffect : Type 0 where
  prepare : (peer : String) (request : ℕ) → RouteEffect
  commit : (request session : ℕ) → RouteEffect
  cancel : (request : ℕ) → RouteEffect
  end : (session : ℕ) (reason : ReturnReason) → RouteEffect

pub record Router : Type 0 where
  pub state : RouteState
  pub game_mode : Bool
  pub gate : ℕ
  pub last_return : Option ReturnReason
