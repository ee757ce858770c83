-- ===== src/Ports.antt =====
-- src-tauri/src/control_ports.rs: the platform boundaries, as interfaces that their clients take.
-- A port has a state of its own. While one of its calls runs, other holders of the shared gate of
-- src-tauri/src/routing.rs may ask for local control: a call also says how often they did (the number beside the
-- new state, for the call that has no result).
use mykvm.Base.{ℕ, Result, ok, err}
use mykvm.Input.{InputCommand}

pub data PortError : Type 0 where
  permission_denied unavailable queue_full submission_failed : PortError

abbrev pub PortResult : Type 0
PortResult = Result PortError (Unit {0})

pub record Called (C : Type 0) : Type 0 where
  pub port : C
  pub result : PortResult
  pub requests : ℕ

pub record CapturePort (C : Type 0) : Type 0 where
  pub prepare_capture : C → Called C
  pub activate_capture : C → Called C
  pub request_local_restore : C → C × ℕ

pub record FocusPort (F : Type 0) : Type 0 where
  pub prepare_focus : F → Called F

pub record InjectorPort (I : Type 0) : Type 0 where
  pub readiness : I → PortResult
  pub post_event : I → InputCommand → I × PortResult

module _ {I : Type 0} (port : InjectorPort I) where
  unfoldable pub submit_ready : I → InputCommand → I × PortResult
  submit_ready injector event = elim (port.readiness injector) [
    | err e ↦ (injector, err e)
    | ok _ ↦ port.post_event injector event
  ]
