-- ===== src/Session/Histories.antt =====
-- Histories of a receiver's runtime (src-tauri/src/session_runtime.rs): its calls, in any order.
use mykvm.Base.{ℕ, Bool, String, List, [], ◌∷◌}
use mykvm.Ports.{InjectorPort}
use mykvm.Protocol.Gate
use mykvm.Protocol.Types.{BootId, ControlFrame, CriticalFrame, MotionFrame}
use mykvm.Session.Types.{AuthenticatedPeer, ReceiverDisplayLayout, Runtime}
use mykvm.Session.Runtime.{new_with_display_layouts}
use mykvm.Session.Runtime.Invariant.{Inv}
use mykvm.Session.Input
use mykvm.Session.Input.Frames.{handle_input_at-Inv, handle_motion_at-Inv}
use mykvm.Session.Control
use mykvm.Session.Control.Frames.{handle_control_at-Inv}
use mykvm.Session.Control.Invariant.{
  expire_if_needed-Inv, input_stream_closed_by-Keeps, update_display_layouts-Keeps,
}

pub data Call : Type 0 where
  control : (frame : ControlFrame) (peer : AuthenticatedPeer) (now_ms : ℕ) → Call
  input : (frame : CriticalFrame) (peer : AuthenticatedPeer) (now_ms : ℕ) → Call
  motion : (frame : MotionFrame) (peer : AuthenticatedPeer) (now_ms : ℕ) → Call
  expire : (now_ms : ℕ) → Call
  stream_closed : (peer : AuthenticatedPeer) → Call
  layouts : List ReceiverDisplayLayout → Call
  modifiers : (enabled : Bool) (control alt meta : String) → Call

module _ {I : Type 0} (port : InjectorPort I) where
  pub call : Runtime I → Call → Runtime I
  call r (control frame peer now_ms) = (Control.handle_control_at port frame peer now_ms r).0
  call r (input frame peer now_ms) = (Input.handle_input_at port frame peer now_ms r).0
  call r (motion frame peer now_ms) = (Input.handle_motion_at port frame peer now_ms r).0
  call r (expire now_ms) = (Control.expire_if_needed port now_ms r).0
  call r (stream_closed peer) = (Control.input_stream_closed_by port peer r).0
  call r (layouts displays) = (Control.update_display_layouts port displays r).0
  call r (modifiers enabled c a m) = Control.update_modifier_mapping enabled c a m r

  pub run : Runtime I → List Call → Runtime I
  run r [] = r
  run r (c ∷ cs) = run (call r c) cs

  call-Inv : (r : Runtime I) (c : Call) → Inv r → Inv (call r c)
  unfolding call Control.update_modifier_mapping
  call-Inv r (control frame peer now_ms) v = handle_control_at-Inv port frame peer now_ms r v
  call-Inv r (input frame peer now_ms) v = handle_input_at-Inv port frame peer now_ms r v
  call-Inv r (motion frame peer now_ms) v = handle_motion_at-Inv port frame peer now_ms r v
  call-Inv r (expire now_ms) v = expire_if_needed-Inv port now_ms r v
  call-Inv r (stream_closed peer) v = input_stream_closed_by-Keeps port peer r v
  call-Inv r (layouts displays) v = update_display_layouts-Keeps port displays r v
  call-Inv r (modifiers enabled c a m) v = record {
    agree = v.agree;
    pending = v.pending;
    distinct = v.distinct;
  }

  later-Inv : (r : Runtime I) (cs : List Call) → Inv r → Inv (run r cs)
  unfolding run
  later-Inv r [] v = v
  later-Inv r (c ∷ cs) v = later-Inv (call r c) cs (call-Inv r c v)

  -- A new runtime keeps its invariant through any calls, from any peers and in any order, whether
  -- or not they fail: it has a session exactly when its gate lets one in, and that very one; a
  -- motion that waits is one of that session; and no button stands twice in the ledger.
  pub run-Inv :
      (boot : BootId) (injector : I) (displays : List ReceiverDisplayLayout) (cs : List Call)
      → Inv (run (new_with_display_layouts boot injector displays) cs)
  unfolding new_with_display_layouts Gate.new
  run-Inv boot injector displays cs =
      later-Inv (new_with_display_layouts boot injector displays) cs
        (record { agree = tt; pending = tt; distinct = tt })
