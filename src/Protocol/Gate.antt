-- ===== src/Protocol/Gate.antt =====
-- `InputSessionGate` of src-tauri/src/protocol_v2.rs: which reliable input frames a receiver lets in.
-- A method that fails leaves the gate as it was, so it returns the new gate or an error.
pub mod Order
use mykvm.Base.{
  ℕ, Option, none, some, ◌==◌, not, ◌||◌, option_beq, Result, ok, err, fail_if, ok_or, ◌>>=◌, ◌>>◌,
  checked_add,
}
use mykvm.Protocol.Types.{
  BootId, SessionId, CriticalFrame, ProtocolError, wrong_boot, wrong_session, invalid_field,
  session_beq, session_eq,
}
use mykvm.Protocol.Validate.{validate_session, validate_critical}

pub record InputSessionGate : Type 0 where
  pub local_boot : BootId
  pub active : Option (SessionId × ℕ)
  pub ended : Option SessionId

unfoldable pub new : BootId → InputSessionGate
new local_boot = record { local_boot = local_boot; active = none; ended = none }

unfoldable pub activate : InputSessionGate → SessionId → Result ProtocolError InputSessionGate
unfolding validate_session
activate g session_id = do
  validate_session session_id
  fail_if (not (session_id.receiver_boot == g.local_boot)) wrong_boot
  fail_if (option_beq g.ended (some session_id)) wrong_session
  ok (record g { active = some (session_id, 1) })

unfoldable pub accept : InputSessionGate → CriticalFrame → Result ProtocolError InputSessionGate
accept g frame = do
  validate_critical frame
  current ← ok_or g.active wrong_session
  fail_if (not (frame.session_id.receiver_boot == g.local_boot)) wrong_boot
  fail_if (not (session_beq frame.session_id current.0) || not (frame.sequence == current.1))
      wrong_session
  following ← ok_or (checked_add current.1 1) (invalid_field "sequence")
  ok (record g { active = some (current.0, following) })

unfoldable pub end : InputSessionGate → SessionId → Result ProtocolError InputSessionGate
end g session_id = do
  current ← ok_or g.active wrong_session
  fail_if (not (session_beq current.0 session_id)) wrong_session
  ok (record g { active = none; ended = some session_id })
