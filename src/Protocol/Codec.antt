-- ===== src/Protocol/Codec.antt =====
-- `encode_control`, `encode_critical`, `encode_motion` and their `decode_*` in src-tauri/src/protocol_v2.rs. A byte
-- is a number below 256. The MessagePack serializer `rmp_serde` is a parameter.
use mykvm.Base.{
  ℕ, ◌+◌, ◌*◌, ◌/◌, ◌%◌, ◌^◌, ◌||◌, not, Option, some, List, [], ◌∷◌, ◌++◌, ◌≡◌, ◌==◌, ltb, length,
  is_nil, Result, ok, fail_if, ok_or, ◌>>=◌, ◌>>◌,
}
use mykvm.Protocol.Types.{
  ControlFrame, CriticalFrame, MotionFrame, ProtocolError, frame_too_large, invalid_length,
  invalid_magic, unsupported_major,
}
use mykvm.Protocol.Validate.{Checked, validate_frame, validate_critical, validate_motion}

abbrev pub protocol_major : ℕ
protocol_major = 2

abbrev pub max_control_frame_bytes : ℕ
max_control_frame_bytes = 16 * 1024

abbrev pub max_critical_frame_bytes : ℕ
max_critical_frame_bytes = 4 * 1024

abbrev pub max_motion_frame_bytes : ℕ
max_motion_frame_bytes = 1024

-- `u32::from_be_bytes(*b"MKV2")`, and the same of "MKI2" and "MKM2".
abbrev pub magic : ℕ
magic = 0x4d4b5632

abbrev pub input_magic : ℕ
input_magic = 0x4d4b4932

abbrev pub motion_magic : ℕ
motion_magic = 0x4d4b4d32

-- `Envelope`, `CriticalEnvelope` and `MotionEnvelope`.
pub record Envelope (F : Type 0) : Type 0 where
  pub magic : ℕ
  pub major : ℕ
  pub frame : F

-- `rmp_serde::to_vec_named` and `rmp_serde::from_slice` at an envelope.
pub record MessagePack (F : Type 0) : Type 0 where
  pub to_vec_named : Envelope F → Option (List ℕ)
  pub from_slice : List ℕ → Option (Envelope F)

-- What is serialized can be read back.
abbrev pub ReadsBack : {F : Type 0} → MessagePack F → Type 0
ReadsBack {F} pack =
    (e : Envelope F) (bytes : List ℕ)
    → pack.to_vec_named e ≡ some bytes
    → pack.from_slice bytes ≡ some e

-- `u32::to_be_bytes` and `u32::from_be_bytes`.
unfoldable pub to_be_bytes : ℕ → List ℕ
to_be_bytes n = (n / 2 ^ 24 % 256) ∷ (n / 2 ^ 16 % 256) ∷ (n / 2 ^ 8 % 256) ∷ (n % 256) ∷ []

abbrev be_value : ℕ → List ℕ → ℕ
be_value acc [] = acc
be_value acc (b ∷ bs) = be_value (acc * 256 + b) bs

unfoldable pub from_be_bytes : List ℕ → ℕ
from_be_bytes bytes = be_value 0 bytes

module _ {F : Type 0} (mark : ℕ) (validate : F → Checked) (pack : MessagePack F) where
  abbrev pub enveloped : F → Envelope F
  enveloped frame = record { magic = mark; major = protocol_major; frame = frame }

  -- The part that the encoders share: the payload, checked.
  unfoldable pub encode_payload : ℕ → F → Result ProtocolError (List ℕ)
  encode_payload max_bytes frame = do
    validate frame
    payload ← ok_or (pack.to_vec_named (enveloped frame)) ProtocolError.decode
    fail_if (is_nil payload || ltb max_bytes (length payload)) (frame_too_large (length payload))
    ok payload

  -- With its length before it. `u32::try_from` of a length of at most `max_bytes` succeeds.
  unfoldable pub encode_framed : ℕ → F → Result ProtocolError (List ℕ)
  encode_framed max_bytes frame = do
    payload ← encode_payload max_bytes frame
    ok (to_be_bytes (length payload) ++ payload)

  -- `decode_payload` and `decode_critical_payload`.
  unfoldable pub decode_checked : List ℕ → Result ProtocolError F
  decode_checked payload = do
    envelope ← ok_or (pack.from_slice payload) ProtocolError.decode
    fail_if (not (envelope.magic == mark)) invalid_magic
    fail_if (not (envelope.major == protocol_major)) (unsupported_major envelope.major)
    validate envelope.frame
    ok envelope.frame

  -- `decode_motion`.
  unfoldable pub decode_datagram : ℕ → List ℕ → Result ProtocolError F
  decode_datagram max_bytes payload = do
    fail_if (is_nil payload) invalid_length
    fail_if (ltb max_bytes (length payload)) (frame_too_large (length payload))
    decode_checked payload

abbrev pub encode_control : MessagePack ControlFrame → ControlFrame → Result ProtocolError (List ℕ)
encode_control pack = encode_framed magic validate_frame pack max_control_frame_bytes

abbrev pub decode_payload : MessagePack ControlFrame → List ℕ → Result ProtocolError ControlFrame
decode_payload pack = decode_checked magic validate_frame pack

abbrev pub encode_critical :
    MessagePack CriticalFrame → CriticalFrame → Result ProtocolError (List ℕ)
encode_critical pack = encode_framed input_magic validate_critical pack max_critical_frame_bytes

abbrev pub decode_critical_payload :
    MessagePack CriticalFrame → List ℕ → Result ProtocolError CriticalFrame
decode_critical_payload pack = decode_checked input_magic validate_critical pack

abbrev pub encode_motion : MessagePack MotionFrame → MotionFrame → Result ProtocolError (List ℕ)
encode_motion pack = encode_payload motion_magic validate_motion pack max_motion_frame_bytes

abbrev pub decode_motion : MessagePack MotionFrame → List ℕ → Result ProtocolError MotionFrame
decode_motion pack = decode_datagram motion_magic validate_motion pack max_motion_frame_bytes
