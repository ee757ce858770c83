-- ===== src/Protocol/Decoder.antt =====
-- `ControlDecoder` and `CriticalDecoder` of src-tauri/src/protocol_v2.rs, which differ in the bound on a frame and
-- in the decoding of its payload. Of the array `prefix` the model keeps the first `prefix_len` bytes:
-- the others are overwritten before they are read.
pub mod Bytes
pub mod Rounds
pub mod Stream
pub mod Chunks
pub mod RoundTrip
pub mod Refusal
use Prim.Native.Nat.{min}
use mykvm.Base.{
  ℕ, zero, suc, ◌-◌, ◌&&◌, Option, none, some, List, [], ◌∷◌, ◌++◌, ◌==◌, ltb, length, take, drop,
  is_nil, is_some, not, Bool, if◌then◌else◌, Result, ok, err,
}
use mykvm.Protocol.Types.{
  ControlFrame, CriticalFrame, ProtocolError, frame_too_large, invalid_length, truncated,
}
use mykvm.Protocol.Codec.{
  from_be_bytes, MessagePack, decode_payload, decode_critical_payload, max_control_frame_bytes,
  max_critical_frame_bytes,
}

pub record Decoder : Type 0 where
  pub prefix : List ℕ
  pub expected : Option ℕ
  pub payload : List ℕ

-- `ControlDecoder::default`.
abbrev pub empty : Decoder
empty = record { prefix = []; expected = none; payload = [] }

abbrev pub reset : Decoder → Decoder
reset d = record { prefix = []; expected = none; payload = [] }

unfoldable pub finish : Decoder → Result ProtocolError (Unit {0})
finish d = if is_nil d.prefix && not (is_some d.expected) then ok tt else err truncated

-- What `take` bytes of the chunk complete the prefix, and the rest of the chunk.
abbrev pub take_prefix : Decoder → List ℕ → Decoder × List ℕ
take_prefix d bytes =
    let n = min (4 - length d.prefix) (length bytes) in
    (record d { prefix = d.prefix ++ take n bytes }, drop n bytes)

abbrev pub take_payload : ℕ → Decoder → List ℕ → Decoder × List ℕ
take_payload expected d bytes =
    let n = min (expected - length d.payload) (length bytes) in
    (record d { payload = d.payload ++ take n bytes }, drop n bytes)

module _ {F : Type 0} (max_bytes : ℕ) (decode : List ℕ → Result ProtocolError F) where
  abbrev pub Pushed : Type 0
  Pushed = Decoder × Result ProtocolError (List F)

  -- The length that a whole prefix spells, checked and expected from now on.
  unfoldable pub set_length : Decoder → Decoder × Result ProtocolError ℕ
  set_length d =
      let length = from_be_bytes d.prefix in
      if length == 0
      then (reset d, err invalid_length)
      else if ltb max_bytes length
      then (reset d, err (frame_too_large length))
      else (record d { expected = some length; payload = [] }, ok length)

  -- `if self.payload.len() == expected { .. }`.
  unfoldable pub finish_payload : ℕ → Decoder → List F → Pushed
  finish_payload expected d decoded =
      if length d.payload == expected
      then elim (decode d.payload) [
        | err e ↦ (d, err e)
        | ok frame ↦ (reset d, ok (decoded ++ frame ∷ []))
      ]
      else (d, ok decoded)

  abbrev pub read_payload : ℕ → Decoder → List ℕ → List F → Pushed × List ℕ
  read_payload expected d bytes decoded =
      let taken = take_payload expected d bytes in
      (finish_payload expected taken.0 decoded, taken.1)

  abbrev pub after_length : Decoder × Result ProtocolError ℕ → List ℕ → List F → Pushed × List ℕ
  after_length (d, ok expected) bytes decoded = read_payload expected d bytes decoded
  after_length (d, err e) bytes decoded = ((d, err e), bytes)

  -- `if self.prefix_len < 4 { continue; }` and what follows it.
  abbrev pub after_prefix : Decoder → List ℕ → List F → Pushed × List ℕ
  after_prefix d bytes decoded =
      if ltb (length d.prefix) 4
      then ((d, ok decoded), bytes)
      else after_length (set_length d) bytes decoded

  -- One round of the loop, and what it leaves of the chunk.
  pub round_in : Option ℕ → Decoder → List ℕ → List F → Pushed × List ℕ
  round_in (some expected) d bytes decoded = read_payload expected d bytes decoded
  round_in none d bytes decoded =
      let taken = take_prefix d bytes in after_prefix taken.0 taken.1 decoded

  -- `while !bytes.is_empty() { .. }` on fuel; `none` means that the fuel ran out.
  pub push_loop : ℕ → Decoder → List ℕ → List F → Option Pushed
  unfolding round_in
  push_loop fuel d [] decoded = some (d, ok decoded)
  push_loop zero d (b ∷ bs) decoded = none
  push_loop (suc fuel) d (b ∷ bs) decoded =
      let round = round_in d.expected d (b ∷ bs) decoded in
      elim round.0.1 [
        | err e ↦ some (round.0.0, err e)
        | ok more ↦ push_loop fuel round.0.0 round.1 more
      ]

  -- Every round takes a byte at least, so the number of bytes is fuel enough.
  unfoldable pub push : Decoder → List ℕ → Option Pushed
  unfolding push_loop
  push d bytes = push_loop (length bytes) d bytes []

abbrev pub push_control :
    MessagePack ControlFrame
    → Decoder
    → List ℕ
    → Option (Decoder × Result ProtocolError (List ControlFrame))
push_control pack = push max_control_frame_bytes (decode_payload pack)

abbrev pub push_critical :
    MessagePack CriticalFrame
    → Decoder
    → List ℕ
    → Option (Decoder × Result ProtocolError (List CriticalFrame))
push_critical pack = push max_critical_frame_bytes (decode_critical_payload pack)
