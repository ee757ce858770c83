-- ===== src/Examples/Decoder.antt =====
-- Concrete runs of the decoders (src-tauri/src/protocol_v2.rs), with a serializer that knows one frame.
use mykvm.Base.{
  ℕ, ◌≡◌, ◌⊎◌, refl, ap, sym, some_same, Option, none, some, List, [], ◌∷◌, ◌++◌, arith, ok, err,
}
use mykvm.Protocol.Types.{ControlFrame, ProtocolError}
use mykvm.Protocol.Validate.{validate_frame, validate_session}
use mykvm.Protocol.Codec.{
  Envelope, MessagePack, ReadsBack, magic, max_control_frame_bytes, decode_payload, encode_payload,
  encode_framed, to_be_bytes, from_be_bytes, decode_checked,
}
use mykvm.Protocol.Decoder.{Decoder, empty, push, set_length, finish_payload}
use mykvm.Protocol.Decoder.Stream.{concat, push_chunks, push_ends, Kept, Pushed}
use mykvm.Protocol.Decoder.Chunks.{Agrees, Handed, each-push, push_each}
use mykvm.Protocol.Decoder.RoundTrip.{encode_all, encode-decode}
use mykvm.Protocol.Decoder.Refusal.{push_refused}

abbrev write : ℕ → ℕ → ControlFrame → Option (List ℕ)
write mark major (ControlFrame.ping s n) =
    some (mark ∷ major ∷ s.controller_boot ∷ s.receiver_boot ∷ s.nonce ∷ n ∷ [])
write mark major _ = none

abbrev read : List ℕ → Option (Envelope ControlFrame)
read (mark ∷ major ∷ c ∷ r ∷ x ∷ n ∷ []) = some (record {
  magic = mark;
  major = major;
  frame = ControlFrame.ping (record { controller_boot = c; receiver_boot = r; nonce = x }) n;
})
read _ = none

abbrev pack : MessagePack ControlFrame
pack = record { to_vec_named = λ e. write e.magic e.major e.frame; from_slice = read }

write-read :
    (mark major : ℕ) (frame : ControlFrame) (bytes : List ℕ)
    → write mark major frame ≡ some bytes
    → read bytes ≡ some (record { magic = mark; major = major; frame = frame })
write-read mark major (ControlFrame.ping s n) bytes h = ap read (sym (some_same h))
write-read mark major _ bytes h = cc

pack-ReadsBack : ReadsBack pack
pack-ReadsBack e bytes h = write-read e.magic e.major e.frame bytes h

abbrev ping : ℕ → ControlFrame
ping n = ControlFrame.ping (record { controller_boot = 7; receiver_boot = 9; nonce = 5 }) n

abbrev payload : ℕ → List ℕ
payload n = magic ∷ 2 ∷ 7 ∷ 9 ∷ 5 ∷ n ∷ []

abbrev stream : List ℕ
stream = 0 ∷ 0 ∷ 0 ∷ 6 ∷ magic ∷ 2 ∷ 7 ∷ 9 ∷ 5 ∷ 1 ∷ 0 ∷ 0 ∷ 0 ∷ 6 ∷ magic ∷ 2 ∷ 7 ∷ 9 ∷ 5 ∷ 2 ∷ []

abbrev chunks : List (List ℕ)
chunks =
    (0 ∷ 0 ∷ [])
    ∷ []
    ∷ (0 ∷ 6 ∷ magic ∷ 2 ∷ 7 ∷ [])
    ∷ (9 ∷ 5 ∷ 1 ∷ 0 ∷ 0 ∷ [])
    ∷ (0 ∷ 6 ∷ magic ∷ 2 ∷ 7 ∷ 9 ∷ 5 ∷ 2 ∷ [])
    ∷ []

encoded :
    encode_all magic max_control_frame_bytes validate_frame pack (ping 1 ∷ ping 2 ∷ []) ≡ ok stream
unfolding encode_all encode_framed encode_payload validate_frame validate_session to_be_bytes
encoded = refl

encode-decode_example :
    push_chunks max_control_frame_bytes (decode_payload pack) empty chunks []
    ≡ some (empty, ok (ping 1 ∷ ping 2 ∷ []))
encode-decode_example =
    encode-decode magic max_control_frame_bytes validate_frame pack (ping 1 ∷ ping 2 ∷ []) stream
      chunks pack-ReadsBack (omega arith) encoded refl

written : encode_payload magic validate_frame pack max_control_frame_bytes (ping 3) ≡ ok (payload 3)
unfolding encode_payload validate_frame validate_session
written = refl

-- The same frames, and a length that is over the bound.
abbrev broken : List (List ℕ)
broken = chunks ++ (255 ∷ 0 ∷ []) ∷ (0 ∷ 0 ∷ 1 ∷ []) ∷ chunks

each-push_example :
    (p : Pushed max_control_frame_bytes (decode_payload pack)) × (h : Handed max_control_frame_bytes
      (decode_payload pack))
    × (push max_control_frame_bytes (decode_payload pack) empty (concat broken) ≡ some p)
    × (push_each max_control_frame_bytes (decode_payload pack) empty broken [] ≡ some h)
    × Agrees max_control_frame_bytes (decode_payload pack) empty broken [] p h
each-push_example =
    each-push max_control_frame_bytes (decode_payload pack) empty broken (omega arith)

push_ends_example :
    (p : Pushed max_control_frame_bytes (decode_payload pack)) × (push max_control_frame_bytes
        (decode_payload pack)
        empty
        stream
      ≡ some p)
    × Kept max_control_frame_bytes (decode_payload pack) p
push_ends_example =
    push_ends max_control_frame_bytes (decode_payload pack) empty stream (omega arith)

-- A whole payload that is no frame.
abbrev refused : Decoder
refused = record { prefix = 0 ∷ 0 ∷ 0 ∷ 1 ∷ []; expected = some 1; payload = 8 ∷ [] }

bad_payload :
    push max_control_frame_bytes (decode_payload pack) empty (0 ∷ 0 ∷ 0 ∷ 1 ∷ 8 ∷ 4 ∷ [])
    ≡ some (refused, err ProtocolError.decode)
unfolding push set_length finish_payload from_be_bytes decode_checked
bad_payload = refl

push_refused_example :
    (refused ≡ empty)
    ⊎ ((b : ℕ) (bs : List ℕ)
        → push max_control_frame_bytes (decode_payload pack) refused (b ∷ bs)
          ≡ some (refused, err ProtocolError.decode))
push_refused_example =
    push_refused max_control_frame_bytes (decode_payload pack) empty refused
      (0 ∷ 0 ∷ 0 ∷ 1 ∷ 8 ∷ 4 ∷ []) ProtocolError.decode (omega arith) bad_payload
