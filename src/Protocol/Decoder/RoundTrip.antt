-- ===== src/Protocol/Decoder/RoundTrip.antt =====
-- What the encoders of src-tauri/src/protocol_v2.rs write, its decoders read.
use mathlib.Core.List.{append-nil, append_assoc}
use mykvm.Base.{
  ok_same, Option-cases, ◌||◌, ==_refl, ℕ, ◌^◌, ◌≤◌, ◌<◌, ◌≡◌, refl, ap, ◌∙◌, subst, none, some,
  List, [], ◌∷◌, ◌++◌, ltb, length, take, drop, is_nil, Result, ok, Result-cases, Bool-cases, inl,
  inr, false, arith, ◌>>=◌,
}
use mykvm.Protocol.Types.{ProtocolError}
use mykvm.Protocol.Codec.{MessagePack, ReadsBack, to_be_bytes, from_be_bytes}
use mykvm.Protocol.Decoder.{empty, set_length, finish_payload}
use mykvm.Protocol.Decoder.Bytes.{and_then, feed, feed_all, feed_all-append, holding, payload_stage}
use mykvm.Protocol.Decoder.Stream.{concat, push_chunks, chunks-feed_all}
use mykvm.Protocol.Validate.{Checked}
use mykvm.Protocol.Codec.{encode_payload, enveloped, encode_framed, decode_checked, decode_datagram}

from_be_bytes_to : (n : ℕ) → n < 2 ^ 32 → from_be_bytes (to_be_bytes n) ≡ n
unfolding from_be_bytes to_be_bytes
from_be_bytes_to n small = omega arith

take-length {ℓ} : {A : Type ℓ} (xs : List A) → take (length xs) xs ≡ xs
take-length [] = refl
take-length (x ∷ xs) = rw (take-length xs)

drop-length {ℓ} : {A : Type ℓ} (xs : List A) → drop (length xs) xs ≡ []
drop-length [] = refl
drop-length (x ∷ xs) = drop-length xs

module _ {F : Type 0} (max_bytes : ℕ) (decode : List ℕ → Result ProtocolError F) where
  length_set :
      (n : ℕ)
      → 0 < n
      → n ≤ max_bytes
      → max_bytes < 2 ^ 32
      → set_length max_bytes decode (holding (to_be_bytes n) none [])
        ≡ (holding (to_be_bytes n) (some n) [], ok n)
  unfolding set_length
  length_set n some_bytes fits small = rw (from_be_bytes_to (n) (omega arith)) (ground arith)

  length_read :
      (payload : List ℕ) (decoded : List F)
      → 0 < length payload
      → length payload ≤ max_bytes
      → max_bytes < 2 ^ 32
      → feed_all max_bytes decode empty (to_be_bytes (length payload)) decoded
        ≡ (holding (to_be_bytes (length payload)) (some (length payload)) [], ok decoded)
  unfolding feed_all feed to_be_bytes
  length_read payload decoded some_bytes fits small =
      rw (length_set (length payload) some_bytes fits small) refl

  payload_read :
      (payload : List ℕ) (frame : F) (decoded : List F)
      → 0 < length payload
      → decode payload ≡ ok frame
      → feed_all max_bytes decode
          (holding (to_be_bytes (length payload)) (some (length payload)) [])
          payload
          decoded
        ≡ (empty, ok (decoded ++ frame ∷ []))
  unfolding finish_payload feed_all
  payload_read payload frame decoded some_bytes good =
      payload_stage max_bytes decode (length payload) (length payload)
        (to_be_bytes (length payload)) [] payload decoded some_bytes (omega arith)
      ∙ rw (take-length payload, drop-length payload, ==_refl (length payload), good) refl

  -- One frame_read payload.
  pub frame_read :
      (payload : List ℕ) (frame : F) (decoded : List F)
      → 0 < length payload
      → length payload ≤ max_bytes
      → max_bytes < 2 ^ 32
      → decode payload ≡ ok frame
      → feed_all max_bytes decode empty (to_be_bytes (length payload) ++ payload) decoded
        ≡ (empty, ok (decoded ++ frame ∷ []))
  frame_read payload frame decoded some_bytes fits small good =
      feed_all-append max_bytes decode empty (to_be_bytes (length payload)) payload decoded
      ∙ ap (λ p. and_then max_bytes decode p (λ d more. feed_all max_bytes decode d payload more))
          (length_read payload decoded some_bytes fits small)
      ∙ payload_read payload frame decoded some_bytes good

module _ {F : Type 0} (mark max_bytes : ℕ) (validate : F → Checked) (pack : MessagePack F) where
  abbrev decode : List ℕ → Result ProtocolError F
  decode = decode_checked mark validate pack

  in_bounds :
      (bytes : List ℕ)
      → (is_nil bytes || ltb max_bytes (length bytes)) ≡ false
      → (0 < length bytes) × (length bytes ≤ max_bytes)
  in_bounds [] e = cc e
  in_bounds (b ∷ bs) e = ground arith

  not_nil : (bytes : List ℕ) → 0 < length bytes → is_nil bytes ≡ false
  not_nil [] h = ground arith
  not_nil (b ∷ bs) h = refl

  not_longer : (bytes : List ℕ) → length bytes ≤ max_bytes → ltb max_bytes (length bytes) ≡ false
  not_longer bytes h = ground arith

  decoded :
      {frame : F} {u : Unit {0}}
      → validate frame ≡ ok u
      → (validate frame >>= λ _. ok frame) ≡ ok frame
  decoded q = rw q

  -- A payload that was encoded has a length in the bounds, and can be decoded.
  payload-decode :
      (frame : F) (payload : List ℕ)
      → ReadsBack pack
      → encode_payload mark validate pack max_bytes frame ≡ ok payload
      → (0 < length payload) × (length payload ≤ max_bytes) × (decode payload ≡ ok frame)
  unfolding encode_payload decode_checked
  payload-decode frame payload back e = elim (Result-cases (validate frame)) [
    | inr (x, q) ↦ cc (rw (q, encode_payload) at e)
    | inl (u, q) ↦ elim (Option-cases (pack.to_vec_named (enveloped mark validate pack frame))) [
      | inl w ↦ cc (rw (q, w, encode_payload) at e)
      | inr (bytes, w) ↦ elim (Bool-cases (is_nil bytes || ltb max_bytes (length bytes))) [
        | inl bad ↦ cc (rw (q, w, bad, encode_payload) at e)
        | inr good ↦
            let same : bytes ≡ payload = ok_same (rw (q, w, good, encode_payload) at e) in
            let read = back (enveloped mark validate pack frame) bytes w in
            let fits = in_bounds bytes good in
            (
              subst (λ l. 0 < length l) same fits.0,
              subst (λ l. length l ≤ max_bytes) same fits.1,
              subst (λ l. decode l ≡ ok frame) same
                  (rw (read, decode_checked, ==_refl mark) (decoded q)),
            )
      ]
    ]
  ]

  -- What is sent as one datagram is read back, when the serializer reads back what it wrote.
  pub datagram-encode :
      (frame : F) (payload : List ℕ)
      → ReadsBack pack
      → encode_payload mark validate pack max_bytes frame ≡ ok payload
      → decode_datagram mark validate pack max_bytes payload ≡ ok frame
  unfolding decode_datagram
  datagram-encode frame payload back e =
      let known = payload-decode frame payload back e in
      rw (not_nil payload known.0, not_longer payload known.1, decode_datagram) known.2

  -- The frames of a sender, one after the other.
  unfoldable pub encode_all : List F → Result ProtocolError (List ℕ)
  encode_all [] = ok []
  encode_all (f ∷ fs) = do
    bytes ← encode_framed mark validate pack max_bytes f
    rest ← encode_all fs
    ok (bytes ++ rest)

  framed-decode :
      (frame : F) (bytes : List ℕ) (read : List F)
      → ReadsBack pack
      → max_bytes < 2 ^ 32
      → encode_framed mark validate pack max_bytes frame ≡ ok bytes
      → feed_all max_bytes decode empty bytes read ≡ (empty, ok (read ++ frame ∷ []))
  unfolding encode_framed
  framed-decode frame bytes read back small e =
      elim (Result-cases (encode_payload mark validate pack max_bytes frame)) [
        | inr (x, q) ↦ cc (rw (q, encode_framed) at e)
        | inl (payload, q) ↦
            let known = payload-decode frame payload back q in
            subst (λ l. feed_all max_bytes decode empty l read ≡ (empty, ok (read ++ frame ∷ [])))
              (ok_same (rw (q, encode_framed) at e))
              (frame_read max_bytes decode payload frame read known.0 known.1 small known.2)
      ]

  all-decode :
      (frames : List F) (bytes : List ℕ) (read : List F)
      → ReadsBack pack
      → max_bytes < 2 ^ 32
      → encode_all frames ≡ ok bytes
      → feed_all max_bytes decode empty bytes read ≡ (empty, ok (read ++ frames))
  unfolding encode_all feed_all
  all-decode [] bytes read back small e =
      subst (λ l. feed_all max_bytes decode empty l read ≡ (empty, ok (read ++ []))) (ok_same e)
        (rw (append-nil read, feed_all) refl)
  all-decode (f ∷ fs) bytes read back small e =
      elim (Result-cases (encode_framed mark validate pack max_bytes f)) [
        | inr (x, q) ↦ cc (rw (q, encode_all) at e)
        | inl (first, q) ↦ elim (Result-cases (encode_all fs)) [
          | inr (x, w) ↦ cc (rw (q, w, encode_all) at e)
          | inl (rest, w) ↦
              subst (λ l. feed_all max_bytes decode empty l read ≡ (empty, ok (read ++ f ∷ fs)))
                (ok_same (rw (q, w, encode_all) at e))
                (feed_all-append max_bytes decode empty first rest read
                  ∙ rw (framed-decode f first read back small q) (
                      all-decode fs rest (read ++ f ∷ []) back small w
                      ∙ ap (λ l. (empty, ok l)) (append_assoc read (f ∷ []) fs)))
        ]
      ]

  -- When the serializer reads back what it wrote, the frames that a sender encodes are the frames
  -- that the decoder gives, all of them and in their order, however the bytes are cut into chunks on
  -- the way; and the decoder is empty again.
  pub encode-decode :
      (frames : List F) (bytes : List ℕ) (chunks : List (List ℕ))
      → ReadsBack pack
      → max_bytes < 2 ^ 32
      → encode_all frames ≡ ok bytes
      → concat chunks ≡ bytes
      → push_chunks max_bytes decode empty chunks [] ≡ some (empty, ok frames)
  encode-decode frames bytes chunks back small e cut =
      chunks-feed_all max_bytes decode empty chunks [] (omega arith)
      ∙ ap some (rw cut (all-decode frames bytes [] back small e))
