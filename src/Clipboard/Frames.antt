-- ===== src/Clipboard/Frames.antt =====
-- Clipboard operations as bulk frames (src-tauri/src/protocol_v2.rs), and the bounds of an image
-- (src-tauri/src/clipboard.rs). The digest (SHA-256 of a text's bytes) and MessagePack are parameters.
use Prim.Native.String.{len}
use mykvm.Base.{
  ℕ, ◌*◌, ◌/◌, not, ◌||◌, Option, some, none, List, String, ◌==◌, ltb, if◌then◌else◌, Result, ok,
  ok_or, fail_if, ◌>>=◌, ◌>>◌, u64_mod, checked_add,
}
use mykvm.Protocol.Types.{ProtocolError, invalid_field}
use mykvm.Protocol.Codec.{MessagePack, encode_payload, decode_datagram}
use mykvm.Protocol.Validate.{Checked, max_peer_id_bytes, validate_text}
use mykvm.ClipboardSync.{
  ClipboardImageOperation, ClipboardTextOperation, OperationOrder, text_order, image_order,
}

abbrev pub max_bulk_frame_bytes : ℕ
max_bulk_frame_bytes = 48 * 1024 * 1024

-- `u32::from_be_bytes(*b"MKB2")`.
abbrev pub bulk_magic : ℕ
bulk_magic = 0x4d4b4232

-- `MAX_CLIPBOARD_IMAGE_RGBA_BYTES`, and `CLIPBOARD_MAX_IMAGE_BYTES` of clipboard.rs.
abbrev pub max_clipboard_image_rgba_bytes : ℕ
max_clipboard_image_rgba_bytes = 32 * 1024 * 1024

abbrev pub clipboard_max_image_bytes : ℕ
clipboard_max_image_bytes = 32 * 1024 * 1024

pub data ClipboardBulkOperation : Type 0 where
  text : ClipboardTextOperation → ClipboardBulkOperation
  image : ClipboardImageOperation → ClipboardBulkOperation

abbrev pub bulk_order : ClipboardBulkOperation → OperationOrder
bulk_order (text o) = text_order o
bulk_order (image o) = image_order o

abbrev pub checked_mul : ℕ → ℕ → Option ℕ
checked_mul a b = if ltb (a * b) u64_mod then some (a * b) else none

abbrev pub option_and_then : {A B : Type 0} → Option A → (A → Option B) → Option B
option_and_then none f = none
option_and_then (some a) f = f a

abbrev within : ℕ → ℕ → Option ℕ
within limit n = if ltb limit n then none else some n

abbrev pub encoded_length : ℕ → Option ℕ
encoded_length raw_bytes =
    option_and_then (checked_add raw_bytes 2) (λ value. checked_mul (value / 3) 4)

abbrev pub raw_length : (width height : ℕ) → Option ℕ
raw_length width height =
    option_and_then (checked_mul width height) (λ pixels. checked_mul pixels 4)

module _ (text_digest : String → ℕ) where
  unfoldable pub validate_clipboard_text_operation : ClipboardTextOperation → Checked
  validate_clipboard_text_operation o = do
    validate_text o.origin_peer max_peer_id_bytes "origin_peer"
    fail_if (o.operation_id.local_sequence == 0) (invalid_field "local_sequence")
    fail_if (o.lamport == 0) (invalid_field "lamport")
    fail_if (len o.text == 0) (invalid_field "text")
    fail_if (not (o.digest == text_digest o.text)) (invalid_field "digest")

  unfoldable pub validate_clipboard_image_operation : ClipboardImageOperation → Checked
  validate_clipboard_image_operation o = do
    validate_text o.origin_peer max_peer_id_bytes "origin_peer"
    fail_if (o.operation_id.local_sequence == 0) (invalid_field "local_sequence")
    fail_if (o.lamport == 0) (invalid_field "lamport")
    fail_if (o.width == 0 || o.height == 0 || len o.rgba_base64 == 0) (invalid_field "image")
    raw_bytes ←
        ok_or
          (option_and_then (raw_length o.width o.height) (within max_clipboard_image_rgba_bytes))
          (invalid_field "image_dimensions")
    expected_encoded ← ok_or (encoded_length raw_bytes) (invalid_field "image_dimensions")
    fail_if (not (len o.rgba_base64 == expected_encoded)) (invalid_field "image_encoding_length")
    fail_if (not (o.digest == text_digest o.rgba_base64)) (invalid_field "digest")

  unfoldable pub validate_bulk : ClipboardBulkOperation → Checked
  validate_bulk (text o) = validate_clipboard_text_operation o
  validate_bulk (image o) = validate_clipboard_image_operation o

  module _ (pack : MessagePack ClipboardBulkOperation) where
    -- `into_encoded` of both kinds of operation, with `encode_clipboard_bulk`.
    abbrev pub into_encoded : ClipboardBulkOperation → Result ProtocolError (List ℕ)
    into_encoded = encode_payload bulk_magic validate_bulk pack max_bulk_frame_bytes

    abbrev pub decode_clipboard_bulk : List ℕ → Result ProtocolError ClipboardBulkOperation
    decode_clipboard_bulk = decode_datagram bulk_magic validate_bulk pack max_bulk_frame_bytes

-- clipboard.rs: `checked_rgba_len`, `expected_base64_len` and `validate_image_data`.
unfoldable pub checked_rgba_len : (width height : ℕ) → Result String ℕ
checked_rgba_len width height = do
  bytes ← ok_or (raw_length width height) "clipboard image dimensions overflow"
  fail_if (width == 0 || height == 0 || ltb clipboard_max_image_bytes bytes)
      "clipboard image dimensions exceed the RGBA budget"
  ok bytes

unfoldable pub expected_base64_len : ℕ → Result String ℕ
expected_base64_len raw_bytes =
    ok_or (encoded_length raw_bytes) "clipboard image encoding length overflow"

unfoldable pub validate_image_data : (width height : ℕ) (rgba_base64 : String) → Result String ℕ
unfolding checked_rgba_len expected_base64_len
validate_image_data width height rgba_base64 = do
  raw_bytes ← checked_rgba_len width height
  encoded_bytes ← expected_base64_len raw_bytes
  fail_if (not (len rgba_base64 == encoded_bytes))
      "clipboard image encoding length does not match its dimensions"
  ok raw_bytes
