-- ===== src/Clipboard/Delivery.antt =====
-- What one delivery does to the system's clipboard (src-tauri/src/lib.rs).
use Prim.Native.String.{len}
use mykvm.Base.{
  ℕ, ◌+◌, ◌*◌, ◌/◌, ◌<◌, ◌≤◌, Bool, true, is_ok, false, not, ◌||◌, Option, some, none, List, String,
  string_beq, string_beq_iff, ◌≡◌, ◌≢◌, refl, ◌⊎◌, inl, inr, Result, ok, err, Bool-cases, ||_false,
  arith,
}
use mykvm.Protocol.Codec.{MessagePack}
use mykvm.Protocol.Types.{ProtocolError}
use mykvm.ClipboardSync.{
  ClipboardSyncEngine, RemoteClipboardDecision, apply, ignore_duplicate, ignore_stale,
  reject_invalid,
}
use mykvm.Clipboard.Frames.{
  ClipboardBulkOperation, image, text, bulk_order, checked_rgba_len, decode_clipboard_bulk,
  expected_base64_len, validate_image_data,
}
use mykvm.Clipboard.Receive.{
  SystemClipboard, considered_here, decided, decoded_operation, handle_v2_clipboard_operation,
  image_refused, with_engine,
}

-- An image is allowed here, has pixels, is no larger than the bound, and its text has the length of
-- the base64 of its bytes.
abbrev pub Fits : Bool → ClipboardBulkOperation → Type 0
Fits image_allowed (text o) = Unit {0}
Fits image_allowed (image o) =
    (image_allowed ≡ true)
    × (0 < o.width)
    × (0 < o.height)
    × (o.width * o.height * 4 ≤ 32 * 1024 * 1024)
    × (len o.rgba_base64 ≡ (o.width * o.height * 4 + 2) / 3 * 4)

validated :
    (width height : ℕ) (rgba_base64 : String)
    → is_ok (validate_image_data width height rgba_base64) ≡ true
    → (0 < width)
      × (0 < height)
      × (width * height * 4 ≤ 32 * 1024 * 1024)
      × (len rgba_base64 ≡ (width * height * 4 + 2) / 3 * 4)
unfolding validate_image_data checked_rgba_len expected_base64_len
validated width height rgba_base64 h = ground arith

image_refused-Fits :
    (image_allowed : Bool) (op : ClipboardBulkOperation)
    → image_refused image_allowed op ≡ false
    → Fits image_allowed op
image_refused-Fits image_allowed (text o) h = tt
image_refused-Fits image_allowed (image o) h =
    let both =
      ||_false (not image_allowed)
        (not (is_ok (validate_image_data o.width o.height o.rgba_base64))) h in
    let size = validated o.width o.height o.rgba_base64 (ground (arith, both.1)) in
    (ground (arith, both.0), size.0, size.1, size.2, size.3)

module _ {O : Type 0} (system : SystemClipboard O) (text_digest : String → ℕ) (image_allowed : Bool)
    (peer_id local_peer_id : String) where
  -- An operation that may be written: it comes from the peer that sent it, which is not this
  -- machine, and the engine decides to apply it.
  abbrev pub Applied : ClipboardBulkOperation → Option ClipboardSyncEngine → Type 0
  Applied op engine =
      ((bulk_order op).origin_peer ≡ peer_id)
      × ((bulk_order op).origin_peer ≢ local_peer_id)
      × Fits image_allowed op
      × ((e : ClipboardSyncEngine) × (engine ≡ some e)
          × ((considered_here text_digest op e).1 ≡ apply))

  decided-writes :
      (op : ClipboardBulkOperation) (d : ClipboardSyncEngine × RemoteClipboardDecision) (os : O)
      → ((decided system op d os).1 ≡ os) ⊎ (d.1 ≡ apply)
  decided-writes op (e, apply) os = inr refl
  decided-writes op (e, ignore_duplicate) os = inl refl
  decided-writes op (e, ignore_stale) os = inl refl
  decided-writes op (e, reject_invalid) os = inl refl

  with_engine-writes :
      (op : ClipboardBulkOperation) (engine : Option ClipboardSyncEngine) (os : O)
      → ((with_engine system text_digest image_allowed op engine os).1 ≡ os)
        ⊎ (Fits image_allowed op
            × ((e : ClipboardSyncEngine) × (engine ≡ some e)
                × ((considered_here text_digest op e).1 ≡ apply)))
  with_engine-writes op none os = inl refl
  with_engine-writes op (some e) os = elim (Bool-cases (image_refused image_allowed op)) [
    | inl q ↦ inl (rw q refl)
    | inr q ↦ elim (decided-writes op (considered_here text_digest op e) os) [
      | inl same ↦ inl (rw q same)
      | inr applied ↦ inr (image_refused-Fits image_allowed op q, (e, refl, applied))
    ]
  ]

  origin_checked :
      (origin : String)
      → (not (string_beq origin peer_id) || string_beq origin local_peer_id) ≡ false
      → (origin ≡ peer_id) × (origin ≢ local_peer_id)
  origin_checked origin q =
      let both = ||_false (not (string_beq origin peer_id)) (string_beq origin local_peer_id) q in
      (
        (string_beq_iff origin peer_id).0 (ground (arith, both.0)),
        λ e. cc (both.1, (string_beq_iff origin local_peer_id).1 e),
      )

  decoded-writes :
      (read : Result ProtocolError ClipboardBulkOperation) (engine : Option ClipboardSyncEngine)
      (os : O)
      → ((decoded_operation system text_digest image_allowed peer_id local_peer_id read engine os).1
          ≡ os)
        ⊎ ((op : ClipboardBulkOperation) × (read ≡ ok op) × Applied op engine)
  decoded-writes (err x) engine os = inl refl
  decoded-writes (ok op) engine os =
      let origin = (bulk_order op).origin_peer in
      elim (Bool-cases (not (string_beq origin peer_id) || string_beq origin local_peer_id)) [
        | inl q ↦ inl (rw q refl)
        | inr q ↦ elim (with_engine-writes op engine os) [
          | inl same ↦ inl (rw q same)
          | inr w ↦
              let checked = origin_checked origin q in
              inr (op, refl, (checked.0, checked.1, w.0, w.1))
        ]
      ]

  -- Nothing else is written: a stream leaves the system's clipboard as it is, or its payload decodes
  -- to an operation whose origin is the peer that was authenticated on the stream and not this
  -- machine, and the engine of this machine decides to apply it. An image is written only where
  -- images are allowed, when its width and height are not zero, it has no more than 32 MiB of pixels
  -- (four bytes each), and the length of its text is that of the base64 of so many bytes.
  pub handle-writes :
      (pack : MessagePack ClipboardBulkOperation) (payload : List ℕ)
      (engine : Option ClipboardSyncEngine) (os : O)
      → ((handle_v2_clipboard_operation system text_digest image_allowed pack payload peer_id
            local_peer_id engine os).1
          ≡ os)
        ⊎ ((op : ClipboardBulkOperation) × (decode_clipboard_bulk text_digest pack payload ≡ ok op)
            × Applied op engine)
  unfolding handle_v2_clipboard_operation
  handle-writes pack payload engine os =
      decoded-writes (decode_clipboard_bulk text_digest pack payload) engine os
