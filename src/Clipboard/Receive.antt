-- ===== src/Clipboard/Receive.antt =====
-- `handle_v2_clipboard_operation_with_revision` of src-tauri/src/lib.rs, with `retry_clipboard_content_write`. The system
-- clipboard is a parameter. Handlers run one at a time: each holds the engine's lock from the decision
-- to the commit.
use Prim.Native.Nat.{max}
use mykvm.Base.{
  ℕ, zero, suc, ◌-◌, Bool, true, false, not, ◌||◌, Option, some, none, List, String, string_beq,
  if◌then◌else◌, Result, ok, err, is_ok,
}
use mykvm.Protocol.Codec.{MessagePack}
use mykvm.ClipboardSync.{
  ClipboardSyncEngine, RemoteClipboardDecision, apply, ignore_duplicate, ignore_stale,
  reject_invalid, commit_remote_parts, consider_remote, consider_remote_image,
}
use mykvm.Clipboard.Frames.{
  ClipboardBulkOperation, image, text, bulk_order, decode_clipboard_bulk, validate_image_data,
}

pub data ClipboardContent : Type 0 where
  text_content : String → ClipboardContent
  image_content : (width height : ℕ) (rgba_base64 : String) → ClipboardContent

abbrev pub clipboard_write_attempts : ℕ
clipboard_write_attempts = 5

-- `write_content` and `system_revision` of clipboard.rs, on the state of the system's clipboard.
pub record SystemClipboard (O : Type 0) : Type 0 where
  pub write_content : O → ClipboardContent → O × Result String (Unit {0})
  pub system_revision : O → ℕ

abbrev pub content : ClipboardBulkOperation → ClipboardContent
content (text o) = text_content o.text
content (image o) = image_content o.width o.height o.rgba_base64

abbrev pub bulk_digest : ClipboardBulkOperation → ℕ
bulk_digest (text o) = o.digest
bulk_digest (image o) = o.digest

abbrev pub considered_here :
    (String → ℕ)
    → ClipboardBulkOperation
    → ClipboardSyncEngine
    → ClipboardSyncEngine × RemoteClipboardDecision
considered_here text_digest (text o) e = consider_remote text_digest e o
considered_here text_digest (image o) e = consider_remote_image text_digest e o

abbrev pub image_refused : Bool → ClipboardBulkOperation → Bool
image_refused image_allowed (text o) = false
image_refused image_allowed (image o) =
    not image_allowed || not (is_ok (validate_image_data o.width o.height o.rgba_base64))

module _ {O : Type 0} (system : SystemClipboard O) where
  -- The loop after its first attempt; between attempts the thread sleeps.
  abbrev pub retried :
      ℕ → ClipboardContent → O × Result String (Unit {0}) → O × Result String (Unit {0})
  retried attempts c (os, ok u) = (os, ok u)
  retried zero c (os, err e) = (os, err e)
  retried (suc attempts) c (os, err e) = retried attempts c (system.write_content os c)

  unfoldable pub retry_clipboard_content_write :
      ClipboardContent → ℕ → O → O × Result String (Unit {0})
  retry_clipboard_content_write c attempts os =
      retried (max attempts 1 - 1) c (system.write_content os c)

  abbrev pub Handled : Type 0
  Handled = Option ClipboardSyncEngine × O × Bool

  abbrev pub committed_write :
      ClipboardBulkOperation → ClipboardSyncEngine → O × Result String (Unit {0}) → Handled
  committed_write op e (os, err x) = (some e, os, false)
  committed_write op e (os, ok u) = (
    some (commit_remote_parts e (bulk_order op) (bulk_digest op) (system.system_revision os)),
    os,
    true,
  )

  -- What follows the engine's decision.
  abbrev pub decided :
      ClipboardBulkOperation → ClipboardSyncEngine × RemoteClipboardDecision → O → Handled
  decided op (e, ignore_duplicate) os = (some e, os, true)
  decided op (e, ignore_stale) os = (some e, os, true)
  decided op (e, reject_invalid) os = (some e, os, false)
  decided op (e, apply) os =
      committed_write op e (retry_clipboard_content_write (content op) clipboard_write_attempts os)

  module _ (text_digest : String → ℕ) (image_allowed : Bool) where
    abbrev pub with_engine : ClipboardBulkOperation → Option ClipboardSyncEngine → O → Handled
    with_engine op none os = (none, os, false)
    with_engine op (some e) os =
        if image_refused image_allowed op
        then (some e, os, false)
        else decided op (considered_here text_digest op e) os

    abbrev pub decoded_operation :
        {E : Type 0} (peer_id local_peer_id : String)
        → Result E ClipboardBulkOperation
        → Option ClipboardSyncEngine
        → O
        → Handled
    decoded_operation peer_id local_peer_id (err x) engine os = (engine, os, false)
    decoded_operation peer_id local_peer_id (ok op) engine os =
        let origin_peer = (bulk_order op).origin_peer in
        if not (string_beq origin_peer peer_id) || string_beq origin_peer local_peer_id
        then (engine, os, false)
        else with_engine op engine os

    unfoldable pub handle_v2_clipboard_operation :
        MessagePack ClipboardBulkOperation
        → (payload : List ℕ) (peer_id local_peer_id : String) → Option ClipboardSyncEngine
        → O
        → Handled
    handle_v2_clipboard_operation pack payload peer_id local_peer_id engine os =
        decoded_operation peer_id local_peer_id (decode_clipboard_bulk text_digest pack payload)
          engine os
