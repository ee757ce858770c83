-- ===== src/Examples/Clipboard.antt =====
-- A copy that arrives and the copies that are made here after it (src-tauri/src/clipboard_sync.rs), with the number of bytes for a digest.
use Prim.Native.Nat.{Ordering}
use Prim.Native.String.{len}
use mykvm.Base.{◌≡◌, refl, Option, none, some, List, [], ◌∷◌, arith, ok}
use mykvm.Protocol.Validate.{validate_text}
use mykvm.Protocol.Codec.{decode_checked, decode_datagram}
use mykvm.ClipboardSync
use mykvm.ClipboardSync.{
  ClipboardSyncEngine, ClipboardTextOperation, OperationOrder, commit_remote_parts, consider_remote,
  manual_resend_text, new_local_operation, observe_local_text, order_compare, send, text_order,
}
use mykvm.Clipboard.Frames.{validate_bulk, validate_clipboard_text_operation}
use mykvm.Clipboard.Receive.{
  ClipboardContent, handle_v2_clipboard_operation, retry_clipboard_content_write, text_content,
}
use mykvm.Clipboard.Clock.{
  Event, changes, delivered, new_local_operation-run, run, step, text_observed, text_resent,
}
use mykvm.Examples.Delivery.{clipboard, delivery, hello, pack}

abbrev fresh : ClipboardSyncEngine
fresh = record {
  local_peer = "a-peer";
  boot_id = 1;
  last_local_revision = 10;
  local_sequence = 0;
  lamport = 0;
  text_limit = 100;
  current_order = none;
  current_digest = none;
  applied_remote_echo = none;
}

made : ClipboardSync.new "a-peer" 1 10 100 ≡ ok fresh
unfolding ClipboardSync.new
made = refl

-- A text is copied and sent again, another one arrives and is observed as an echo.
abbrev events : List (Event (Option ClipboardContent))
events =
    text_observed 11 "one"
    ∷ text_resent 11 "one"
    ∷ delivered (delivery 4 6)
    ∷ text_observed 12 "hello"
    ∷ changes (some (text_content "two"))
    ∷ []

abbrev after : ClipboardSyncEngine
after = record {
  local_peer = "a-peer";
  boot_id = 1;
  last_local_revision = 12;
  local_sequence = 2;
  lamport = 6;
  text_limit = 100;
  current_order = some (text_order (hello 2 4 8 6 5));
  current_digest = some 5;
  applied_remote_echo = none;
}

reached : (run len clipboard pack "a-peer" events (some fresh, none)).0 ≡ some after
unfolding run step handle_v2_clipboard_operation decode_datagram decode_checked validate_bulk
    validate_clipboard_text_operation validate_text consider_remote retry_clipboard_content_write
    commit_remote_parts observe_local_text manual_resend_text new_local_operation
reached = refl

new_local_operation-run_example :
    let done = new_local_operation after 13 "two" 3 in
    (sent : ClipboardTextOperation) × (done.1 ≡ send sent)
    × (order_compare (text_order sent) (text_order (hello 2 4 8 6 5)) ≡ Ordering.gt)
    × (done.0.current_order ≡ some (text_order sent))
new_local_operation-run_example =
    new_local_operation-run len clipboard pack "a-peer" 1 10 100 fresh after none events 13 3 "two"
      (text_order (hello 2 4 8 6 5)) made reached (omega arith) refl (omega arith)
