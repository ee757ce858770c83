-- ===== src/Clipboard/Clock.antt =====
-- The clock of the copies (src-tauri/src/clipboard_sync.rs) over any sequence of copies made here and copies that arrive.
use Prim.Native.Nat.{Ordering}
use Prim.Native.String.{len}
use mykvm.Base.{
  ℕ, ◌+◌, ◌^◌, ◌≤◌, ◌<◌, ◌≡◌, subst, not, ◌||◌, Bool, Option, none, some, List, [], ◌∷◌, String,
  string_beq, Result, ok, err, Bool-cases, inl, inr, arith,
}
use mykvm.Protocol.Types.{BootId, ProtocolError}
use mykvm.Protocol.Codec.{MessagePack}
use mykvm.ClipboardSync
use mykvm.ClipboardSync.{
  ClipboardSyncEngine, ClipboardTextOperation, OperationOrder, RemoteClipboardDecision, apply,
  commit_remote_parts, considered, ignore_duplicate, ignore_stale, is_echo, manual_resend_image,
  manual_resend_text, new_local_image_operation, new_local_operation, observe_local_image,
  observe_local_text, observed, order_compare, reject_invalid, send, text_order,
}
use mykvm.ClipboardSync.Order.{Behind, Inv, new_local_operation-newer}
use mykvm.ClipboardSync.Clock.{
  new-Inv, new_local_image_operation-Inv, new_local_operation-Inv, observe_local_image-Inv,
  observe_local_text-Inv,
}
use mykvm.Clipboard.Frames.{ClipboardBulkOperation, bulk_order, decode_clipboard_bulk}
use mykvm.Clipboard.Receive.{
  SystemClipboard, committed_write, content, clipboard_write_attempts, decided, decoded_operation,
  handle_v2_clipboard_operation, image_refused, retry_clipboard_content_write, with_engine,
}
use mykvm.Clipboard.Kept.{considered-cases}
use mykvm.Clipboard.Winner.{Delivery}

-- What happens to a machine's copies: the system's clipboard changes, a text or an image is observed
-- or sent again by hand, an operation is delivered.
pub data Event (O : Type 0) : Type 0 where
  changes : O → Event O
  text_observed text_resent : (revision : ℕ) (text : String) → Event O
  image_observed image_resent :
      (revision width height : ℕ) (rgba_base64 : String) (encoded_limit : ℕ) → Event O
  delivered : Delivery → Event O

abbrev Ordered : Option ClipboardSyncEngine → Type 0
Ordered none = Unit {0}
Ordered (some e) = Inv e

le-Behind : (c : Option OperationOrder) (a b : ℕ) → a ≤ b → Behind c a → Behind c b
le-Behind none a b h v = tt
le-Behind (some o) a b h v = omega arith

module _ (text_digest : String → ℕ) where
  module _ {O : Type 0} (system : SystemClipboard O) where
    committed_write-Ordered :
        (op : ClipboardBulkOperation) (e : ClipboardSyncEngine) (w : O × Result String (Unit {0}))
        → (bulk_order op).lamport ≤ e.lamport
        → Inv e
        → Ordered (committed_write system op e w).0
    unfolding commit_remote_parts
    committed_write-Ordered op e (os, err x) h v = v
    committed_write-Ordered op e (os, ok u) h v = h

    decided-Ordered :
        (op : ClipboardBulkOperation) (e : ClipboardSyncEngine) (d : RemoteClipboardDecision)
        (os : O)
        → (bulk_order op).lamport ≤ e.lamport
        → Inv e
        → Ordered (decided system op (e, d) os).0
    decided-Ordered op e apply os h v =
        committed_write-Ordered op e
          (retry_clipboard_content_write system (content op) clipboard_write_attempts os) h v
    decided-Ordered op e ignore_duplicate os h v = v
    decided-Ordered op e ignore_stale os h v = v
    decided-Ordered op e reject_invalid os h v = v

    with_engine-Ordered :
        (image_allowed : Bool) (op : ClipboardBulkOperation) (engine : Option ClipboardSyncEngine)
        (os : O)
        → Ordered engine
        → Ordered (with_engine system text_digest image_allowed op engine os).0
    with_engine-Ordered image_allowed op none os v = tt
    with_engine-Ordered image_allowed op (some e) os v =
        elim (Bool-cases (image_refused image_allowed op)) [
          | inl q ↦ rw q v
          | inr q ↦ elim (considered-cases text_digest op e) [
            | inl bad ↦ rw (q, bad) v
            | inr good ↦
                rw (q, good)
                  (let c = considered e (bulk_order op) in
                    decided-Ordered op c.0 c.1 os (ground arith)
                      (le-Behind e.current_order e.lamport c.0.lamport (ground arith) v))
          ]
        ]

    decoded-Ordered :
        (image_allowed : Bool) (peer_id local_peer_id : String)
        (read : Result ProtocolError ClipboardBulkOperation) (engine : Option ClipboardSyncEngine)
        (os : O)
        → Ordered engine
        → Ordered
            (decoded_operation system text_digest image_allowed peer_id local_peer_id read engine
              os).0
    decoded-Ordered image_allowed peer_id local_peer_id (err x) engine os v = v
    decoded-Ordered image_allowed peer_id local_peer_id (ok op) engine os v =
        elim (Bool-cases (
          not (string_beq (bulk_order op).origin_peer peer_id)
          || string_beq (bulk_order op).origin_peer local_peer_id)) [
            | inl q ↦ rw q v
            | inr q ↦ rw q (with_engine-Ordered image_allowed op engine os v)
          ]

    abbrev Machine : Type 0
    Machine = Option ClipboardSyncEngine × O

    -- What an engine does, where there is one.
    abbrev at_engine : (ClipboardSyncEngine → ClipboardSyncEngine) → Machine → Machine
    at_engine f (none, os) = (none, os)
    at_engine f (some e, os) = (some (f e), os)

    at_engine-Ordered :
        (f : ClipboardSyncEngine → ClipboardSyncEngine) (m : Machine)
        → ((e : ClipboardSyncEngine) → Inv e → Inv (f e))
        → Ordered m.0
        → Ordered (at_engine f m).0
    at_engine-Ordered f (none, os) h v = tt
    at_engine-Ordered f (some e, os) h v = h e v

    module _ (pack : MessagePack ClipboardBulkOperation) (local_peer_id : String) where
      unfoldable pub step : Event O → Machine → Machine
      step (changes os) m = (m.0, os)
      step (text_observed revision text) m =
          at_engine (λ e. (observe_local_text text_digest e revision text).0) m
      step (text_resent revision text) m =
          at_engine (λ e. (manual_resend_text text_digest e revision text).0) m
      step (image_observed revision width height rgba_base64 limit) m =
          at_engine
            (λ e. (observe_local_image text_digest e revision width height rgba_base64 limit).0) m
      step (image_resent revision width height rgba_base64 limit) m =
          at_engine
            (λ e. (manual_resend_image text_digest e revision width height rgba_base64 limit).0) m
      step (delivered d) m =
          let r =
            handle_v2_clipboard_operation system text_digest d.image_allowed pack d.payload
              d.peer_id local_peer_id m.0 m.1 in
          (r.0, r.1)

      unfoldable pub run : List (Event O) → Machine → Machine
      run [] m = m
      run (e ∷ es) m = run es (step e m)

      step-Ordered : (e : Event O) (m : Machine) → Ordered m.0 → Ordered (step e m).0
      unfolding step manual_resend_text manual_resend_image handle_v2_clipboard_operation
      step-Ordered (changes os) m v = v
      step-Ordered (text_observed revision text) m v =
          at_engine-Ordered _ m (λ e. observe_local_text-Inv text_digest e revision text) v
      step-Ordered (text_resent revision text) m v =
          at_engine-Ordered _ m
            (λ e. new_local_operation-Inv (observed e revision) revision text (text_digest text)) v
      step-Ordered (image_observed revision width height rgba_base64 limit) m v =
          at_engine-Ordered _ m
            (λ e. observe_local_image-Inv text_digest e revision width height rgba_base64 limit) v
      step-Ordered (image_resent revision width height rgba_base64 limit) m v =
          at_engine-Ordered _ m
            (λ e.
              new_local_image_operation-Inv (observed e revision) revision width height rgba_base64
                limit (text_digest rgba_base64))
            v
      step-Ordered (delivered d) m v =
          decoded-Ordered d.image_allowed d.peer_id local_peer_id
            (decode_clipboard_bulk text_digest pack d.payload) m.0 m.1 v

      run-Ordered : (es : List (Event O)) (m : Machine) → Ordered m.0 → Ordered (run es m).0
      unfolding run
      run-Ordered [] m v = v
      run-Ordered (e ∷ es) m v = run-Ordered es (step e m) (step-Ordered e m v)

      -- After any sequence of copies that were observed, sent again or delivered, from a new engine
      -- on, a copy of text made here is newer than what the engine has as the current one, wherever
      -- that came from: it is sent, comes later in the total order, and takes its place. The clock
      -- must not stand at its last value, and the text must be within the limit.
      pub new_local_operation-run :
          (boot_id : BootId) (baseline limit : ℕ) (made e : ClipboardSyncEngine) (os : O)
          (es : List (Event O)) (revision digest : ℕ) (text : String) (o : OperationOrder)
          → ClipboardSync.new local_peer_id boot_id baseline limit ≡ ok made
          → (run es (some made, os)).0 ≡ some e
          → e.lamport + 1 < 2 ^ 64
          → e.current_order ≡ some o
          → len text ≤ e.text_limit
          → let done = new_local_operation e revision text digest in
            (sent : ClipboardTextOperation) × (done.1 ≡ send sent)
            × (order_compare (text_order sent) o ≡ Ordering.gt)
            × (done.0.current_order ≡ some (text_order sent))
      new_local_operation-run boot_id baseline limit made e os es revision digest text o new reached
            early current short =
          let v = subst Ordered reached (
            run-Ordered es (some made, os)
              (new-Inv local_peer_id boot_id baseline limit made new)) in
          let (sent, known, later, taken, kept) =
            new_local_operation-newer e revision digest text o v early current short in
          (sent, known, later, taken)
