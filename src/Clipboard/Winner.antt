-- ===== src/Clipboard/Winner.antt =====
-- Which operation a receiver ends up with (src-tauri/src/lib.rs and clipboard_sync.rs), for any sequence of deliveries.
use mathlib.Core.List.{Memᴰ}
use mykvm.Base.{ℕ, Bool, Option, some, none, List, [], ◌∷◌, String, ◌≡◌}
use mykvm.Protocol.Codec.{MessagePack}
use mykvm.ClipboardSync.{ClipboardSyncEngine}
use mykvm.Clipboard.Frames.{ClipboardBulkOperation, bulk_order, decode_clipboard_bulk}
use mykvm.Clipboard.Receive.{
  ClipboardContent, SystemClipboard, content, handle_v2_clipboard_operation,
}
use mykvm.Clipboard.Wins.{Wins, engine_order}
use mykvm.Clipboard.Kept.{noted_of}

-- One stream that reached the handler.
pub record Delivery : Type 0 where
  pub payload : List ℕ
  pub peer_id : String
  pub image_allowed : Bool

-- A receiver, with the operations that its handler answered `true`.
pub record Station (O : Type 0) : Type 0 where
  pub engine : Option ClipboardSyncEngine
  pub os : O
  pub accepted : List ClipboardBulkOperation

module _ {O : Type 0} (system : SystemClipboard O) (text_digest : String → ℕ)
    (pack : MessagePack ClipboardBulkOperation) (local_peer_id : String) where
  unfoldable pub receive : Station O → Delivery → Station O
  receive s d =
      let r =
        handle_v2_clipboard_operation system text_digest d.image_allowed pack d.payload d.peer_id
          local_peer_id s.engine s.os in
      record {
        engine = r.0;
        os = r.1;
        accepted = noted_of r.2 (decode_clipboard_bulk text_digest pack d.payload) s.accepted;
      }

  unfoldable pub receive_all : Station O → List Delivery → Station O
  receive_all s [] = s
  receive_all s (d ∷ ds) = receive_all (receive s d) ds

-- A receiver that has nothing from the network on its clipboard.
pub record Fresh {O : Type 0} (s : Station (O × List ClipboardContent)) : Type 0 where
  pub accepted : s.accepted ≡ []
  pub order : engine_order s.engine ≡ none
  pub log : s.os.1 ≡ []

-- What is on the clipboard.
abbrev pub shown : List ClipboardContent → Option ClipboardContent
shown [] = none
shown (c ∷ older) = some c

-- Operations with the same number have the same content.
abbrev pub Numbered : List ClipboardBulkOperation → Type 0
Numbered ops =
    (a b : ClipboardBulkOperation)
    → Memᴰ a ops
    → Memᴰ b ops
    → bulk_order a ≡ bulk_order b
    → content a ≡ content b
