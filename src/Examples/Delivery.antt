-- ===== src/Examples/Delivery.antt =====
-- Concrete deliveries of copied texts (src-tauri/src/lib.rs), with the number of bytes for a digest.
use Prim.Native.String.{len}
use mykvm.Base.{
  ℕ, ◌≡◌, ◌≢◌, refl, sym, ◌∙◌, ap, ◌⊎◌, inl, inr, true, false, ◌&&◌, Bool-cases, &&_split, Option,
  none, some, some_same, List, [], ◌∷◌, string_beq, string_beq_iff, if◌then◌else◌, ok,
}
use mykvm.Protocol.Validate.{validate_text}
use mykvm.Protocol.Codec.{Envelope, MessagePack, ReadsBack, encode_payload}
use mykvm.ClipboardSync.{
  ClipboardSyncEngine, ClipboardTextOperation, apply, consider_remote, echo, observe_local_text,
  text_order,
}
use mykvm.Clipboard.Frames.{
  ClipboardBulkOperation, bulk_magic, decode_clipboard_bulk, image, into_encoded, text,
  validate_bulk, validate_clipboard_text_operation,
}
use mykvm.Clipboard.Receive.{
  ClipboardContent, SystemClipboard, handle_v2_clipboard_operation, retry_clipboard_content_write,
  text_content,
}
use mykvm.Clipboard.Wins.{Wins}
use mykvm.Clipboard.Winner.{Delivery, Station}
use mykvm.Clipboard.Delivery.{Applied, handle-writes}
use mykvm.Clipboard.Arrival.{into_encoded-handle}

-- A serializer that knows the texts "hello" of one peer.
abbrev write : ℕ → ℕ → ClipboardBulkOperation → Option (List ℕ)
write mark major (text o) =
    if string_beq o.origin_peer "z-peer" && string_beq o.text "hello"
    then some (
        mark ∷ major ∷ o.operation_id.boot_id ∷ o.operation_id.local_sequence ∷ o.system_revision
        ∷ o.lamport ∷ o.digest ∷ [])
    else none
write mark major (image o) = none

abbrev pub hello : ℕ → ℕ → ℕ → ℕ → ℕ → ClipboardTextOperation
hello boot sequence revision lamport digest = record {
  operation_id = record { boot_id = boot; local_sequence = sequence };
  origin_peer = "z-peer";
  system_revision = revision;
  lamport = lamport;
  digest = digest;
  text = "hello";
}

abbrev read : List ℕ → Option (Envelope ClipboardBulkOperation)
read (mark ∷ major ∷ boot ∷ sequence ∷ revision ∷ lamport ∷ digest ∷ []) = some (record {
  magic = mark;
  major = major;
  frame = text (hello boot sequence revision lamport digest);
})
read _ = none

abbrev pub pack : MessagePack ClipboardBulkOperation
pack = record { to_vec_named = λ e. write e.magic e.major e.frame; from_slice = read }

hello_itself :
    (o : ClipboardTextOperation)
    → o.origin_peer ≡ "z-peer"
    → o.text ≡ "hello"
    → hello o.operation_id.boot_id o.operation_id.local_sequence o.system_revision o.lamport
        o.digest
      ≡ o
hello_itself o p q = λ i. record {
  operation_id = o.operation_id;
  origin_peer = sym p i;
  system_revision = o.system_revision;
  lamport = o.lamport;
  digest = o.digest;
  text = sym q i;
}

write-read :
    (mark major : ℕ) (op : ClipboardBulkOperation) (bytes : List ℕ)
    → write mark major op ≡ some bytes
    → read bytes ≡ some (record { magic = mark; major = major; frame = op })
write-read mark major (image o) bytes h = absurd (cc)
write-read mark major (text o) bytes h =
    elim (Bool-cases (string_beq o.origin_peer "z-peer" && string_beq o.text "hello")) [
      | inr other ↦ absurd (cc (rw other at h))
      | inl known ↦
          let both =
            &&_split (string_beq o.origin_peer "z-peer") (string_beq o.text "hello") known in
          ap read (sym (some_same (rw known at h))) ∙ (λ i. some (record {
            magic = mark;
            major = major;
            frame = text (
                hello_itself o ((string_beq_iff o.origin_peer "z-peer").0 both.0)
                  ((string_beq_iff o.text "hello").0 both.1) i);
          }))
    ]

pack-ReadsBack : ReadsBack pack
pack-ReadsBack e bytes h = write-read e.magic e.major e.frame bytes h

-- A clipboard that shows what was written last.
abbrev pub clipboard : SystemClipboard (Option ClipboardContent)
clipboard = record { write_content = λ os c. (some c, ok tt); system_revision = λ os. 12 }

abbrev engine : ClipboardSyncEngine
engine = record {
  local_peer = "a-peer";
  boot_id = 1;
  last_local_revision = 10;
  local_sequence = 0;
  lamport = 0;
  text_limit = 100;
  current_order = none;
  current_digest = none;
  applied_remote_echo = none;
}

abbrev pub payload : ℕ → ℕ → List ℕ
payload sequence lamport = bulk_magic ∷ 2 ∷ 2 ∷ sequence ∷ 8 ∷ lamport ∷ 5 ∷ []

encoded : into_encoded len pack (text (hello 2 4 8 6 5)) ≡ ok (payload 4 6)
unfolding encode_payload validate_bulk validate_clipboard_text_operation validate_text
encoded = refl

applied : (consider_remote len engine (hello 2 4 8 6 5)).1 ≡ apply
unfolding consider_remote
applied = refl

wrote :
    retry_clipboard_content_write clipboard (text_content "hello") 5 none
    ≡ (some (text_content "hello"), ok tt)
unfolding retry_clipboard_content_write
wrote = refl

another : (hello 2 4 8 6 5).origin_peer ≢ "a-peer"
another e =
    let differs : string_beq "z-peer" "a-peer" ≡ false = refl in
    cc (differs, (string_beq_iff "z-peer" "a-peer").1 e)

into_encoded-handle_example :
    (e : ClipboardSyncEngine) × (handle_v2_clipboard_operation clipboard len true pack
        (payload 4 6)
        "z-peer"
        "a-peer"
        (some engine)
        none
      ≡ (some e, some (text_content "hello"), true))
    × (e.current_order ≡ some (text_order (hello 2 4 8 6 5)))
    × ((observe_local_text len e 12 "hello").1 ≡ echo)
into_encoded-handle_example =
    into_encoded-handle clipboard len true "z-peer" "a-peer" pack (hello 2 4 8 6 5) (payload 4 6)
      engine none (some (text_content "hello")) pack-ReadsBack encoded refl another applied wrote

handle-writes_example :
    ((handle_v2_clipboard_operation clipboard len true pack
        (payload 4 6)
        "forger"
        "a-peer"
        (some engine)
        none).1
      ≡ none)
    ⊎ ((op : ClipboardBulkOperation) × (decode_clipboard_bulk len pack (payload 4 6) ≡ ok op)
        × Applied clipboard len true "forger" "a-peer" op (some engine))
handle-writes_example =
    handle-writes clipboard len true "forger" "a-peer" pack (payload 4 6) (some engine) none

abbrev station : Station (Option ClipboardContent × List ClipboardContent)
station = record { engine = some engine; os = (none, []); accepted = [] }

abbrev pub delivery : ℕ → ℕ → Delivery
delivery sequence lamport = record {
  payload = payload sequence lamport;
  peer_id = "z-peer";
  image_allowed = true;
}

-- The same two copies in both orders, one of them twice.
abbrev upwards : List Delivery
upwards = delivery 4 6 ∷ delivery 5 7 ∷ []

abbrev downwards : List Delivery
downwards = delivery 5 7 ∷ delivery 4 6 ∷ []

abbrev older : ClipboardBulkOperation
older = text (hello 2 4 8 6 5)

abbrev newer : ClipboardBulkOperation
newer = text (hello 2 5 8 7 5)
