-- ===== src/ClipboardSync.antt =====
-- `ClipboardSyncEngine` of src-tauri/src/clipboard_sync.rs. The digest of a text (SHA-256) is a parameter.
pub mod Order
pub mod Clock
pub mod Total
use Prim.Native.Nat.{Ordering, compare, max}
use Prim.Native.String.{len, compare as compare_text, then as and_then}
use mykvm.Base.{
  ℕ, ◌+◌, Bool, true, false, not, ◌&&◌, ◌||◌, Option, none, some, String, string_beq, is_blank,
  ◌==◌, ltb, if◌then◌else◌, Result, ok, err, saturating_add,
}
use mykvm.Protocol.Types.{BootId}

abbrev max_peer_id_bytes : ℕ
max_peer_id_bytes = 256

pub record ClipboardOperationId : Type 0 where
  pub boot_id : BootId
  pub local_sequence : ℕ

pub record ClipboardTextOperation : Type 0 where
  pub operation_id : ClipboardOperationId
  pub origin_peer : String
  pub system_revision : ℕ
  pub lamport : ℕ
  pub digest : ℕ
  pub text : String

pub record ClipboardImageOperation : Type 0 where
  pub operation_id : ClipboardOperationId
  pub origin_peer : String
  pub system_revision : ℕ
  pub lamport : ℕ
  pub digest : ℕ
  pub width : ℕ
  pub height : ℕ
  pub rgba_base64 : String

pub record OperationOrder : Type 0 where
  pub lamport : ℕ
  pub origin_peer : String
  pub operation_id : ClipboardOperationId

-- The derived `PartialEq` and `Ord`.
abbrev pub order_beq : OperationOrder → OperationOrder → Bool
order_beq a b =
    a.lamport == b.lamport
    && string_beq a.origin_peer b.origin_peer
    && a.operation_id.boot_id == b.operation_id.boot_id
    && a.operation_id.local_sequence == b.operation_id.local_sequence

abbrev pub order_compare : OperationOrder → OperationOrder → Ordering
order_compare a b = and_then (compare a.lamport b.lamport) (
    and_then (compare_text a.origin_peer b.origin_peer) (
      and_then (compare a.operation_id.boot_id b.operation_id.boot_id)
        (compare a.operation_id.local_sequence b.operation_id.local_sequence)))

abbrev pub text_order : ClipboardTextOperation → OperationOrder
text_order o = record {
  lamport = o.lamport;
  origin_peer = o.origin_peer;
  operation_id = o.operation_id;
}

abbrev pub image_order : ClipboardImageOperation → OperationOrder
image_order o = record {
  lamport = o.lamport;
  origin_peer = o.origin_peer;
  operation_id = o.operation_id;
}

-- `LocalClipboardDecision` and `LocalImageDecision`.
pub data LocalDecision (Operation : Type 0) : Type 0 where
  send : Operation → LocalDecision Operation
  echo : LocalDecision Operation
  unchanged : LocalDecision Operation
  oversized : (bytes limit : ℕ) → LocalDecision Operation

pub data RemoteClipboardDecision : Type 0 where
  apply ignore_duplicate ignore_stale reject_invalid : RemoteClipboardDecision

pub record ClipboardSyncEngine : Type 0 where
  pub local_peer : String
  pub boot_id : BootId
  pub last_local_revision : ℕ
  pub local_sequence : ℕ
  pub lamport : ℕ
  pub text_limit : ℕ
  pub current_order : Option OperationOrder
  pub current_digest : Option ℕ
  pub applied_remote_echo : Option (ℕ × ℕ × ClipboardOperationId)

unfoldable pub new : String → BootId → ℕ → ℕ → Result String ClipboardSyncEngine
new local_peer boot_id baseline_revision text_limit =
    if is_blank local_peer || ltb max_peer_id_bytes (len local_peer)
    then err "invalid local peer id"
    else if text_limit == 0
    then err "text limit must be positive"
    else ok (record {
      local_peer = local_peer;
      boot_id = boot_id;
      last_local_revision = baseline_revision;
      local_sequence = 0;
      lamport = 0;
      text_limit = text_limit;
      current_order = none;
      current_digest = none;
      applied_remote_echo = none;
    })

abbrev pub is_echo : Option (ℕ × ℕ × ClipboardOperationId) → ℕ → ℕ → Bool
is_echo none system_revision digest = false
is_echo (some (revision, expected, operation_id)) system_revision digest =
    revision == system_revision && expected == digest

-- The two assignments before an operation is made.
abbrev pub observed : ClipboardSyncEngine → ℕ → ClipboardSyncEngine
observed e system_revision = record e {
  last_local_revision = system_revision;
  applied_remote_echo = none;
}

-- The two counters that an operation moves on.
abbrev pub counted : ClipboardSyncEngine → ClipboardSyncEngine
counted e = record e {
  local_sequence = saturating_add e.local_sequence 1;
  lamport = saturating_add e.lamport 1;
}

-- The engine after the operation whose order and digest these are.
abbrev pub taken : ClipboardSyncEngine → OperationOrder → ℕ → ClipboardSyncEngine
taken e order digest = record e { current_order = some order; current_digest = some digest }

abbrev pub new_id : ClipboardSyncEngine → ClipboardOperationId
new_id e = record { boot_id = e.boot_id; local_sequence = e.local_sequence }

abbrev Observed : Type 0 → Type 0
Observed Operation = ClipboardSyncEngine × LocalDecision Operation

unfoldable pub new_local_operation :
    ClipboardSyncEngine → ℕ → String → ℕ → Observed ClipboardTextOperation
new_local_operation e system_revision text digest =
    let c = counted e in
    let operation : ClipboardTextOperation = record {
      operation_id = new_id c;
      origin_peer = c.local_peer;
      system_revision = system_revision;
      lamport = c.lamport;
      digest = digest;
      text = text;
    } in
    if ltb e.text_limit (len text)
    then (e, oversized (len text) e.text_limit)
    else (taken c (text_order operation) digest, send operation)

unfoldable pub new_local_image_operation :
    ClipboardSyncEngine
    → ℕ
    → (width height : ℕ) → String
    → (encoded_limit : ℕ) → ℕ
    → Observed ClipboardImageOperation
new_local_image_operation e system_revision width height rgba_base64 encoded_limit digest =
    let c = counted e in
    let operation : ClipboardImageOperation = record {
      operation_id = new_id c;
      origin_peer = c.local_peer;
      system_revision = system_revision;
      lamport = c.lamport;
      digest = digest;
      width = width;
      height = height;
      rgba_base64 = rgba_base64;
    } in
    if ltb encoded_limit (len rgba_base64)
    then (e, oversized (len rgba_base64) encoded_limit)
    else (taken c (image_order operation) digest, send operation)

-- The `match` that ends `consider_remote` and `consider_remote_image`.
abbrev pub against : Option OperationOrder → OperationOrder → RemoteClipboardDecision
against none incoming = apply
against (some current) incoming =
    if order_beq incoming current
    then ignore_duplicate
    else elim (order_compare incoming current) [ Ordering.lt ↦ ignore_stale | _ ↦ apply ]

abbrev pub considered :
    ClipboardSyncEngine → OperationOrder → ClipboardSyncEngine × RemoteClipboardDecision
considered e incoming =
    (record e { lamport = max e.lamport incoming.lamport }, against e.current_order incoming)

abbrev invalid_origin : OperationOrder → Bool
invalid_origin o =
    is_blank o.origin_peer
    || ltb max_peer_id_bytes (len o.origin_peer)
    || o.operation_id.local_sequence == 0
    || o.lamport == 0

unfoldable pub commit_remote_parts :
    ClipboardSyncEngine → OperationOrder → ℕ → ℕ → ClipboardSyncEngine
commit_remote_parts e order digest applied_system_revision = record (taken e order digest) {
  applied_remote_echo = some (applied_system_revision, digest, order.operation_id);
}

module _ (text_digest : String → ℕ) where
  unfoldable pub observe_local_text :
      ClipboardSyncEngine → ℕ → String → Observed ClipboardTextOperation
  observe_local_text e system_revision text =
      let digest = text_digest text in
      if is_echo e.applied_remote_echo system_revision digest
      then (observed e system_revision, echo)
      else if system_revision == e.last_local_revision
      then (e, unchanged)
      else new_local_operation (observed e system_revision) system_revision text digest

  unfoldable pub manual_resend_text :
      ClipboardSyncEngine → ℕ → String → Observed ClipboardTextOperation
  manual_resend_text e system_revision text =
      new_local_operation (observed e system_revision) system_revision text (text_digest text)

  unfoldable pub observe_local_image :
      ClipboardSyncEngine
      → ℕ
      → (width height : ℕ) → String
      → (encoded_limit : ℕ) → Observed ClipboardImageOperation
  observe_local_image e system_revision width height rgba_base64 encoded_limit =
      let digest = text_digest rgba_base64 in
      if is_echo e.applied_remote_echo system_revision digest
      then (observed e system_revision, echo)
      else if system_revision == e.last_local_revision
      then (e, unchanged)
      else new_local_image_operation (observed e system_revision) system_revision width height
          rgba_base64 encoded_limit digest

  unfoldable pub manual_resend_image :
      ClipboardSyncEngine
      → ℕ
      → (width height : ℕ) → String
      → (encoded_limit : ℕ) → Observed ClipboardImageOperation
  manual_resend_image e system_revision width height rgba_base64 encoded_limit =
      new_local_image_operation (observed e system_revision) system_revision width height
        rgba_base64 encoded_limit (text_digest rgba_base64)

  abbrev pub invalid_text : (text_limit : ℕ) → ClipboardTextOperation → Bool
  invalid_text text_limit o =
      invalid_origin (text_order o)
      || len o.text == 0
      || ltb text_limit (len o.text)
      || not (o.digest == text_digest o.text)

  unfoldable pub consider_remote :
      ClipboardSyncEngine → ClipboardTextOperation → ClipboardSyncEngine × RemoteClipboardDecision
  consider_remote e o =
      if invalid_text e.text_limit o then (e, reject_invalid) else considered e (text_order o)

  unfoldable pub consider_remote_image :
      ClipboardSyncEngine → ClipboardImageOperation → ClipboardSyncEngine × RemoteClipboardDecision
  consider_remote_image e o =
      if invalid_origin (image_order o)
        || o.width == 0
        || o.height == 0
        || len o.rgba_base64 == 0
        || not (o.digest == text_digest o.rgba_base64)
      then (e, reject_invalid)
      else considered e (image_order o)
