-- ===== src/ClipboardSync/Clock.antt =====
-- The copies made here keep the clock of src-tauri/src/clipboard_sync.rs.
use Prim.Native.String.{len}
use mykvm.Base.{
  ℕ, ◌≡◌, subst, ◌||◌, String, ok, ok_same, Bool-cases, inl, inr, arith, is_blank, ltb, ◌==◌,
}
use mykvm.Protocol.Types.{BootId}
use mykvm.ClipboardSync
use mykvm.ClipboardSync.{
  ClipboardSyncEngine, ClipboardTextOperation, OperationOrder, RemoteClipboardDecision, apply,
  commit_remote_parts, considered, ignore_duplicate, ignore_stale, is_echo, manual_resend_image,
  manual_resend_text, new_local_image_operation, new_local_operation, observe_local_image,
  observe_local_text, observed, order_compare, reject_invalid, send, text_order,
}
use mykvm.ClipboardSync.Order.{Inv}

pub new-Inv :
    (local_peer : String) (boot_id : BootId) (revision limit : ℕ) (e : ClipboardSyncEngine)
    → ClipboardSync.new local_peer boot_id revision limit ≡ ok e
    → Inv e
unfolding ClipboardSync.new
new-Inv local_peer boot_id revision limit e =
    elim (Bool-cases (is_blank local_peer || ltb 256 (len local_peer))) [
      | inl bad ↦ rw bad λ h. absurd (cc)
      | inr good ↦ elim (Bool-cases (limit == 0)) [
        | inl bad ↦ rw (good, bad) λ h. absurd (cc)
        | inr more ↦ rw (good, more) λ h. subst Inv (ok_same h) tt
      ]
    ]

pub new_local_operation-Inv :
    (e : ClipboardSyncEngine) (revision : ℕ) (text : String) (digest : ℕ)
    → Inv e
    → Inv (new_local_operation e revision text digest).0
unfolding new_local_operation
new_local_operation-Inv e revision text digest v = elim (Bool-cases (ltb e.text_limit (len text))) [
  | inl long ↦ rw long v
  | inr fits ↦ rw fits (omega arith)
]

pub new_local_image_operation-Inv :
    (e : ClipboardSyncEngine) (revision width height : ℕ) (rgba_base64 : String)
    (encoded_limit digest : ℕ)
    → Inv e
    → Inv (new_local_image_operation e revision width height rgba_base64 encoded_limit digest).0
unfolding new_local_image_operation
new_local_image_operation-Inv e revision width height rgba_base64 encoded_limit digest v =
    elim (Bool-cases (ltb encoded_limit (len rgba_base64))) [
      | inl long ↦ rw long v
      | inr fits ↦ rw fits (omega arith)
    ]

module _ (text_digest : String → ℕ) where
  pub observe_local_text-Inv :
      (e : ClipboardSyncEngine) (revision : ℕ) (text : String)
      → Inv e
      → Inv (observe_local_text text_digest e revision text).0
  unfolding observe_local_text
  observe_local_text-Inv e revision text v =
      elim (Bool-cases (is_echo e.applied_remote_echo revision (text_digest text))) [
        | inl own ↦ rw own v
        | inr other ↦ elim (Bool-cases (revision == e.last_local_revision)) [
          | inl old ↦ rw (other, old) v
          | inr newer ↦
              rw (other, newer)
                (new_local_operation-Inv (observed e revision) revision text (text_digest text) v)
        ]
      ]

  pub observe_local_image-Inv :
      (e : ClipboardSyncEngine) (revision width height : ℕ) (rgba_base64 : String)
      (encoded_limit : ℕ)
      → Inv e
      → Inv (observe_local_image text_digest e revision width height rgba_base64 encoded_limit).0
  unfolding observe_local_image
  observe_local_image-Inv e revision width height rgba_base64 encoded_limit v =
      elim (Bool-cases (is_echo e.applied_remote_echo revision (text_digest rgba_base64))) [
        | inl own ↦ rw own v
        | inr other ↦ elim (Bool-cases (revision == e.last_local_revision)) [
          | inl old ↦ rw (other, old) v
          | inr newer ↦
              rw (other, newer)
                (new_local_image_operation-Inv (observed e revision) revision width height
                  rgba_base64 encoded_limit (text_digest rgba_base64) v)
        ]
      ]
