-- ===== src/Clipboard/Arrival.antt =====
-- The way of a copied text from one machine to another (src-tauri/src/lib.rs, src-tauri/src/protocol_v2.rs).
use mykvm.Base.{
  ℕ, Bool, true, false, not, some, List, String, string_beq, string_beq_iff, ◌≡◌, ◌≢◌, refl, sym,
  ap, subst, inl, inr, ok, Bool-cases, ||_false, ◌==◌, ==_iff, arith,
}
use mykvm.Protocol.Codec.{MessagePack, ReadsBack}
use mykvm.Protocol.Types.{ProtocolError}
use mykvm.Protocol.Decoder.RoundTrip.{datagram-encode}
use mykvm.ClipboardSync.{
  ClipboardSyncEngine, ClipboardTextOperation, OperationOrder, invalid_text,
  RemoteClipboardDecision, apply, echo, commit_remote_parts, consider_remote, observe_local_text,
  text_order,
}
use mykvm.ClipboardSync.Order.{commit_remote_parts-observe}
use mykvm.Clipboard.Frames.{
  ClipboardBulkOperation, bulk_magic, bulk_order, decode_clipboard_bulk, into_encoded,
  max_bulk_frame_bytes, text, validate_bulk,
}
use mykvm.Clipboard.Receive.{
  SystemClipboard, bulk_digest, committed_write, content, clipboard_write_attempts, decided,
  decoded_operation, handle_v2_clipboard_operation, retry_clipboard_content_write, text_content,
}

-- An operation that is applied has the digest of its text.
applied_digest :
    (text_digest : String → ℕ) (o : ClipboardTextOperation) (r : ClipboardSyncEngine)
    → (consider_remote text_digest r o).1 ≡ apply
    → o.digest ≡ text_digest o.text
unfolding consider_remote
applied_digest text_digest o r applied =
    elim (Bool-cases (invalid_text text_digest r.text_limit o)) [
      | inl bad ↦ cc (rw (bad, consider_remote) at applied)
      | inr good ↦
          let last = (||_false _ (not (o.digest == text_digest o.text)) good).1 in
          (==_iff o.digest (text_digest o.text)).0 (ground (arith, last))
    ]

committed_order :
    (e : ClipboardSyncEngine) (order : OperationOrder) (digest revision : ℕ)
    → (commit_remote_parts e order digest revision).current_order ≡ some order
unfolding commit_remote_parts
committed_order e order digest revision = refl

module _ {O : Type 0} (system : SystemClipboard O) (text_digest : String → ℕ) (image_allowed : Bool)
    (peer_id local_peer_id : String) where
  decided-apply :
      (op : ClipboardBulkOperation) (d : ClipboardSyncEngine × RemoteClipboardDecision)
      (os done : O)
      → d.1 ≡ apply
      → retry_clipboard_content_write system (content op) clipboard_write_attempts os
        ≡ (done, ok tt)
      → decided system op d os ≡ (
        some (
            commit_remote_parts d.0 (bulk_order op) (bulk_digest op) (system.system_revision done)),
        done,
        true,
      )
  decided-apply op (e, d) os done q wrote =
      subst
        (λ (x : RemoteClipboardDecision). decided system op (e, x) os ≡ (
          some (
              commit_remote_parts e (bulk_order op) (bulk_digest op) (system.system_revision done)),
          done,
          true,
        ))
        (sym q) (ap (committed_write system op e) wrote)

  text_applied :
      (o : ClipboardTextOperation) (r : ClipboardSyncEngine) (os done : O)
      → o.origin_peer ≡ peer_id
      → o.origin_peer ≢ local_peer_id
      → (consider_remote text_digest r o).1 ≡ apply
      → retry_clipboard_content_write system (text_content o.text) clipboard_write_attempts os
        ≡ (done, ok tt)
      → decoded_operation system text_digest image_allowed {E = ProtocolError} peer_id local_peer_id
          (ok (text o))
          (some r)
          os
        ≡ (
          some (
              commit_remote_parts
                (consider_remote text_digest r o).0
                (text_order o)
                o.digest
                (system.system_revision done)),
          done,
          true,
        )
  text_applied o r os done own other applied wrote =
      let same : string_beq o.origin_peer peer_id ≡ true =
        (string_beq_iff o.origin_peer peer_id).1 own in
      let distinct : string_beq o.origin_peer local_peer_id ≡ false =
        elim (Bool-cases (string_beq o.origin_peer local_peer_id)) [
          | inl e ↦ absurd (other ((string_beq_iff o.origin_peer local_peer_id).0 e))
          | inr e ↦ e
        ] in
      rw (same, distinct)
        (decided-apply (text o) (consider_remote text_digest r o) os done applied wrote)

  -- A copied text arrives. When the text operation encodes to a payload, the serializer reads back
  -- what it wrote, the operation comes from the peer on the stream and not from this machine, the
  -- engine here decides to apply it, and one of the five attempts to write succeeds: the handler
  -- answers `true`, has written the text, holds the operation's order, and when the clipboard is
  -- observed afterwards takes the text for an echo, so it is not sent back.
  pub into_encoded-handle :
      (pack : MessagePack ClipboardBulkOperation) (o : ClipboardTextOperation) (payload : List ℕ)
      (r : ClipboardSyncEngine) (os done : O)
      → ReadsBack pack
      → into_encoded text_digest pack (text o) ≡ ok payload
      → o.origin_peer ≡ peer_id
      → o.origin_peer ≢ local_peer_id
      → (consider_remote text_digest r o).1 ≡ apply
      → retry_clipboard_content_write system (text_content o.text) clipboard_write_attempts os
        ≡ (done, ok tt)
      → (e : ClipboardSyncEngine) × (handle_v2_clipboard_operation system text_digest image_allowed
            pack payload peer_id local_peer_id
            (some r)
            os
          ≡ (some e, done, true))
        × (e.current_order ≡ some (text_order o))
        × ((observe_local_text text_digest e (system.system_revision done) o.text).1 ≡ echo)
  unfolding handle_v2_clipboard_operation
  into_encoded-handle pack o payload r os done back sent own other applied wrote =
      let read : decode_clipboard_bulk text_digest pack payload ≡ ok (text o) =
        datagram-encode bulk_magic max_bulk_frame_bytes (validate_bulk text_digest) pack (text o)
          payload back sent in
      let digest = applied_digest text_digest o r applied in
      let engine : ClipboardSyncEngine =
        commit_remote_parts (consider_remote text_digest r o).0 (text_order o) o.digest
          (system.system_revision done) in
      (
        engine,
        rw read (text_applied o r os done own other applied wrote),
        committed_order (consider_remote text_digest r o).0 (text_order o) o.digest
            (system.system_revision done),
        subst
            (λ (d : ℕ).
              (observe_local_text text_digest
                (commit_remote_parts (consider_remote text_digest r o).0 (text_order o) d
                  (system.system_revision done))
                (system.system_revision done) o.text).1
              ≡ echo)
            (sym digest)
            (commit_remote_parts-observe text_digest (consider_remote text_digest r o).0
              (text_order o) o.text (system.system_revision done)).0,
      )
