-- ===== src/Clipboard/Kept.antt =====
-- What the handler of a clipboard operation (src-tauri/src/lib.rs) leaves on the clipboard: the winner's content.
use mykvm.Base.{
  ℕ, Bool, not, ◌||◌, Option, some, none, List, ◌∷◌, String, string_beq, ◌≡◌, refl, if_cases, zero,
  suc, sym, subst, ◌⊎◌, inl, inr, Result, ok, err, Bool-cases,
}
use mykvm.Protocol.Types.{ProtocolError}
use mykvm.ClipboardSync.{
  ClipboardSyncEngine, OperationOrder, RemoteClipboardDecision, against, apply, considered,
  ignore_duplicate, ignore_stale, reject_invalid, consider_remote, consider_remote_image,
  commit_remote_parts,
}
use mykvm.ClipboardSync.Total.{◌≼◌}
use mykvm.Clipboard.Frames.{ClipboardBulkOperation, bulk_order, image, text}
use mykvm.Clipboard.Receive.{
  ClipboardContent, SystemClipboard, committed_write, retried, considered_here, content,
  clipboard_write_attempts, decided, decoded_operation, image_refused,
  retry_clipboard_content_write, with_engine,
}
use mykvm.Clipboard.Wins.{Meant, Wins, against-Meant, engine_order, loses, noted, replaces}

-- The engine rejects the operation, or decides by its order.
pub considered-cases :
    (text_digest : String → ℕ) (op : ClipboardBulkOperation) (e : ClipboardSyncEngine)
    → (considered_here text_digest op e ≡ (e, reject_invalid))
      ⊎ (considered_here text_digest op e ≡ considered e (bulk_order op))
unfolding consider_remote consider_remote_image
considered-cases text_digest (text o) e = if_cases _ _ _
considered-cases text_digest (image o) e = if_cases _ _ _

-- The operations of the handler's answer that count as accepted.
abbrev pub noted_of :
    Bool
    → Result ProtocolError ClipboardBulkOperation
    → List ClipboardBulkOperation
    → List ClipboardBulkOperation
noted_of answer (ok op) accepted = noted answer op accepted
noted_of answer (err x) accepted = accepted

keeps :
    (op : ClipboardBulkOperation) (cur : Option OperationOrder) (log : List ClipboardContent)
    (accepted : List ClipboardBulkOperation)
    → ((o : OperationOrder) × (cur ≡ some o) × (bulk_order op ≼ o))
    → Wins accepted cur log
    → Wins (op ∷ accepted) cur log
keeps op cur log accepted (o, e, below) w =
    subst (λ (c : Option OperationOrder). Wins (op ∷ accepted) c log) (sym e)
      (loses accepted o op log below
        (subst (λ (c : Option OperationOrder). Wins accepted c log) e w))

-- The contents that were written, the newest first, after a write with this answer.
abbrev pub logged :
    {O : Type 0}
    → ClipboardContent
    → List ClipboardContent
    → O × Result String (Unit {0})
    → (O × List ClipboardContent) × Result String (Unit {0})
logged c log (os, ok u) = ((os, c ∷ log), ok u)
logged c log (os, err x) = ((os, log), err x)

-- A system's clipboard that also remembers what was written to it.
abbrev pub watched : {O : Type 0} → SystemClipboard O → SystemClipboard (O × List ClipboardContent)
watched system = record {
  write_content = λ os c. logged c os.1 (system.write_content os.0 c);
  system_revision = λ os. system.system_revision os.0;
}

module _ {O : Type 0} (system : SystemClipboard O) where
  -- A write that went through is remembered, the attempts before it are not.
  abbrev Remembered :
      ClipboardContent
      → List ClipboardContent
      → (O × List ClipboardContent) × Result String (Unit {0})
      → Type 0
  Remembered c log (os, ok u) = os.1 ≡ c ∷ log
  Remembered c log (os, err x) = os.1 ≡ log

  logged-Remembered :
      (c : ClipboardContent) (log : List ClipboardContent) (w : O × Result String (Unit {0}))
      → Remembered c log (logged c log w)
  logged-Remembered c log (os, ok u) = refl
  logged-Remembered c log (os, err x) = refl

  retried-Remembered :
      (attempts : ℕ) (c : ClipboardContent) (log : List ClipboardContent)
      (w : (O × List ClipboardContent) × Result String (Unit {0}))
      → Remembered c log w
      → Remembered c log (retried (watched system) attempts c w)
  retried-Remembered attempts c log (os, ok u) h = h
  retried-Remembered zero c log (os, err x) h = h
  retried-Remembered (suc attempts) c log (os, err x) h = retried-Remembered attempts c log _ (
      subst
        (λ (l : List ClipboardContent).
          Remembered c l (logged c os.1 (system.write_content os.0 c)))
        h (logged-Remembered c os.1 (system.write_content os.0 c)))

  retry-Remembered :
      (c : ClipboardContent) (attempts : ℕ) (os : O × List ClipboardContent)
      → Remembered c os.1 (retry_clipboard_content_write (watched system) c attempts os)
  unfolding retry_clipboard_content_write
  retry-Remembered c attempts os =
      retried-Remembered _ c os.1 _ (logged-Remembered c os.1 (system.write_content os.0 c))

  committed_write-Wins :
      (op : ClipboardBulkOperation) (e : ClipboardSyncEngine) (log : List ClipboardContent)
      (w : (O × List ClipboardContent) × Result String (Unit {0}))
      (accepted : List ClipboardBulkOperation)
      → Remembered (content op) log w
      → ((o : OperationOrder) → e.current_order ≡ some o → o ≼ bulk_order op)
      → Wins accepted e.current_order log
      → let r = committed_write (watched system) op e w in
        Wins (noted r.2 op accepted) (engine_order r.0) r.1.1
  unfolding commit_remote_parts
  committed_write-Wins op e log (os, err x) accepted q h w =
      subst (Wins accepted e.current_order) (sym q) w
  committed_write-Wins op e log (os, ok u) accepted q h w =
      subst (Wins (op ∷ accepted) (some (bulk_order op))) (sym q)
        (replaces accepted e.current_order op log h w)

  decided-Wins :
      (op : ClipboardBulkOperation) (e : ClipboardSyncEngine) (d : RemoteClipboardDecision)
      (os : O × List ClipboardContent) (accepted : List ClipboardBulkOperation)
      → Meant e.current_order (bulk_order op) d
      → Wins accepted e.current_order os.1
      → let r = decided (watched system) op (e, d) os in
        Wins (noted r.2 op accepted) (engine_order r.0) r.1.1
  unfolding Meant
  decided-Wins op e apply os accepted h w =
      committed_write-Wins op e os.1
        (retry_clipboard_content_write (watched system) (content op) clipboard_write_attempts os)
        accepted (retry-Remembered (content op) clipboard_write_attempts os) h w
  decided-Wins op e ignore_duplicate os accepted h w = keeps op e.current_order os.1 accepted h w
  decided-Wins op e ignore_stale os accepted h w = keeps op e.current_order os.1 accepted h w
  decided-Wins op e reject_invalid os accepted h w = w

  module _ (text_digest : String → ℕ) (allowed : Bool) where
    considered-Wins :
        (op : ClipboardBulkOperation) (e : ClipboardSyncEngine) (os : O × List ClipboardContent)
        (accepted : List ClipboardBulkOperation)
        → Wins accepted e.current_order os.1
        → let r = decided (watched system) op (considered_here text_digest op e) os in
          Wins (noted r.2 op accepted) (engine_order r.0) r.1.1
    considered-Wins op e os accepted w = elim (considered-cases text_digest op e) [
      | inl q ↦ rw q w
      | inr q ↦ rw q (
          decided-Wins op (considered e (bulk_order op)).0 (against e.current_order (bulk_order op))
            os accepted (against-Meant e.current_order (bulk_order op)) w)
    ]

    with_engine-Wins :
        (op : ClipboardBulkOperation) (engine : Option ClipboardSyncEngine)
        (os : O × List ClipboardContent) (accepted : List ClipboardBulkOperation)
        → Wins accepted (engine_order engine) os.1
        → let r = with_engine (watched system) text_digest allowed op engine os in
          Wins (noted r.2 op accepted) (engine_order r.0) r.1.1
    with_engine-Wins op none os accepted w = w
    with_engine-Wins op (some e) os accepted w = elim (Bool-cases (image_refused allowed op)) [
      | inl q ↦ rw q w
      | inr q ↦ rw q (considered-Wins op e os accepted w)
    ]

    pub decoded-Wins :
        (peer_id local_peer_id : String) (read : Result ProtocolError ClipboardBulkOperation)
        (engine : Option ClipboardSyncEngine) (os : O × List ClipboardContent)
        (accepted : List ClipboardBulkOperation)
        → Wins accepted (engine_order engine) os.1
        → let r =
            decoded_operation
              (watched system)
              text_digest
              allowed
              peer_id
              local_peer_id
              read
              engine
              os in
          Wins (noted_of r.2 read accepted) (engine_order r.0) r.1.1
    decoded-Wins peer_id local_peer_id (err x) engine os accepted w = w
    decoded-Wins peer_id local_peer_id (ok op) engine os accepted w =
        elim (Bool-cases (
          not (string_beq (bulk_order op).origin_peer peer_id)
          || string_beq (bulk_order op).origin_peer local_peer_id)) [
            | inl q ↦ rw q w
            | inr q ↦ rw q (with_engine-Wins op engine os accepted w)
          ]
