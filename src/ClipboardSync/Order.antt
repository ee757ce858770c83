-- ===== src/ClipboardSync/Order.antt =====
-- Which copy wins, and what is never sent back, in src-tauri/src/clipboard_sync.rs.
use Prim.Native.Nat.{Ordering, compare}
use Prim.Native.String.{len, then as and_then}
use mykvm.Base.{
  ℕ, ◌+◌, ◌^◌, ◌≤◌, ◌<◌, ◌≡◌, inl, inr, refl, subst, true, false, Option, none, some, String,
  string_beq_iff, ==_refl, ltb, Bool-cases, arith, saturating_add,
}
use mykvm.ClipboardSync.{
  ClipboardTextOperation, OperationOrder, order_beq, order_compare, text_order, echo, unchanged,
  send, apply, ignore_duplicate, ClipboardSyncEngine, observe_local_text, new_local_operation,
  commit_remote_parts, consider_remote, invalid_text,
}

-- The order of what is on the clipboard is not after the engine's clock.
abbrev pub Behind : Option OperationOrder → ℕ → Type 0
Behind none clock = Unit {0}
Behind (some o) clock = o.lamport ≤ clock

abbrev pub Inv : ClipboardSyncEngine → Type 0
Inv e = Behind e.current_order e.lamport

order_beq_refl : (o : OperationOrder) → order_beq o o ≡ true
order_beq_refl o =
    rw
      (
        ==_refl o.lamport,
        (string_beq_iff o.origin_peer o.origin_peer).1 refl,
        ==_refl o.operation_id.boot_id,
        ==_refl o.operation_id.local_sequence,
      )
      refl

later_compare : (a b : ℕ) (o : Ordering) → b < a → and_then (compare a b) o ≡ Ordering.gt
later_compare a b o h = ground arith

-- Of an engine whose clock is not behind what is on the clipboard and can tick: a copy of text made
-- here, within the limit, is sent; it is newer, takes the place of what was there, and the clock is
-- not behind it.
pub new_local_operation-newer :
    (e : ClipboardSyncEngine) (revision digest : ℕ) (text : String) (o : OperationOrder)
    → Inv e
    → e.lamport + 1 < 2 ^ 64
    → e.current_order ≡ some o
    → len text ≤ e.text_limit
    → let done = new_local_operation e revision text digest in
      (sent : ClipboardTextOperation) × (done.1 ≡ send sent)
      × (order_compare (text_order sent) o ≡ Ordering.gt)
      × (done.0.current_order ≡ some (text_order sent))
      × Inv done.0
unfolding new_local_operation
new_local_operation-newer e revision digest text o inv early current short =
    let before : o.lamport ≤ e.lamport =
      subst (λ (c : Option OperationOrder). Behind c e.lamport) current inv in
    let ticks : saturating_add e.lamport 1 ≡ e.lamport + 1 = ground arith in
    let fits : ltb e.text_limit (len text) ≡ false = ground arith in
    rw fits (
      _,
      refl,
      later_compare (saturating_add e.lamport 1) o.lamport _ (omega arith),
      refl,
      omega arith,
    )

module _ (text_digest : String → ℕ) where
  -- What a remote copy has put on the clipboard is not sent back: the engine takes it for the echo,
  -- and for nothing new when the same revision is observed again.
  pub commit_remote_parts-observe :
      (e : ClipboardSyncEngine) (order : OperationOrder) (text : String) (revision : ℕ)
      → let committed = commit_remote_parts e order (text_digest text) revision in
        let first = observe_local_text text_digest committed revision text in
        (first.1 ≡ echo) × ((observe_local_text text_digest first.0 revision text).1 ≡ unchanged)
  unfolding observe_local_text commit_remote_parts
  commit_remote_parts-observe e order text revision = (
    rw (==_refl revision, ==_refl (text_digest text)) refl,
    rw (==_refl revision, ==_refl (text_digest text)) (rw (==_refl revision) refl),
  )

  -- A remote copy that the engine applies is a duplicate when it arrives again.
  pub consider_remote_again :
      (e : ClipboardSyncEngine) (o : ClipboardTextOperation) (revision : ℕ)
      → (consider_remote text_digest e o).1 ≡ apply
      → let committed =
          commit_remote_parts
            (consider_remote text_digest e o).0
            (text_order o)
            o.digest
            revision in
        (consider_remote text_digest committed o).1 ≡ ignore_duplicate
  unfolding consider_remote commit_remote_parts
  consider_remote_again e o revision applied =
      elim (Bool-cases (invalid_text text_digest e.text_limit o)) [
        | inl bad ↦ cc (rw (bad, consider_remote) at applied)
        | inr good ↦ rw good (rw (good, order_beq_refl (text_order o)) refl)
      ]
