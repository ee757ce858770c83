-- ===== src/Clipboard/Wins.antt =====
-- The winner among accepted clipboard operations (src-tauri/src/clipboard_sync.rs), and what the engine's answers mean for it.
use Prim.Native.Nat.{Ordering}
use mathlib.Core.List.{Memᴰ}
use mykvm.Base.{
  Bool, true, false, Option, some, none, List, [], ◌∷◌, ◌≡◌, refl, some_same, sym, subst,
  if◌then◌else◌,
}
use mykvm.ClipboardSync.{
  ClipboardSyncEngine, OperationOrder, RemoteClipboardDecision, against, apply, ignore_duplicate,
  ignore_stale, reject_invalid, order_beq, order_compare,
}
use mykvm.Clipboard.Frames.{ClipboardBulkOperation, bulk_order}
use mykvm.Clipboard.Receive.{ClipboardContent, content}
use mykvm.ClipboardSync.Total.{◌≼◌, ≼_refl, ≼_trans, not_before, order_beq_same}

abbrev pub engine_order : Option ClipboardSyncEngine → Option OperationOrder
engine_order none = none
engine_order (some e) = e.current_order

-- Among the accepted operations, that of the engine comes last in their total order, and its
-- content is what was written last; there is none before the first one that was written.
abbrev pub Wins :
    List ClipboardBulkOperation → Option OperationOrder → List ClipboardContent → Type 0
Wins accepted none log = (accepted ≡ []) × (log ≡ [])
Wins accepted (some o) log =
    ((op : ClipboardBulkOperation) × Memᴰ op accepted
      × (bulk_order op ≡ o)
      × ((older : List ClipboardContent) × (log ≡ content op ∷ older)))
    × ((a : ClipboardBulkOperation) → Memᴰ a accepted → bulk_order a ≼ o)

-- The operations that the handler reported as taken care of.
abbrev pub noted :
    Bool → ClipboardBulkOperation → List ClipboardBulkOperation → List ClipboardBulkOperation
noted true op accepted = op ∷ accepted
noted false op accepted = accepted

-- An accepted operation that does not come after the winner leaves it the winner.
pub loses :
    (accepted : List ClipboardBulkOperation) (o : OperationOrder)
    (incoming : ClipboardBulkOperation) (log : List ClipboardContent)
    → bulk_order incoming ≼ o
    → Wins accepted (some o) log
    → Wins (incoming ∷ accepted) (some o) log
loses accepted o incoming log h ((op, m, same, shown), above) =
    ((op, Memᴰ.tail m, same, shown), below)
  where
    below : (a : ClipboardBulkOperation) → Memᴰ a (incoming ∷ accepted) → bulk_order a ≼ o
    below a (Memᴰ.head e) = subst (λ (x : ClipboardBulkOperation). bulk_order x ≼ o) (sym e) h
    below a (Memᴰ.tail m) = above a m

pub none_in {ℓ} : {A : Type ℓ} {a : A} → Memᴰ a [] → ⊥
none_in m = elim m [ ]

-- One that does not come before it takes its place when it is written.
pub replaces :
    (accepted : List ClipboardBulkOperation) (cur : Option OperationOrder)
    (incoming : ClipboardBulkOperation) (log : List ClipboardContent)
    → ((o : OperationOrder) → cur ≡ some o → o ≼ bulk_order incoming)
    → Wins accepted cur log
    → Wins (incoming ∷ accepted) (some (bulk_order incoming)) (content incoming ∷ log)
replaces accepted none incoming log h w = ((incoming, Memᴰ.head refl, refl, (log, refl)), below)
  where
    below :
        (a : ClipboardBulkOperation)
        → Memᴰ a (incoming ∷ accepted)
        → bulk_order a ≼ bulk_order incoming
    below a (Memᴰ.head e) =
        subst (λ (x : ClipboardBulkOperation). bulk_order x ≼ bulk_order incoming) (sym e)
          (≼_refl (bulk_order incoming))
    below a (Memᴰ.tail m) = absurd (none_in (subst (Memᴰ a) w.0 m))
replaces accepted (some o) incoming log h w = ((incoming, Memᴰ.head refl, refl, (log, refl)), below)
  where
    below :
        (a : ClipboardBulkOperation)
        → Memᴰ a (incoming ∷ accepted)
        → bulk_order a ≼ bulk_order incoming
    below a (Memᴰ.head e) =
        subst (λ (x : ClipboardBulkOperation). bulk_order x ≼ bulk_order incoming) (sym e)
          (≼_refl (bulk_order incoming))
    below a (Memᴰ.tail m) = ≼_trans (bulk_order a) o (bulk_order incoming) (w.1 a m) (h o refl)

-- What each answer of the engine means for the order.
unfoldable pub Meant : Option OperationOrder → OperationOrder → RemoteClipboardDecision → Type 0
Meant cur incoming apply = (o : OperationOrder) → cur ≡ some o → o ≼ incoming
Meant cur incoming reject_invalid = Unit {0}
Meant cur incoming other = (o : OperationOrder) × (cur ≡ some o) × (incoming ≼ o)

answer-Meant :
    (incoming o : OperationOrder) (same : Bool) (c : Ordering)
    → (same ≡ true → incoming ≡ o)
    → order_compare incoming o ≡ c
    → Meant
        (some o)
        incoming
        (if same then ignore_duplicate else (elim c [ Ordering.lt ↦ ignore_stale | _ ↦ apply ]))
unfolding Meant
answer-Meant incoming o true c h e =
    (o, refl, subst (λ (x : OperationOrder). x ≼ o) (sym (h refl)) (≼_refl o))
answer-Meant incoming o false Ordering.lt h e = (o, refl, λ f. cc)
answer-Meant incoming o false Ordering.eq h e = λ p q.
    subst (λ (x : OperationOrder). x ≼ incoming) (some_same q) (not_before incoming o (λ f. cc))
answer-Meant incoming o false Ordering.gt h e = λ p q.
    subst (λ (x : OperationOrder). x ≼ incoming) (some_same q) (not_before incoming o (λ f. cc))

pub against-Meant :
    (cur : Option OperationOrder) (incoming : OperationOrder)
    → Meant cur incoming (against cur incoming)
unfolding Meant
against-Meant none incoming = λ o e. absurd (cc)
against-Meant (some o) incoming =
    answer-Meant incoming o (order_beq incoming o) (order_compare incoming o)
      (order_beq_same incoming o) refl
