-- ===== src/ClipboardSync/Total.antt =====
-- The order of clipboard operations is total: the derived `Ord` of `OperationOrder` in src-tauri/src/clipboard_sync.rs.
use Prim.Native.Nat.{Ordering, compare}
use Prim.Native.String.{then as and_then}
use text.Mathlib.TextEquality.{path_by_compare}
use mykvm.Base.{
  ℕ, ◌≡◌, ◌≢◌, refl, sym, ◌∙◌, Bool, true, ◌&&◌, ◌==◌, ==_iff, string_beq, string_beq_iff, arith,
  Compares, Chain, opposite, numbers_compare, texts_compare, and_then-flips, and_then-Chain,
}
use mykvm.ClipboardSync.{OperationOrder, order_beq, order_compare}

order_flips : (a b : OperationOrder) → order_compare b a ≡ opposite (order_compare a b)
order_flips a b = and_then-flips _ _ _ _ (numbers_compare.flips a.lamport b.lamport) (
    and_then-flips _ _ _ _ (texts_compare.flips a.origin_peer b.origin_peer) (
      and_then-flips _ _ _ _ (numbers_compare.flips a.operation_id.boot_id b.operation_id.boot_id)
        (numbers_compare.flips a.operation_id.local_sequence b.operation_id.local_sequence)))

order_chains :
    (a b c : OperationOrder) → Chain (order_compare a b) (order_compare b c) (order_compare a c)
order_chains a b c =
    and_then-Chain _ _ _ _ _ _ (numbers_compare.chains a.lamport b.lamport c.lamport) (
      and_then-Chain _ _ _ _ _ _ (texts_compare.chains a.origin_peer b.origin_peer c.origin_peer) (
        and_then-Chain _ _ _ _ _ _
          (numbers_compare.chains a.operation_id.boot_id b.operation_id.boot_id
            c.operation_id.boot_id)
          (numbers_compare.chains a.operation_id.local_sequence b.operation_id.local_sequence
            c.operation_id.local_sequence)))

pub orders_compare : Compares order_compare
orders_compare = record { flips = order_flips; chains = order_chains }

then_eq : (o r : Ordering) → and_then o r ≡ Ordering.eq → (o ≡ Ordering.eq) × (r ≡ Ordering.eq)
then_eq Ordering.lt r h = absurd (cc)
then_eq Ordering.eq r h = (refl, h)
then_eq Ordering.gt r h = absurd (cc)

number_same : (a b : ℕ) → compare a b ≡ Ordering.eq → a ≡ b
number_same a b h = ground arith

same_fields :
    {a b : OperationOrder}
    → a.lamport ≡ b.lamport
    → a.origin_peer ≡ b.origin_peer
    → a.operation_id.boot_id ≡ b.operation_id.boot_id
    → a.operation_id.local_sequence ≡ b.operation_id.local_sequence
    → a ≡ b
same_fields lamport peer boot sequence = λ j. record {
  lamport = lamport j;
  origin_peer = peer j;
  operation_id = record { boot_id = boot j; local_sequence = sequence j };
}

pub order_same : (a b : OperationOrder) → order_compare a b ≡ Ordering.eq → a ≡ b
order_same a b h =
    let l = then_eq _ _ h in
    let p = then_eq _ _ l.1 in
    let i = then_eq _ _ p.1 in
    same_fields (number_same a.lamport b.lamport l.0)
      (path_by_compare a.origin_peer b.origin_peer p.0)
      (number_same a.operation_id.boot_id b.operation_id.boot_id i.0)
      (number_same a.operation_id.local_sequence b.operation_id.local_sequence i.1)

beq_fields :
    (lamport peer boot sequence : Bool)
    → (lamport && peer && boot && sequence) ≡ true
    → (lamport ≡ true) × (peer ≡ true) × (boot ≡ true) × (sequence ≡ true)
beq_fields lamport peer boot sequence h = ground arith

pub order_beq_same : (a b : OperationOrder) → order_beq a b ≡ true → a ≡ b
order_beq_same a b h =
    let f =
      beq_fields (a.lamport == b.lamport) (string_beq a.origin_peer b.origin_peer)
        (a.operation_id.boot_id == b.operation_id.boot_id)
        (a.operation_id.local_sequence == b.operation_id.local_sequence) h in
    same_fields ((==_iff a.lamport b.lamport).0 f.0)
      ((string_beq_iff a.origin_peer b.origin_peer).0 f.1)
      ((==_iff a.operation_id.boot_id b.operation_id.boot_id).0 f.2)
      ((==_iff a.operation_id.local_sequence b.operation_id.local_sequence).0 f.3)

-- "Not after".
infix 50 ◌≼◌
abbrev pub ◌≼◌ : OperationOrder → OperationOrder → Type 0
a ≼ b = order_compare a b ≢ Ordering.gt

not_gt-Chain :
    (o p q : Ordering) → Chain o p q → o ≢ Ordering.gt → p ≢ Ordering.gt → q ≢ Ordering.gt
not_gt-Chain Ordering.eq p q c h k = λ e. k (sym c ∙ e)
not_gt-Chain Ordering.lt Ordering.lt q c h k = λ e. cc
not_gt-Chain Ordering.lt Ordering.eq q c h k = λ e. cc
not_gt-Chain Ordering.lt Ordering.gt q c h k = absurd (k refl)
not_gt-Chain Ordering.gt p q c h k = absurd (h refl)

pub ≼_trans : (a b c : OperationOrder) → a ≼ b → b ≼ c → a ≼ c
≼_trans a b c h k =
    not_gt-Chain (order_compare a b) (order_compare b c) (order_compare a c)
      (orders_compare.chains a b c) h k

both_not_gt :
    (o p : Ordering) → p ≡ opposite o → o ≢ Ordering.gt → p ≢ Ordering.gt → o ≡ Ordering.eq
both_not_gt Ordering.lt p e h k = absurd (k e)
both_not_gt Ordering.eq p e h k = refl
both_not_gt Ordering.gt p e h k = absurd (h refl)

pub ≼_antisym : (a b : OperationOrder) → a ≼ b → b ≼ a → a ≡ b
≼_antisym a b h k =
    order_same a b
      (both_not_gt (order_compare a b) (order_compare b a) (orders_compare.flips a b) h k)

not_lt_flips : (o p : Ordering) → p ≡ opposite o → o ≢ Ordering.lt → p ≢ Ordering.gt
not_lt_flips Ordering.lt p e h = absurd (h refl)
not_lt_flips Ordering.eq p e h = λ f. cc
not_lt_flips Ordering.gt p e h = λ f. cc

-- What is not before has the other not after it.
pub not_before : (a b : OperationOrder) → order_compare a b ≢ Ordering.lt → b ≼ a
not_before a b h = not_lt_flips (order_compare a b) (order_compare b a) (orders_compare.flips a b) h

not_gt_self : (o : Ordering) → o ≡ opposite o → o ≢ Ordering.gt
not_gt_self Ordering.lt e = λ f. cc
not_gt_self Ordering.eq e = λ f. cc
not_gt_self Ordering.gt e = λ f. cc

pub ≼_refl : (a : OperationOrder) → a ≼ a
≼_refl a = not_gt_self (order_compare a a) (orders_compare.flips a a)
