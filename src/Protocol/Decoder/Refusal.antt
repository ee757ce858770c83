-- ===== src/Protocol/Decoder/Refusal.antt =====
-- What a decoder of src-tauri/src/protocol_v2.rs does after a call that failed.
use mykvm.Protocol.Codec.{from_be_bytes}
use Prim.Native.Nat.{min}
use mathlib.Core.List.{append-nil}
use mykvm.Base.{
  some_same, ℕ, ◌-◌, ◌≡◌, ◌⊎◌, refl, sym, ap, ◌∙◌, subst, Option, none, some, List, [], ◌∷◌, ◌++◌,
  ◌==◌, ltb, length, Result, ok, err, Result-cases, Bool-cases, inl, inr, arith, ==_iff,
}
use mykvm.Protocol.Types.{ProtocolError}
use mykvm.Protocol.Decoder.{
  Decoder, empty, set_length, finish_payload, take_payload, round_in, push_loop, push,
}
use mykvm.Protocol.Decoder.Bytes.{IsClean, and_then, feed, feed_all, holding, sized}
use mykvm.Protocol.Decoder.Stream.{Pushed, push_lem}

module _ {F : Type 0} (max_bytes : ℕ) (decode : List ℕ → Result ProtocolError F) where
  -- A decoder that holds a whole payload which cannot be decoded.
  abbrev Stuck : Decoder → ProtocolError → Type 0
  Stuck d x = (e : ℕ) × (d.expected ≡ some e) × (length d.payload ≡ e) × (decode d.payload ≡ err x)

  abbrev Refused : Pushed max_bytes decode → Type 0
  Refused (d, ok more) = Unit {0}
  Refused (d, err x) = (d ≡ empty) ⊎ Stuck d x

  finish-Refused :
      (e : ℕ) (p q : List ℕ) (decoded : List F)
      → Refused (finish_payload max_bytes decode e (holding p (some e) q) decoded)
  unfolding finish_payload
  finish-Refused e p q decoded = elim (Bool-cases (length q == e)) [
    | inr part ↦ rw part tt
    | inl whole ↦ elim (Result-cases (decode q)) [
      | inl (f, r) ↦ rw (whole, r) tt
      | inr (x, r) ↦ rw (whole, r) (inr (e, refl, (==_iff (length q) e).0 whole, r))
    ]
  ]

  length-Refused :
      (d : Decoder) (decoded : List F)
      → Refused (sized max_bytes decode (set_length max_bytes decode d) decoded)
  unfolding set_length
  length-Refused d decoded = elim (Bool-cases (from_be_bytes d.prefix == 0)) [
    | inl nothing ↦ rw nothing (inl refl)
    | inr some_bytes ↦ elim (Bool-cases (ltb max_bytes (from_be_bytes d.prefix))) [
      | inl long ↦ rw (some_bytes, long) (inl refl)
      | inr fits ↦ rw (some_bytes, fits) tt
    ]
  ]

  feed-Refused :
      (o : Option ℕ) (p q : List ℕ) (b : ℕ) (decoded : List F)
      → Refused (feed max_bytes decode (holding p o q) b decoded)
  unfolding feed
  feed-Refused none p q b decoded = elim (Bool-cases (ltb (length (p ++ b ∷ [])) 4)) [
    | inl short ↦ rw short tt
    | inr whole ↦ rw whole (length-Refused (holding (p ++ b ∷ []) none q) decoded)
  ]
  feed-Refused (some e) p q b decoded = finish-Refused e p (q ++ b ∷ []) decoded

  then-Refused :
      (p : Pushed max_bytes decode) (k : Decoder → List F → Pushed max_bytes decode)
      → Refused p
      → ((d : Decoder) (more : List F) → Refused (k d more))
      → Refused (and_then max_bytes decode p k)
  then-Refused (d, ok more) k r h = h d more
  then-Refused (d, err e) k r h = r

  feed_all-Refused :
      (d : Decoder) (bytes : List ℕ) (decoded : List F)
      → Refused (feed_all max_bytes decode d bytes decoded)
  unfolding feed_all
  feed_all-Refused d [] decoded = tt
  feed_all-Refused d (b ∷ bs) decoded =
      then-Refused (feed max_bytes decode d b decoded) _
        (feed-Refused d.expected d.prefix d.payload b decoded)
        (λ d' more. feed_all-Refused d' bs more)

  stuck_round :
      (d : Decoder) (bytes : List ℕ) (decoded : List F) (x : ProtocolError) (o : Option ℕ) (e : ℕ)
      → o ≡ some e
      → length d.payload ≡ e
      → decode d.payload ≡ err x
      → (round_in max_bytes decode o d bytes decoded).0 ≡ (d, err x)
  unfolding round_in finish_payload
  stuck_round d bytes decoded x none e is whole bad = ground arith
  stuck_round d bytes decoded x (some f) e is whole bad =
      let full : length d.payload ≡ f = ground arith in
      let nothing : min (f - length d.payload) (length bytes) ≡ 0 = omega arith in
      let same : (take_payload f d bytes).0 ≡ d = rw (nothing, append-nil d.payload) refl in
      ap (λ d. finish_payload max_bytes decode f d decoded) same
      ∙ rw ((==_iff (length d.payload) f).1 full, bad) refl

  -- The loop after a round that failed.
  stuck_then :
      (fuel : ℕ) (d : Decoder) (x : ProtocolError) (r : Pushed max_bytes decode × List ℕ)
      → r.0 ≡ (d, err x)
      → (elim r.0.1 [
        | err y ↦ some (r.0.0, err y)
        | ok more ↦ push_loop max_bytes decode fuel r.0.0 r.1 more
      ])
        ≡ some (d, err x)
  stuck_then fuel d x ((e, err y), rest) q = ap some q
  stuck_then fuel d x ((e, ok more), rest) q = cc

  push-Stuck :
      (d : Decoder) (b : ℕ) (bs : List ℕ) (x : ProtocolError)
      → Stuck d x
      → push max_bytes decode d (b ∷ bs) ≡ some (d, err x)
  unfolding push push_loop
  push-Stuck d b bs x (e, is, whole, bad) =
      stuck_then (length bs) d x (round_in max_bytes decode d.expected d (b ∷ bs) [])
        (stuck_round d (b ∷ bs) [] x d.expected e is whole bad)

  -- After a call that failed a decoder that had refused no payload before is empty and starts
  -- afresh, or it fails with the same error at every further chunk.
  pub push_refused :
      (d d' : Decoder) (bytes : List ℕ) (x : ProtocolError)
      → IsClean max_bytes decode d.expected d
      → push max_bytes decode d bytes ≡ some (d', err x)
      → (d' ≡ empty)
        ⊎ ((b : ℕ) (bs : List ℕ) → push max_bytes decode d' (b ∷ bs) ≡ some (d', err x))
  push_refused d d' bytes x clean failed =
      let is = some_same (sym (push_lem max_bytes decode d bytes clean) ∙ failed) in
      let r : Refused (d', err x) = subst Refused is (feed_all-Refused d bytes []) in
      elim r [ inl fresh ↦ inl fresh | inr stuck ↦ inr (λ b bs. push-Stuck d' b bs x stuck) ]
