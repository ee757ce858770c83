-- ===== src/Protocol/Decoder/Stream.antt =====
-- What a stream of chunks gives in the decoders of src-tauri/src/protocol_v2.rs.
use mathlib.Core.List.{append-nil, append_assoc}
use mykvm.Base.{
  ℕ, ◌≤◌, ◌<◌, ◌≡◌, refl, sym, ap, ◌∙◌, subst, Option, none, some, List, [], ◌∷◌, ◌++◌, ◌==◌, ltb,
  length, length-append, Result, ok, err, Result-cases, Bool-cases, inl, inr, arith,
}
use mykvm.Protocol.Types.{ProtocolError}
use mykvm.Protocol.Decoder.{Decoder, set_length, finish_payload, push}
use mykvm.Protocol.Decoder.Bytes.{
  IsClean, and_then, feed, feed_all, feed_all-append, holding, sized,
}
use mykvm.Protocol.Decoder.Rounds.{loop-feed_all, Leaves, finish-Leaves, sized_ok}

abbrev pub concat : List (List ℕ) → List ℕ
concat [] = []
concat (c ∷ cs) = c ++ concat cs

module _ {F : Type 0} (max_bytes : ℕ) (decode : List ℕ → Result ProtocolError F) where
  abbrev pub Pushed : Type 0
  Pushed = Decoder × Result ProtocolError (List F)

  pub push_lem :
      (d : Decoder) (bytes : List ℕ)
      → IsClean max_bytes decode d.expected d
      → push max_bytes decode d bytes ≡ some (feed_all max_bytes decode d bytes [])
  unfolding push
  push_lem d bytes clean =
      loop-feed_all max_bytes decode (length bytes) d bytes [] clean (omega arith)

  -- The frames that were decoded before come first.
  abbrev pub before : List F → Pushed → Pushed
  before old (d, ok new) = (d, ok (old ++ new))
  before old (d, err e) = (d, err e)

  finish-before :
      (expected : ℕ) (d : Decoder) (old decoded : List F)
      → finish_payload max_bytes decode expected d (old ++ decoded)
        ≡ before old (finish_payload max_bytes decode expected d decoded)
  unfolding finish_payload
  finish-before expected d old decoded = elim (Bool-cases (length d.payload == expected)) [
    | inr part ↦ rw part
    | inl whole ↦ elim (Result-cases (decode d.payload)) [
      | inl (f, e) ↦ rw (whole, e) (rw append_assoc)
      | inr (x, e) ↦ rw (whole, e)
    ]
  ]

  sized-before :
      (s : Decoder × Result ProtocolError ℕ) (old decoded : List F)
      → sized max_bytes decode s (old ++ decoded) ≡ before old (sized max_bytes decode s decoded)
  sized-before (d, ok n) old decoded = refl
  sized-before (d, err e) old decoded = refl

  feed-before :
      (o : Option ℕ) (p q : List ℕ) (b : ℕ) (old decoded : List F)
      → feed max_bytes decode (holding p o q) b (old ++ decoded)
        ≡ before old (feed max_bytes decode (holding p o q) b decoded)
  unfolding feed
  feed-before none p q b old decoded = elim (Bool-cases (ltb (length (p ++ b ∷ [])) 4)) [
    | inl short ↦ rw short
    | inr whole ↦
        rw whole
          (sized-before (set_length max_bytes decode (holding (p ++ b ∷ []) none q)) old decoded)
  ]
  feed-before (some e) p q b old decoded = finish-before e _ old decoded

  before_then :
      (old : List F) (p : Pushed) (k : Decoder → List F → Pushed)
      → ((d : Decoder) (more : List F) → k d (old ++ more) ≡ before old (k d more))
      → and_then max_bytes decode (before old p) k ≡ before old (and_then max_bytes decode p k)
  before_then old (d, ok more) k h = h d more
  before_then old (d, err e) k h = refl

  pub feed_all-before :
      (d : Decoder) (bytes : List ℕ) (old decoded : List F)
      → feed_all max_bytes decode d bytes (old ++ decoded)
        ≡ before old (feed_all max_bytes decode d bytes decoded)
  unfolding feed_all
  feed_all-before d [] old decoded = refl
  feed_all-before d (b ∷ bs) old decoded =
      ap (λ p. and_then max_bytes decode p (λ d' more. feed_all max_bytes decode d' bs more))
        (feed-before d.expected d.prefix d.payload b old decoded)
      ∙ before_then old (feed max_bytes decode d b decoded) _
          (λ d' more. feed_all-before d' bs old more)

  -- A step that succeeds leaves a clean decoder.
  abbrev pub Kept : Pushed → Type 0
  Kept (d, ok more) = IsClean max_bytes decode d.expected d
  Kept (d, err e) = Unit {0}

  sized-Kept :
      (s : Decoder × Result ProtocolError ℕ) (p : List ℕ) (decoded : List F)
      → ((l : ℕ) → s.1 ≡ ok l → (s.0 ≡ holding p (some l) []) × (0 < l) × (l ≤ max_bytes))
      → Kept (sized max_bytes decode s decoded)
  sized-Kept (d, err x) p decoded h = tt
  sized-Kept (d, ok l) p decoded h =
      let known = h l refl in subst (λ d. Kept (d, ok decoded)) (sym known.0) (known.1, known.2)

  finish-Kept : (p : Pushed) → Leaves max_bytes decode 0 (p, []) → Kept p
  finish-Kept (d, ok more) l = l.0
  finish-Kept (d, err x) l = tt

  feed-Kept :
      (o : Option ℕ) (p q : List ℕ) (b : ℕ) (decoded : List F)
      → IsClean max_bytes decode o (holding p o q)
      → Kept (feed max_bytes decode (holding p o q) b decoded)
  unfolding feed
  feed-Kept none p q b decoded clean = elim (Bool-cases (ltb (length (p ++ b ∷ [])) 4)) [
    | inl short ↦ rw short (ground arith)
    | inr whole ↦ rw whole (
        sized-Kept (set_length max_bytes decode (holding (p ++ b ∷ []) none q)) (p ++ b ∷ [])
          decoded (sized_ok max_bytes decode (p ++ b ∷ []) q))
  ]
  feed-Kept (some e) p q b decoded clean = finish-Kept _ (
      finish-Leaves max_bytes decode 0 e p (q ++ b ∷ []) [] decoded
        (omega (arith, length-append q (b ∷ []), clean.0)) clean.1 (omega arith))

  then-Kept :
      (p : Pushed) (k : Decoder → List F → Pushed)
      → Kept p
      → ((d : Decoder) (more : List F) → IsClean max_bytes decode d.expected d → Kept (k d more))
      → Kept (and_then max_bytes decode p k)
  then-Kept (d, ok more) k kept h = h d more kept
  then-Kept (d, err e) k kept h = tt

  pub feed_all-Kept :
      (d : Decoder) (bytes : List ℕ) (decoded : List F)
      → IsClean max_bytes decode d.expected d
      → Kept (feed_all max_bytes decode d bytes decoded)
  unfolding feed_all
  feed_all-Kept d [] decoded clean = clean
  feed_all-Kept d (b ∷ bs) decoded clean =
      then-Kept (feed max_bytes decode d b decoded) _
        (feed-Kept d.expected d.prefix d.payload b decoded clean)
        (λ d' more c. feed_all-Kept d' bs more c)

  -- The calls of a connection, chunk by chunk: all their frames in one list, or the first error alone.
  pub push_chunks : Decoder → List (List ℕ) → List F → Option Pushed
  push_chunks d [] decoded = some (d, ok decoded)
  push_chunks d (c ∷ cs) decoded = elim (push max_bytes decode d c) [
    | none ↦ none
    | some p ↦ elim p.1 [
      | err e ↦ some (p.0, err e)
      | ok frames ↦ push_chunks p.0 cs (decoded ++ frames)
    ]
  ]

  chunk_then :
      (p : Pushed) (cs : List (List ℕ)) (decoded : List F)
      → Kept p
      → ((d : Decoder) (more : List F)
          → IsClean max_bytes decode d.expected d
          → push_chunks d cs more ≡ some (feed_all max_bytes decode d (concat cs) more))
      → (elim p.1 [
        | err e ↦ some (p.0, err e)
        | ok frames ↦ push_chunks p.0 cs (decoded ++ frames)
      ])
        ≡ some (
            and_then max_bytes decode
              (before decoded p)
              (λ d more. feed_all max_bytes decode d (concat cs) more))
  chunk_then (d, ok frames) cs decoded kept h = h d (decoded ++ frames) kept
  chunk_then (d, err e) cs decoded kept h = refl

  pub chunks-feed_all :
      (d : Decoder) (cs : List (List ℕ)) (decoded : List F)
      → IsClean max_bytes decode d.expected d
      → push_chunks d cs decoded ≡ some (feed_all max_bytes decode d (concat cs) decoded)
  unfolding push_chunks feed_all
  chunks-feed_all d [] decoded clean = refl
  chunks-feed_all d (c ∷ cs) decoded clean =
      rw (push_lem d c clean, push_chunks)
        (chunk_then (feed_all max_bytes decode d c []) cs decoded (feed_all-Kept d c [] clean)
            (λ d' more k. chunks-feed_all d' cs more k)
          ∙ ap
              (λ p. some (
                and_then max_bytes decode p
                  (λ d' more. feed_all max_bytes decode d' (concat cs) more)))
              (sym (feed_all-before d c decoded [])
                ∙ ap (feed_all max_bytes decode d c) (append-nil decoded))
          ∙ ap some (sym (feed_all-append max_bytes decode d c (concat cs) decoded)))

  -- Of a decoder that has refused no payload, the loop ends on every chunk; and unless it fails, the
  -- decoder waits for less than the frame that it expects, which is no longer than the bound.
  pub push_ends :
      (d : Decoder) (bytes : List ℕ)
      → IsClean max_bytes decode d.expected d
      → (p : Pushed) × (push max_bytes decode d bytes ≡ some p) × Kept p
  push_ends d bytes clean =
      (feed_all max_bytes decode d bytes [], push_lem d bytes clean, feed_all-Kept d bytes [] clean)
