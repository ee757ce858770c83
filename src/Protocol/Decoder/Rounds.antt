-- ===== src/Protocol/Decoder/Rounds.antt =====
-- A round of the decoders' loop in src-tauri/src/protocol_v2.rs against the bytewise reference, and the whole loop.
use Prim.Native.Nat.{min}
use mykvm.Base.{
  length-take, ℕ, zero, suc, ◌+◌, ◌-◌, ◌≤◌, ◌<◌, ◌≡◌, refl, sym, ap, ◌∙◌, subst, Option, none, some,
  List, [], ◌∷◌, ◌++◌, ◌==◌, ltb, length, take, drop, length-append, length-drop, Result, ok, err,
  Result-cases, Bool-cases, inl, inr, arith,
}
use mykvm.Protocol.Types.{ProtocolError}
use mykvm.Protocol.Decoder.{
  Decoder, set_length, finish_payload, read_payload, after_length, after_prefix, round_in,
  push_loop,
}
use mykvm.Protocol.Decoder.Bytes.{
  IsClean, Pushed, sized, and_then, feed_all, holding, prefix_done, payload_stage, prefix_stage,
}

module _ {F : Type 0} (max_bytes : ℕ) (decode : List ℕ → Result ProtocolError F) where
  -- What a list of bytes does from a state is one step and then the rest of the bytes.
  abbrev Splits : Pushed max_bytes decode → Pushed max_bytes decode × List ℕ → Type 0
  Splits whole (first, rest) =
      whole ≡ and_then max_bytes decode first (λ d more. feed_all max_bytes decode d rest more)

  payload-Splits :
      (expected : ℕ) (p q bytes : List ℕ) (decoded : List F)
      → length q < expected
      → Splits
          (feed_all max_bytes decode (holding p (some expected) q) bytes decoded)
          (read_payload max_bytes decode expected (holding p (some expected) q) bytes decoded)
  payload-Splits expected p q bytes decoded room =
      payload_stage max_bytes decode _ expected p q bytes decoded room refl

  -- A prefix that spells an allowed length.
  pub sized_ok :
      (p q : List ℕ) (l : ℕ)
      → (set_length max_bytes decode (holding p none q)).1 ≡ ok l
      → ((set_length max_bytes decode (holding p none q)).0 ≡ holding p (some l) [])
        × (0 < l)
        × (l ≤ max_bytes)
  unfolding set_length
  sized_ok p q l e = ground arith

  length-Splits :
      (s : Decoder × Result ProtocolError ℕ) (p bytes : List ℕ) (decoded : List F)
      → ((l : ℕ) → s.1 ≡ ok l → (s.0 ≡ holding p (some l) []) × (0 < l) × (l ≤ max_bytes))
      → Splits
          (and_then max_bytes decode
            (sized max_bytes decode s decoded)
            (λ d more. feed_all max_bytes decode d bytes more))
          (after_length max_bytes decode s bytes decoded)
  length-Splits (d, err x) p bytes decoded h = refl
  length-Splits (d, ok l) p bytes decoded h =
      let known = h l refl in
      subst
        (λ d.
          Splits (feed_all max_bytes decode d bytes decoded)
            (read_payload max_bytes decode l d bytes decoded))
        (sym known.0) (payload-Splits l p [] bytes decoded known.1)

  prefix-Splits :
      (p q bytes : List ℕ) (decoded : List F)
      → Splits
          (and_then max_bytes decode
            (prefix_done max_bytes decode (holding p none q) decoded)
            (λ d more. feed_all max_bytes decode d bytes more))
          (after_prefix max_bytes decode (holding p none q) bytes decoded)
  prefix-Splits p q bytes decoded = elim (Bool-cases (ltb (length p) 4)) [
    | inl short ↦ rw short
    | inr whole ↦ rw whole (
        length-Splits (set_length max_bytes decode (holding p none q)) p bytes decoded
          (sized_ok p q))
  ]

  abbrev round : Decoder → List ℕ → List F → Pushed max_bytes decode × List ℕ
  round d bytes decoded = round_in max_bytes decode d.expected d bytes decoded

  -- One round of the loop is the reference on the bytes that it takes.
  round-Splits :
      (o : Option ℕ) (p q bytes : List ℕ) (decoded : List F)
      → IsClean max_bytes decode o (holding p o q)
      → Splits
          (feed_all max_bytes decode (holding p o q) bytes decoded)
          (round (holding p o q) bytes decoded)
  unfolding round_in
  round-Splits (some expected) p q bytes decoded clean =
      payload-Splits expected p q bytes decoded clean.0
  round-Splits none p q bytes decoded clean =
      let n = min (4 - length p) (length bytes) in
      prefix_stage max_bytes decode n p q bytes decoded clean refl
      ∙ prefix-Splits (p ++ take n bytes) q (drop n bytes) decoded

  -- What is left of a chunk by a step that succeeds, and a clean decoder.
  abbrev pub Leaves : ℕ → Pushed max_bytes decode × List ℕ → Type 0
  Leaves n ((d, ok more), rest) = IsClean max_bytes decode d.expected d × (length rest ≤ n)
  Leaves n ((d, err e), rest) = Unit {0}

  pub finish-Leaves :
      (n expected : ℕ) (p q rest : List ℕ) (decoded : List F)
      → length q ≤ expected
      → expected ≤ max_bytes
      → length rest ≤ n
      → Leaves n
          (finish_payload max_bytes decode expected (holding p (some expected) q) decoded, rest)
  unfolding finish_payload
  finish-Leaves n expected p q rest decoded room allowed fits =
      elim (Bool-cases (length q == expected)) [
        | inr part ↦ rw part (ground arith)
        | inl whole ↦ elim (Result-cases (decode q)) [
          | inl (f, e) ↦ rw (whole, e) (omega arith, fits)
          | inr (x, e) ↦ rw (whole, e) tt
        ]
      ]

  length-taken :
      (k : ℕ) (q bytes : List ℕ) → length (q ++ take k bytes) ≡ length q + min k (length bytes)
  length-taken k q bytes = omega (arith, length-append q (take k bytes), length-take k bytes)

  payload-Leaves :
      (n expected : ℕ) (p q bytes : List ℕ) (decoded : List F)
      → length q < expected
      → expected ≤ max_bytes
      → length bytes ≤ suc n
      → Leaves n
          (read_payload max_bytes decode expected (holding p (some expected) q) bytes decoded)
  payload-Leaves n expected p q bytes decoded room allowed fits =
      let k = min (expected - length q) (length bytes) in
      finish-Leaves n expected p (q ++ take k bytes) (drop k bytes) decoded
        (omega (arith, length-taken k q bytes)) allowed (ground (arith, length-drop k bytes))

  length-Leaves :
      (n : ℕ) (s : Decoder × Result ProtocolError ℕ) (p bytes : List ℕ) (decoded : List F)
      → ((l : ℕ) → s.1 ≡ ok l → (s.0 ≡ holding p (some l) []) × (0 < l) × (l ≤ max_bytes))
      → length bytes ≤ n
      → Leaves n (after_length max_bytes decode s bytes decoded)
  length-Leaves n (d, err x) p bytes decoded h fits = tt
  length-Leaves n (d, ok l) p bytes decoded h fits =
      let known = h l refl in
      subst (λ d. Leaves n (read_payload max_bytes decode l d bytes decoded)) (sym known.0)
        (payload-Leaves n l p [] bytes decoded known.1 known.2 (omega arith))

  prefix-Leaves :
      (n : ℕ) (p q bytes : List ℕ) (decoded : List F)
      → length bytes ≤ n
      → Leaves n (after_prefix max_bytes decode (holding p none q) bytes decoded)
  prefix-Leaves n p q bytes decoded fits = elim (Bool-cases (ltb (length p) 4)) [
    | inl short ↦ rw short (ground arith)
    | inr whole ↦ rw whole (
        length-Leaves n (set_length max_bytes decode (holding p none q)) p bytes decoded
          (sized_ok p q) fits)
  ]

  round-Leaves :
      (n : ℕ) (o : Option ℕ) (p q bytes : List ℕ) (decoded : List F)
      → IsClean max_bytes decode o (holding p o q)
      → length bytes ≤ suc n
      → Leaves n (round (holding p o q) bytes decoded)
  unfolding round_in
  round-Leaves n (some expected) p q bytes decoded clean fits =
      payload-Leaves n expected p q bytes decoded clean.0 clean.1 fits
  round-Leaves n none p q bytes decoded clean fits =
      let k = min (4 - length p) (length bytes) in
      prefix-Leaves n (p ++ take k bytes) q (drop k bytes) decoded
        (ground (arith, length-drop k bytes))

  -- The rest of the loop, by what a round gave.
  after_round :
      (fuel : ℕ) (d : Decoder) (bytes : List ℕ) (decoded : List F)
      (r : Pushed max_bytes decode × List ℕ)
      → Splits (feed_all max_bytes decode d bytes decoded) r
      → Leaves fuel r
      → ((e : Decoder) (more : List F) (rest : List ℕ)
          → IsClean max_bytes decode e.expected e
          → length rest ≤ fuel
          → push_loop max_bytes decode fuel e rest more
            ≡ some (feed_all max_bytes decode e rest more))
      → (elim r.0.1 [
        | err x ↦ some (r.0.0, err x)
        | ok more ↦ push_loop max_bytes decode fuel r.0.0 r.1 more
      ])
        ≡ some (feed_all max_bytes decode d bytes decoded)
  after_round fuel d bytes decoded ((e, err x), rest) splits leaves again = ap some (sym splits)
  after_round fuel d bytes decoded ((e, ok more), rest) splits leaves again =
      again e more rest leaves.0 leaves.1 ∙ ap some (sym splits)

  pub loop-feed_all :
      (fuel : ℕ) (d : Decoder) (bytes : List ℕ) (decoded : List F)
      → IsClean max_bytes decode d.expected d
      → length bytes ≤ fuel
      → push_loop max_bytes decode fuel d bytes decoded
        ≡ some (feed_all max_bytes decode d bytes decoded)
  unfolding push_loop feed_all
  loop-feed_all fuel d [] decoded clean enough = refl
  loop-feed_all zero d (b ∷ bs) decoded clean enough = absurd (omega arith)
  loop-feed_all (suc fuel) d (b ∷ bs) decoded clean enough =
      after_round fuel d (b ∷ bs) decoded (round d (b ∷ bs) decoded)
        (round-Splits d.expected d.prefix d.payload (b ∷ bs) decoded clean)
        (round-Leaves fuel d.expected d.prefix d.payload (b ∷ bs) decoded clean enough)
        (λ e more rest c l. loop-feed_all fuel e rest more c l)
