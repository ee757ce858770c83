-- ===== src/Protocol/Decoder/Bytes.antt =====
-- The decoders of src-tauri/src/protocol_v2.rs against a reference that takes one byte at a time: how the bytes are
-- cut into chunks makes no difference.
use Prim.Native.Nat.{min}
use mathlib.Core.List.{append-nil, append_assoc}
use mykvm.Base.{
  ℕ, zero, suc, ◌-◌, ◌≤◌, ◌<◌, ◌≡◌, refl, sym, ◌∙◌, subst, Option, none, some, List, [], ◌∷◌, ◌++◌,
  ltb, length, take, drop, length-append, if◌then◌else◌, Result, ok, err, true, arith,
}
use mykvm.Protocol.Types.{ProtocolError}
use mykvm.Protocol.Decoder.{Decoder, set_length, finish_payload}

abbrev pub holding : List ℕ → Option ℕ → List ℕ → Decoder
holding p o q = record { prefix = p; expected = o; payload = q }

module _ {F : Type 0} (max_bytes : ℕ) (decode : List ℕ → Result ProtocolError F) where
  abbrev pub Pushed : Type 0
  Pushed = Decoder × Result ProtocolError (List F)

  -- A whole prefix: the length that it spells, or an error.
  abbrev pub sized : Decoder × Result ProtocolError ℕ → List F → Pushed
  sized (d, ok n) decoded = (d, ok decoded)
  sized (d, err e) decoded = (d, err e)

  feed_in : Option ℕ → Decoder → ℕ → List F → Pushed
  feed_in none d b decoded =
      let d' = record d { prefix = d.prefix ++ b ∷ [] } in
      if ltb (length d'.prefix) 4
      then (d', ok decoded)
      else sized (set_length max_bytes decode d') decoded
  feed_in (some expected) d b decoded =
      finish_payload max_bytes decode expected (record d { payload = d.payload ++ b ∷ [] }) decoded

  -- The reference: one byte.
  unfoldable pub feed : Decoder → ℕ → List F → Pushed
  unfolding feed_in
  feed d b decoded = feed_in d.expected d b decoded

  -- What follows a step, unless it failed.
  abbrev pub and_then : Pushed → (Decoder → List F → Pushed) → Pushed
  and_then (d, ok decoded) k = k d decoded
  and_then (d, err e) k = (d, err e)

  -- The reference: bytes one after the other, up to the first error.
  unfoldable pub feed_all : Decoder → List ℕ → List F → Pushed
  feed_all d [] decoded = (d, ok decoded)
  feed_all d (b ∷ bs) decoded = and_then (feed d b decoded) (λ d' more. feed_all d' bs more)

  and_then_assoc :
      (p : Pushed) (f g : Decoder → List F → Pushed)
      → and_then (and_then p f) g ≡ and_then p (λ d more. and_then (f d more) g)
  and_then_assoc (d, ok decoded) f g = refl
  and_then_assoc (d, err e) f g = refl

  and_then_cong :
      (p : Pushed) {f g : Decoder → List F → Pushed}
      → ((d : Decoder) (more : List F) → f d more ≡ g d more)
      → and_then p f ≡ and_then p g
  and_then_cong (d, ok decoded) h = h d decoded
  and_then_cong (d, err e) h = refl

  pub feed_all-append :
      (d : Decoder) (xs ys : List ℕ) (decoded : List F)
      → feed_all d (xs ++ ys) decoded
        ≡ and_then (feed_all d xs decoded) (λ d' more. feed_all d' ys more)
  unfolding feed_all
  feed_all-append d [] ys decoded = refl
  feed_all-append d (x ∷ xs) ys decoded =
      and_then_cong (feed d x decoded) (λ d' more. feed_all-append d' xs ys more)
      ∙ sym (and_then_assoc (feed d x decoded) (λ d' more. feed_all d' xs more) _)

  -- A decoder between two chunks, when no payload was refused.
  abbrev pub IsClean : Option ℕ → Decoder → Type 0
  IsClean none d = length d.prefix < 4
  IsClean (some expected) d = (length d.payload < expected) × (expected ≤ max_bytes)

  -- A payload that is not whole waits.
  unfilled :
      (expected : ℕ) (p q : List ℕ) (decoded : List F)
      → length q < expected
      → finish_payload max_bytes decode expected (holding p (some expected) q) decoded
        ≡ (holding p (some expected) q, ok decoded)
  unfolding finish_payload
  unfilled expected p q decoded room = ground arith

  longer : (q : List ℕ) (b : ℕ) → length (q ++ b ∷ []) ≡ suc (length q)
  longer q b = omega (arith, length-append q (b ∷ []))

  pub payload_stage :
      (n expected : ℕ) (p q bytes : List ℕ) (decoded : List F)
      → length q < expected
      → n ≡ min (expected - length q) (length bytes)
      → feed_all (holding p (some expected) q) bytes decoded
        ≡ and_then
            (finish_payload max_bytes decode expected
              (holding p (some expected) (q ++ take n bytes))
              decoded)
            (λ d more. feed_all d (drop n bytes) more)
  unfolding feed_all feed
  payload_stage zero expected p q [] decoded room e =
      rw (append-nil q, unfilled expected p q decoded room) refl
  payload_stage (suc n) expected p q [] decoded room e = absurd (omega arith)
  payload_stage zero expected p q (b ∷ bs) decoded room e = absurd (omega arith)
  payload_stage (suc zero) expected p q (b ∷ bs) decoded room e = refl
  payload_stage (suc (suc n)) expected p q (b ∷ bs) decoded room e =
      let more : length (q ++ b ∷ []) < expected = omega (arith, longer q b) in
      rw (unfilled expected p (q ++ b ∷ []) decoded more) (
        subst
          (λ l.
            feed_all (holding p (some expected) (q ++ b ∷ [])) bs decoded
            ≡ and_then
                (finish_payload max_bytes decode expected (holding p (some expected) l) decoded)
                (λ d more. feed_all d (drop (suc n) bs) more))
          (append_assoc q (b ∷ []) (take (suc n) bs))
          (payload_stage (suc n) expected p (q ++ b ∷ []) bs decoded more
            (omega (arith, longer q b))))

  abbrev pub prefix_done : Decoder → List F → Pushed
  prefix_done d decoded =
      if ltb (length d.prefix) 4
      then (d, ok decoded)
      else sized (set_length max_bytes decode d) decoded

  pub prefix_stage :
      (n : ℕ) (p q bytes : List ℕ) (decoded : List F)
      → length p < 4
      → n ≡ min (4 - length p) (length bytes)
      → feed_all (holding p none q) bytes decoded
        ≡ and_then
            (prefix_done (holding (p ++ take n bytes) none q) decoded)
            (λ d more. feed_all d (drop n bytes) more)
  unfolding feed_all feed
  prefix_stage zero p q [] decoded room e = rw (append-nil p) (ground arith)
  prefix_stage (suc n) p q [] decoded room e = absurd (omega arith)
  prefix_stage zero p q (b ∷ bs) decoded room e = absurd (omega arith)
  prefix_stage (suc zero) p q (b ∷ bs) decoded room e = refl
  prefix_stage (suc (suc n)) p q (b ∷ bs) decoded room e =
      let more : length (p ++ b ∷ []) < 4 = omega (arith, longer p b) in
      let short : ltb (length (p ++ b ∷ [])) 4 ≡ true = ground arith in
      rw short (
        subst
          (λ l.
            feed_all (holding (p ++ b ∷ []) none q) bs decoded
            ≡ and_then (prefix_done (holding l none q) decoded)
                (λ d more. feed_all d (drop (suc n) bs) more))
          (append_assoc p (b ∷ []) (take (suc n) bs))
          (prefix_stage (suc n) (p ++ b ∷ []) q bs decoded more (omega (arith, longer p b))))
