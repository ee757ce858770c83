-- ===== src/Protocol/Decoder/Chunks.antt =====
-- A connection that hands on the frames of every chunk, in the decoders of src-tauri/src/protocol_v2.rs.
use mathlib.Core.List.{append-nil, append_assoc}
use mykvm.Base.{
  ℕ, ◌≡◌, refl, sym, ap, ◌∙◌, subst, Option, none, some, List, [], ◌∷◌, ◌++◌, Result, ok, err,
  some_same,
}
use mykvm.Protocol.Types.{ProtocolError}
use mykvm.Protocol.Decoder.{Decoder, push}
use mykvm.Protocol.Decoder.Bytes.{IsClean, and_then, feed_all, feed_all-append}
use mykvm.Protocol.Decoder.Stream.{Kept, before, concat, feed_all-before, feed_all-Kept, push_lem}

module _ {F : Type 0} (max_bytes : ℕ) (decode : List ℕ → Result ProtocolError F) where
  abbrev Pushed : Type 0
  Pushed = Decoder × Result ProtocolError (List F)

  -- Where a connection stands: its decoder, the frames that were handed on, the error that ended it.
  pub record Handed : Type 0 where
    pub decoder : Decoder
    pub frames : List F
    pub error : Option ProtocolError

  -- One call of `push` for each chunk, up to the first error; the frames of a call that succeeds are
  -- handed on before the next.
  unfoldable pub push_each : Decoder → List (List ℕ) → List F → Option Handed
  push_each d [] handed = some (record { decoder = d; frames = handed; error = none })
  push_each d (c ∷ cs) handed = elim (push max_bytes decode d c) [
    | none ↦ none
    | some p ↦ elim p.1 [
      | err e ↦ some (record { decoder = p.0; frames = handed; error = some e })
      | ok frames ↦ push_each p.0 cs (handed ++ frames)
    ]
  ]

  -- The chunk that a decoder fails at, and what came before it.
  pub record Failing (d : Decoder) (cs : List (List ℕ)) (frames : List F) (p : Pushed)
      : Type 0 where
    pub earlier : List (List ℕ)
    pub chunk : List ℕ
    pub later : List (List ℕ)
    pub between : Decoder
    pub split : cs ≡ earlier ++ chunk ∷ later
    pub good : push max_bytes decode d (concat earlier) ≡ some (between, ok frames)
    pub bad : push max_bytes decode between chunk ≡ some p

  -- What the chunks have given, by what all the bytes at once give.
  abbrev pub Agrees : Decoder → List (List ℕ) → List F → Pushed → Handed → Type 0
  Agrees d cs old (last, ok frames) h =
      h ≡ record { decoder = last; frames = old ++ frames; error = none }
  Agrees d cs old (last, err e) h =
      (new : List F) × (h ≡ record { decoder = last; frames = old ++ new; error = some e })
      × Failing d cs new (last, err e)

  joined :
      (d : Decoder) (c rest : List ℕ) (next : Decoder) (frames : List F)
      → feed_all max_bytes decode d c [] ≡ (next, ok frames)
      → feed_all max_bytes decode d (c ++ rest) []
        ≡ before max_bytes decode frames (feed_all max_bytes decode next rest [])
  joined d c rest next frames e =
      feed_all-append max_bytes decode d c rest []
      ∙ ap (λ p. and_then max_bytes decode p (λ d' more. feed_all max_bytes decode d' rest more)) e
      ∙ ap (feed_all max_bytes decode next rest) (sym (append-nil frames))
      ∙ feed_all-before max_bytes decode next rest frames []

  -- The first chunk succeeds.
  further :
      (d next : Decoder) (c : List ℕ) (cs : List (List ℕ)) (old frames : List F) (p : Pushed)
      (h : Handed)
      → IsClean max_bytes decode d.expected d
      → IsClean max_bytes decode next.expected next
      → feed_all max_bytes decode d c [] ≡ (next, ok frames)
      → Agrees next cs (old ++ frames) p h
      → Agrees d (c ∷ cs) old (before max_bytes decode frames p) h
  further d next c cs old frames (last, ok more) h clean kept e a =
      a
      ∙ ap (λ l. record { decoder = last; frames = l; error = none }) (append_assoc old frames more)
  further d next c cs old frames (last, err x) h clean kept e (new, a, f) = (
    frames ++ new,
    a
        ∙ ap (λ l. record { decoder = last; frames = l; error = some x })
            (append_assoc old frames new),
    record {
      earlier = c ∷ f.earlier;
      chunk = f.chunk;
      later = f.later;
      between = f.between;
      split = ap (λ l. c ∷ l) f.split;
      good =
          push_lem max_bytes decode d (c ++ concat f.earlier) clean
          ∙ ap some (
              joined d c (concat f.earlier) next frames e
              ∙ ap (before max_bytes decode frames) (
                  some_same
                    (sym (push_lem max_bytes decode next (concat f.earlier) kept) ∙ f.good)));
      bad = f.bad;
    },
  )

  -- The first chunk, by what it gives.
  first_then :
      (d : Decoder) (c : List ℕ) (cs : List (List ℕ)) (old : List F) (p : Pushed)
      → IsClean max_bytes decode d.expected d
      → feed_all max_bytes decode d c [] ≡ p
      → Kept max_bytes decode p
      → ((next : Decoder) (more : List F)
          → IsClean max_bytes decode next.expected next
          → (h : Handed) × (push_each next cs more ≡ some h)
            × Agrees next cs more (feed_all max_bytes decode next (concat cs) []) h)
      → (h : Handed) × ((elim p.1 as (λ _. Option Handed) [
        | err e ↦ some (record { decoder = p.0; frames = old; error = some e })
        | ok frames ↦ push_each p.0 cs (old ++ frames)
      ])
          ≡ some h)
        × Agrees d (c ∷ cs) old (feed_all max_bytes decode d (c ++ concat cs) []) h
  unfolding feed_all
  first_then d c cs old (next, ok frames) clean e kept more =
      let (h, run, a) = more next (old ++ frames) kept in
      (
        h,
        run,
        subst (λ p. Agrees d (c ∷ cs) old p h) (sym (joined d c (concat cs) next frames e))
            (further d next c cs old frames _ h clean kept e a),
      )
  first_then d c cs old (next, err x) clean e kept more =
      let whole : feed_all max_bytes decode d (c ++ concat cs) [] ≡ (next, err x) =
        feed_all-append max_bytes decode d c (concat cs) []
        ∙ ap (λ p. and_then max_bytes decode p (λ d' l. feed_all max_bytes decode d' (concat cs) l))
            e in
      let h : Handed = record { decoder = next; frames = old; error = some x } in
      (
        h,
        refl,
        subst (λ p. Agrees d (c ∷ cs) old p h) (sym whole)
            (
              [],
              ap (λ l. record { decoder = next; frames = l; error = some x })
                  (sym (append-nil old)),
              record {
                earlier = [];
                chunk = c;
                later = cs;
                between = d;
                split = refl;
                good = push_lem max_bytes decode d [] clean;
                bad = push_lem max_bytes decode d c clean ∙ ap some e;
              },
            ),
      )

  each_then :
      (d : Decoder) (cs : List (List ℕ)) (old : List F)
      → IsClean max_bytes decode d.expected d
      → (h : Handed) × (push_each d cs old ≡ some h)
        × Agrees d cs old (feed_all max_bytes decode d (concat cs) []) h
  unfolding push_each feed_all
  each_then d [] old clean =
      (_, refl, ap (λ l. record { decoder = d; frames = l; error = none }) (sym (append-nil old)))
  each_then d (c ∷ cs) old clean =
      rw (push_lem max_bytes decode d c clean, push_each)
        (first_then d c cs old (feed_all max_bytes decode d c []) clean refl
          (feed_all-Kept max_bytes decode d c [] clean)
          (λ next more kept. each_then next cs more kept))

  -- However the bytes of a connection are cut into chunks, a decoder that has refused no payload ends
  -- with the state and the error, if any, that it ends with for all of them at once. When there is
  -- no error, the same frames are handed on. When there is one, what is handed on are the frames of
  -- the chunks before the one that fails: those that the decoder gives for just these chunks at once.
  pub each-push :
      (d : Decoder) (cs : List (List ℕ))
      → IsClean max_bytes decode d.expected d
      → (p : Pushed) × (h : Handed) × (push max_bytes decode d (concat cs) ≡ some p)
        × (push_each d cs [] ≡ some h)
        × Agrees d cs [] p h
  each-push d cs clean =
      let (h, run, a) = each_then d cs [] clean in
      (
        feed_all max_bytes decode d (concat cs) [],
        h,
        push_lem max_bytes decode d (concat cs) clean,
        run,
        a,
      )
