-- ===== src/Pairing/Refresh.antt =====
-- The store of trusted peers after `upsert_trusted_peer` (src-tauri/src/lib.rs).
use mathlib.Core.List.{Memᴰ}
use mykvm.Base.{
  ok_same, ℕ, Bool, true, false, not, ◌&&◌, ◌||◌, List, [], ◌∷◌, ◌++◌, String, string_beq,
  string_beq_iff, is_blank, trim, if◌then◌else◌, ok, ◌≡◌, ◌≢◌, refl, sym, ◌∙◌, ap, subst, ◌⊎◌, inl,
  inr, mem_uncons, mem_snoc, snoc_mem, Bool-cases, &&_split,
}
use mykvm.Pairing.Types.{TrustedPeerRecord}
use mykvm.Pairing.Trusted.{retained, new_record, upsert_trusted_peer}

-- No two records share an id or a certificate.
abbrev pub Apart : TrustedPeerRecord → TrustedPeerRecord → Type 0
Apart p q = (p.id ≢ q.id) × (p.transport_public_key ≢ q.transport_public_key)

abbrev pub Distinct : List TrustedPeerRecord → Type 0
Distinct [] = Unit {0}
Distinct (p ∷ ps) = ((q : TrustedPeerRecord) → Memᴰ q ps → Apart p q) × Distinct ps

module _ (id certificate : String) where
  keeps : TrustedPeerRecord → Bool
  keeps p = not (string_beq p.id id) && not (string_beq p.transport_public_key certificate)

  beq_false : (s t : String) → not (string_beq s t) ≡ true → s ≢ t
  beq_false s t h = λ e. cc (h, (string_beq_iff s t).1 e)

  -- What is retained was there, and is apart from the new id and certificate.
  retained_mem :
      (peers : List TrustedPeerRecord) (q : TrustedPeerRecord)
      → Memᴰ q (retained id certificate peers)
      → Memᴰ q peers × (q.id ≢ id) × (q.transport_public_key ≢ certificate)
  retained_mem [] q m = elim m [ ]
  retained_mem (p ∷ ps) q m =
      let rest = retained id certificate ps in
      let from_rest : Memᴰ q rest
          → Memᴰ q (p ∷ ps) × (q.id ≢ id) × (q.transport_public_key ≢ certificate) =
        λ n. let ih = retained_mem ps q n in (Memᴰ.tail ih.0, ih.1, ih.2) in
      let in_list = λ (b : Bool). Memᴰ q (if b then p ∷ rest else rest) in
      elim (Bool-cases
        (not (string_beq p.id id) && not (string_beq p.transport_public_key certificate))) [
          | inr goes ↦ from_rest (subst in_list goes m)
          | inl stays ↦ elim (mem_uncons (subst in_list stays m)) [
            | inr n ↦ from_rest n
            | inl e ↦
                let both =
                  &&_split (not (string_beq p.id id))
                    (not (string_beq p.transport_public_key certificate)) stays in
                (
                  Memᴰ.head e,
                  λ f. beq_false p.id id both.0 (sym (ap (λ r. r.id) e) ∙ f),
                  λ f.
                      beq_false p.transport_public_key certificate both.1
                        (sym (ap (λ r. r.transport_public_key) e) ∙ f),
                )
          ]
        ]

  retained-Distinct :
      (peers : List TrustedPeerRecord) → Distinct peers → Distinct (retained id certificate peers)
  retained-Distinct [] d = tt
  retained-Distinct (p ∷ ps) d =
      elim (Bool-cases
        (not (string_beq p.id id) && not (string_beq p.transport_public_key certificate))) [
          | inl stays ↦ rw stays (λ q m. d.0 q (retained_mem ps q m).0, retained-Distinct ps d.1)
          | inr goes ↦ rw goes (retained-Distinct ps d.1)
        ]

snoc-Distinct :
    (ps : List TrustedPeerRecord) (r : TrustedPeerRecord)
    → Distinct ps
    → ((q : TrustedPeerRecord) → Memᴰ q ps → Apart q r)
    → Distinct (ps ++ (r ∷ []))
snoc-Distinct [] r d apart = (λ q m. elim m [ ], tt)
snoc-Distinct (p ∷ ps) r d apart = (
  λ q m. elim (mem_snoc ps r m) [
    | inl n ↦ d.0 q n
    | inr e ↦ subst (Apart p) (sym e) (apart p (Memᴰ.head refl))
  ],
  snoc-Distinct ps r d.1 (λ q m. apart q (Memᴰ.tail m)),
)

retained-upsert :
    (peers after : List TrustedPeerRecord) (id certificate role : String) (now : ℕ)
    → upsert_trusted_peer peers id certificate role now ≡ ok after
    → retained id certificate peers ++ (new_record peers id certificate role now ∷ []) ≡ after
unfolding upsert_trusted_peer
retained-upsert peers after id certificate role now done =
    elim (Bool-cases (is_blank id || is_blank certificate)) [
      | inl blank ↦ cc (rw (blank, upsert_trusted_peer) at done)
      | inr named ↦
          elim (Bool-cases (not (string_beq role "controller" || string_beq role "receiver"))) [
            | inl unknown ↦ cc (rw (named, unknown, upsert_trusted_peer) at done)
            | inr known ↦ ok_same (rw (named, known, upsert_trusted_peer) at done)
          ]
    ]

-- A refreshed store keeps its promise. When no two records share an id or a certificate, and the id
-- and the certificate that are paired have no blanks around them, then after `upsert_trusted_peer`
-- no two do; there is a record of the id with the certificate; and every other record was there
-- before.
pub upsert_trusted_peer-Distinct :
    (peers after : List TrustedPeerRecord) (id certificate role : String) (now : ℕ)
    → Distinct peers
    → trim id ≡ id
    → trim certificate ≡ certificate
    → upsert_trusted_peer peers id certificate role now ≡ ok after
    → let r = new_record peers id certificate role now in
      Distinct after
      × Memᴰ r after
      × (r.id ≡ id)
      × (r.transport_public_key ≡ certificate)
      × ((q : TrustedPeerRecord) → Memᴰ q after → Memᴰ q peers ⊎ (q ≡ r))
upsert_trusted_peer-Distinct peers after id certificate role now distinct tidy_id tidy_key done =
    let r = new_record peers id certificate role now in
    let left = retained id certificate peers in
    let apart : (q : TrustedPeerRecord) → Memᴰ q left → Apart q r = λ q m.
      let k = retained_mem id certificate peers q m in
      (λ e. k.1 (e ∙ tidy_id), λ e. k.2 (e ∙ tidy_key)) in
    subst
      (λ (l : List TrustedPeerRecord).
        Distinct l
        × Memᴰ r l
        × (r.id ≡ id)
        × (r.transport_public_key ≡ certificate)
        × ((q : TrustedPeerRecord) → Memᴰ q l → Memᴰ q peers ⊎ (q ≡ r)))
      (retained-upsert peers after id certificate role now done)
      (
        snoc-Distinct left r (retained-Distinct id certificate peers distinct) apart,
        snoc_mem left r,
        tidy_id,
        tidy_key,
        λ q m. elim (mem_snoc left r m) [
          | inl n ↦ inl (retained_mem id certificate peers q n).0
          | inr e ↦ inr e
        ],
      )

not_same : (s t : String) → s ≢ t → string_beq s t ≡ false
not_same s t differs = elim (Bool-cases (string_beq s t)) [
  | inl e ↦ absurd (differs ((string_beq_iff s t).0 e))
  | inr e ↦ e
]

-- An id with blanks around it is not recognised again.
pub untrimmed_repeats :
    (id old new role : String) (now then_now : ℕ) (first second : List TrustedPeerRecord)
    → trim id ≢ id
    → trim old ≢ new
    → upsert_trusted_peer [] id old role now ≡ ok first
    → upsert_trusted_peer first id new role then_now ≡ ok second
    → (p : TrustedPeerRecord) × ((q : TrustedPeerRecord) × ((second ≡ p ∷ q ∷ [])
          × (p.id ≡ trim id)
          × (q.id ≡ trim id)
          × (p.role ≡ role)
          × (q.role ≡ role)))
untrimmed_repeats id old new role now then_now first second blanks rotated one two =
    let p = new_record [] id old role now in
    let first_same = retained-upsert [] first id old role now one in
    let q = new_record first id new role then_now in
    let keeps_old : retained id new (p ∷ []) ≡ p ∷ [] =
      rw (not_same (trim id) id blanks, not_same (trim old) new rotated) refl in
    (
      p,
      (
        q,
        (
          sym (retained-upsert first second id new role then_now two)
              ∙ ap (λ (l : List TrustedPeerRecord). retained id new l ++ (q ∷ [])) (sym first_same)
              ∙ ap (λ (l : List TrustedPeerRecord). l ++ (q ∷ [])) keeps_old,
          refl,
          refl,
          refl,
          refl,
        ),
      ),
    )
