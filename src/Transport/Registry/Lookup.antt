-- ===== src/Transport/Registry/Lookup.antt =====
-- Finding a peer of a registry by its certificate (src-tauri/src/quic_transport.rs).
use mathlib.Core.List.{Memᴰ}
use mykvm.Base.{
  ℕ, false, some, List, [], ◌∷◌, ◌++◌, string_beq, any, codes_beq, codes_beq_refl, codes_beq_same,
  mem_snoc, ◌≡◌, refl, sym, ◌∙◌, ap, subst, inl, inr, Bool-cases, ||_false, some_same,
}
use mykvm.Transport.Registry.{DecodedTrustedPeer, Registry, known_as, clashes}

-- No two peers of a registry have the same certificate.
abbrev pub Distinct : Registry → Type 0
Distinct [] = Unit {0}
Distinct (p ∷ ps) =
    ((q : DecodedTrustedPeer) → Memᴰ q ps → codes_beq p.certificate q.certificate ≡ false)
    × Distinct ps

pub snoc-Distinct :
    (ps : Registry) (r : DecodedTrustedPeer)
    → Distinct ps
    → any (clashes r) ps ≡ false
    → Distinct (ps ++ (r ∷ []))
snoc-Distinct [] r d apart = (λ q m. elim m [ ], tt)
snoc-Distinct (p ∷ ps) r d apart =
    let both = ||_false (clashes r p) (any (clashes r) ps) apart in
    let own = (||_false (string_beq p.peer_id r.peer_id) _ both.0).1 in
    (
      λ q m. elim (mem_snoc ps r m) [
        | inl n ↦ d.0 q n
        | inr e ↦
            subst (λ (x : DecodedTrustedPeer). codes_beq p.certificate x.certificate ≡ false)
              (sym e) own
      ],
      snoc-Distinct ps r d.1 both.1,
    )

-- The peer with a certificate is found by it.
pub found :
    (ps : Registry) (d : DecodedTrustedPeer)
    → Distinct ps
    → Memᴰ d ps
    → known_as d.certificate ps ≡ some d
unfolding known_as
found [] d distinct m = elim m [ ]
found (p ∷ ps) d distinct (Memᴰ.head e) =
    subst (λ (x : DecodedTrustedPeer). known_as x.certificate (p ∷ ps) ≡ some x) (sym e)
      (rw (codes_beq_refl p.certificate) refl)
found (p ∷ ps) d distinct (Memᴰ.tail m) = rw (distinct.0 d m) (found ps d distinct.1 m)

-- And what is found is there and has that certificate.
pub found_there :
    (ps : Registry) (bytes : List ℕ) (d : DecodedTrustedPeer)
    → known_as bytes ps ≡ some d
    → Memᴰ d ps × (d.certificate ≡ bytes)
unfolding known_as
found_there [] bytes d e = absurd (cc)
found_there (p ∷ ps) bytes d e = elim (Bool-cases (codes_beq p.certificate bytes)) [
  | inl same ↦
      let it : p ≡ d = some_same (rw (same, known_as) at e) in
      (
        Memᴰ.head (sym it),
        sym (ap (λ r. r.certificate) it) ∙ codes_beq_same p.certificate bytes same,
      )
  | inr differs ↦
      let rest = found_there ps bytes d (rw (differs, known_as) at e) in (Memᴰ.tail rest.0, rest.1)
]
