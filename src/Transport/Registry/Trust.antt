-- ===== src/Transport/Registry/Trust.antt =====
-- Whom a registry that was installed takes a certificate for (src-tauri/src/quic_transport.rs).
use mathlib.Core.List.{Memᴰ}
use mykvm.Base.{
  ok_same, ℕ, false, ◌||◌, Option, some, none, List, [], ◌∷◌, ◌++◌, String, is_blank, is_nil, any,
  mem_left, mem_snoc, mem_uncons, snoc_mem, ok, ◌≡◌, refl, sym, ◌∙◌, ap, subst, ◌⊎◌, inl, inr,
  Bool-cases, Option-cases, some_same, ◌==◌, Result-cases,
}
use mykvm.Session.Types.{AuthenticatedPeer, SocketAddr}
use mykvm.Transport.Registry.{
  DecodedTrustedPeer, Registry, TrustedPeer, as_authenticated, authenticate, known_as, clashes,
  decode_all, decoded_peer, push_peer, replace,
}
use mykvm.Transport.Registry.Lookup.{Distinct, found, found_there, snoc-Distinct}

module _ (base64_decode : String → Option (List ℕ)) where
  -- What the loop of `replace` made of the peers that it has seen.
  record Loaded (peers : List TrustedPeer) (before after : Registry) : Type 0 where
    distinct : Distinct before → Distinct after
    keeps : (d : DecodedTrustedPeer) → Memᴰ d before → Memᴰ d after
    loads :
        (p : TrustedPeer) (bytes : List ℕ)
        → Memᴰ p peers
        → base64_decode p.certificate ≡ some bytes
        → Memᴰ (decoded_peer p bytes) after
    only :
        (d : DecodedTrustedPeer)
        → Memᴰ d after
        → Memᴰ d before
          ⊎ ((p : TrustedPeer) × (Memᴰ p peers
                × (base64_decode p.certificate ≡ some d.certificate)
                × (d ≡ decoded_peer p d.certificate)))

  push_peer_lem :
      (p : TrustedPeer) (before middle : Registry)
      → push_peer base64_decode p before ≡ ok middle
      → (bytes : List ℕ) × ((base64_decode p.certificate ≡ some bytes)
          × (before ++ (decoded_peer p bytes ∷ []) ≡ middle)
          × (any (clashes (decoded_peer p bytes)) before ≡ false))
  unfolding push_peer
  push_peer_lem p before middle e =
      elim (Bool-cases (is_blank p.peer_id || p.trust_revision == 0)) [
        | inl bad ↦ absurd (cc (rw (bad, push_peer) at e))
        | inr good ↦ elim (Option-cases (base64_decode p.certificate)) [
          | inl n ↦ absurd (cc (rw (good, n, push_peer) at e))
          | inr (c, q) ↦ elim (Bool-cases (is_nil c)) [
            | inl nil ↦ absurd (cc (rw (good, q, nil, push_peer) at e))
            | inr bytes ↦ elim (Bool-cases (any (clashes (decoded_peer p c)) before)) [
              | inl twice ↦ absurd (cc (rw (good, q, bytes, twice, push_peer) at e))
              | inr once ↦ (c, (q, ok_same (rw (good, q, bytes, once, push_peer) at e), once))
            ]
          ]
        ]
      ]

  extended :
      (p : TrustedPeer) (ps : List TrustedPeer) (before after : Registry) (bytes : List ℕ)
      → base64_decode p.certificate ≡ some bytes
      → any (clashes (decoded_peer p bytes)) before ≡ false
      → Loaded ps (before ++ (decoded_peer p bytes ∷ [])) after
      → Loaded (p ∷ ps) before after
  extended p ps before after bytes read once l = record {
    distinct = λ d. l.distinct (snoc-Distinct before new d once);
    keeps = λ d m. l.keeps d (mem_left before (new ∷ []) m);
    loads = λ q other m e. loads_one q other m e;
    only = λ d m. elim (l.only d m) [
      | inr (q, (n, r, e)) ↦ inr (q, (Memᴰ.tail n, r, e))
      | inl n ↦ elim (mem_snoc before new n) [
        | inl k ↦ inl k
        | inr e ↦ inr (
          p,
          (
            Memᴰ.head refl,
            read ∙ ap (λ (x : DecodedTrustedPeer). some x.certificate) (sym e),
            e ∙ ap (λ (x : DecodedTrustedPeer). decoded_peer p x.certificate) (sym e),
          ),
        )
      ]
    ];
  }
    where
      new : DecodedTrustedPeer
      new = decoded_peer p bytes

      loads_one :
          (q : TrustedPeer) (other : List ℕ)
          → Memᴰ q (p ∷ ps)
          → base64_decode q.certificate ≡ some other
          → Memᴰ (decoded_peer q other) after
      loads_one q other m e = elim (mem_uncons m) [
        | inr n ↦ l.loads q other n e
        | inl same ↦
            let same_bytes : bytes ≡ other =
              some_same
                (sym read ∙ ap (λ (x : TrustedPeer). base64_decode x.certificate) (sym same) ∙ e) in
            subst (λ (x : TrustedPeer). Memᴰ (decoded_peer x other) after) (sym same)
              (subst (λ (b : List ℕ). Memᴰ (decoded_peer p b) after) same_bytes
                (l.keeps new (snoc_mem before new)))
      ]

  loaded :
      (peers : List TrustedPeer) (before after : Registry)
      → decode_all base64_decode peers before ≡ ok after
      → Loaded peers before after
  loaded [] before after e =
      let same : before ≡ after = ok_same e in
      record {
        distinct = λ d. subst Distinct same d;
        keeps = λ d m. subst (Memᴰ d) same m;
        loads = λ p bytes m q. elim m [ ];
        only = λ d m. inl (subst (Memᴰ d) (sym same) m);
      }
  loaded (p ∷ ps) before after e = elim (Result-cases (push_peer base64_decode p before)) [
    | inr (x, q) ↦ absurd (cc (rw q at e))
    | inl (middle, q) ↦
        let one = push_peer_lem p before middle q in
        let rest : decode_all base64_decode ps middle ≡ ok after = rw q at e in
        extended p ps before after one.0 one.1.0 one.1.2
          (subst (λ (r : Registry). Loaded ps r after) (sym one.1.1) (loaded ps middle after rest))
  ]

  -- A listed peer's bytes authenticate as that peer, and no others authenticate.
  abbrev pub Known : List TrustedPeer → Registry → Type 0
  Known peers after =
      ((p : TrustedPeer) (bytes : List ℕ)
        → Memᴰ p peers
        → base64_decode p.certificate ≡ some bytes
        → (addr : SocketAddr) (generation : ℕ)
        → authenticate bytes addr generation after
          ≡ as_authenticated addr generation (some (decoded_peer p bytes)))
      × ((bytes : List ℕ) (addr : SocketAddr) (generation : ℕ) (a : AuthenticatedPeer)
          → authenticate bytes addr generation after ≡ some a
          → (p : TrustedPeer) × (Memᴰ p peers
              × (base64_decode p.certificate ≡ some bytes)
              × (a.peer_id ≡ p.peer_id)
              × (a.role ≡ p.role)
              × (a.trust_revision ≡ p.trust_revision)))

  -- Where the loop ended with this registry, bytes that authenticate are a listed peer's.
  named :
      {peers : List TrustedPeer} {out : Registry}
      → Loaded peers [] out
      → (bytes : List ℕ) (a : AuthenticatedPeer) (addr : SocketAddr) (generation : ℕ)
        (o : Option DecodedTrustedPeer)
      → known_as bytes out ≡ o
      → as_authenticated addr generation o ≡ some a
      → (p : TrustedPeer) × (Memᴰ p peers
          × (base64_decode p.certificate ≡ some bytes)
          × (a.peer_id ≡ p.peer_id)
          × (a.role ≡ p.role)
          × (a.trust_revision ≡ p.trust_revision))
  named l bytes a addr generation none k e = absurd (cc)
  named {out = out} l bytes a addr generation (some d) k e =
      let t = found_there out bytes d k in
      let it = some_same e in
      elim (l.only d t.0) [
        | inl n ↦ elim n [ ]
        | inr (p, (m, read, r)) ↦ (
          p,
          (
            m,
            read ∙ ap some t.1,
            sym (ap (λ x. x.peer_id) it) ∙ ap (λ x. x.peer_id) r,
            sym (ap (λ x. x.role) it) ∙ ap (λ x. x.role) r,
            sym (ap (λ x. x.trust_revision) it) ∙ ap (λ x. x.trust_revision) r,
          ),
        )
      ]

  -- Peers that were installed are known by their certificates alone. When `replace` succeeds, the
  -- bytes of a listed peer's certificate authenticate as that peer, with its role and revision, and
  -- bytes that authenticate as someone are those of a listed peer's certificate.
  pub replace-authenticate :
      (peers : List TrustedPeer) (before after : Registry)
      → replace base64_decode peers before ≡ (after, ok tt)
      → Known peers after
  unfolding replace authenticate
  replace-authenticate peers before after e =
      elim (Result-cases (decode_all base64_decode peers [])) [
        | inr (x, q) ↦ absurd (cc (rw (q, replace) at e))
        | inl (out, q) ↦
            let same : out ≡ after = ap (λ r. r.0) (rw (q, replace) at e) in
            let l = loaded peers [] out q in
            subst (Known peers) same (
              λ p bytes m read addr generation.
                  ap (as_authenticated addr generation)
                    (found out (decoded_peer p bytes) (l.distinct tt) (l.loads p bytes m read)),
              λ bytes addr generation a e.
                  named l bytes a addr generation (known_as bytes out) refl e,
            )
      ]
