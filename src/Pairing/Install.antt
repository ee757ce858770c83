-- ===== src/Pairing/Install.antt =====
-- From the stored peers to the transport's registry: `quic_trusted_peers` of src-tauri/src/lib.rs, then `replace` of
-- src-tauri/src/quic_transport.rs.
use mykvm.Base.{
  ℕ, true, false, ◌||◌, Option, some, none, List, [], ◌∷◌, ◌++◌, String, string_beq, string_beq_iff,
  is_blank, is_nil, trim, if◌then◌else◌, Result, ok, err, ◌≡◌, ◌≢◌, refl, sym, ◌∙◌, ap, ◌⊎◌, inl,
  inr, Bool-cases, Option-cases, any, ◌==◌, arith,
}
use mykvm.Pairing.Types.{TrustedPeerRecord}
use mykvm.Pairing.Trusted.{upsert_trusted_peer}
use mykvm.Pairing.Refresh.{untrimmed_repeats}
use mykvm.Session.Types.{PeerRole}
use mykvm.Transport.Registry.{
  Registry, RegistryError, TrustedPeer, clashes, decode_all, decoded_peer, empty_certificate,
  installed, invalid_certificate, missing_id_or_revision, not_unique, push_peer, replace,
}

abbrev pub role_of : String → Option PeerRole
role_of role =
    if string_beq role "controller"
    then some PeerRole.controller
    else if string_beq role "receiver"
    then some PeerRole.receiver
    else none

abbrev pub with_role : TrustedPeerRecord → Option PeerRole → List TrustedPeer → List TrustedPeer
with_role p none rest = rest
with_role p (some role) rest =
    record {
      peer_id = p.id;
      certificate = p.transport_public_key;
      role = role;
      trust_revision = p.trust_revision;
    }
    ∷ rest

unfoldable pub quic_trusted_peers : List TrustedPeerRecord → List TrustedPeer
quic_trusted_peers [] = []
quic_trusted_peers (p ∷ ps) = with_role p (role_of p.role) (quic_trusted_peers ps)

as_controller : TrustedPeerRecord → TrustedPeer
as_controller p = record {
  peer_id = p.id;
  certificate = p.transport_public_key;
  role = PeerRole.controller;
  trust_revision = p.trust_revision;
}

two_controllers :
    (p q : TrustedPeerRecord)
    → p.role ≡ "controller"
    → q.role ≡ "controller"
    → quic_trusted_peers (p ∷ q ∷ []) ≡ as_controller p ∷ as_controller q ∷ []
unfolding quic_trusted_peers as_controller
two_controllers p q e f =
    ap (λ (r : String). with_role p (role_of r) (with_role q (role_of q.role) [])) e
    ∙ ap (λ (r : String). as_controller p ∷ with_role q (role_of r) []) f

module _ (base64_decode : String → Option (List ℕ)) where
  Refused : Result RegistryError Registry → Type 0
  Refused r = (e : RegistryError) × (r ≡ err e)

  -- A peer is pushed as it is, or refused.
  pushed_one :
      (p : TrustedPeer) (decoded : Registry)
      → Refused (push_peer base64_decode p decoded)
        ⊎ ((certificate : List ℕ) × (push_peer base64_decode p decoded
              ≡ ok (decoded ++ (decoded_peer p certificate ∷ [])))
            × (any (clashes (decoded_peer p certificate)) decoded ≡ false))
  unfolding push_peer Refused
  pushed_one p decoded = elim (Bool-cases (is_blank p.peer_id || p.trust_revision == 0)) [
    | inl bad ↦ inl (missing_id_or_revision, rw bad refl)
    | inr good ↦ elim (Option-cases (base64_decode p.certificate)) [
      | inl n ↦ inl (invalid_certificate, rw (good, n) refl)
      | inr (c, e) ↦ elim (Bool-cases (is_nil c)) [
        | inl nil ↦ inl (empty_certificate, rw (good, e, nil) refl)
        | inr some_bytes ↦ elim (Bool-cases (any (clashes (decoded_peer p c)) decoded)) [
          | inl twice ↦ inl (not_unique, rw (good, e, some_bytes, twice) refl)
          | inr once ↦ inr (c, rw (good, e, some_bytes, once) refl, once)
        ]
      ]
    ]
  ]

  -- Two peers of one id are refused.
  two-Refused :
      (p q : TrustedPeer)
      → p.peer_id ≡ q.peer_id
      → Refused (decode_all base64_decode (p ∷ q ∷ []) [])
  unfolding Refused
  two-Refused p q same = elim (pushed_one p []) [
    | inl (e, r) ↦ (e, rw r refl)
    | inr (c, r, once) ↦ elim (pushed_one q (decoded_peer p c ∷ [])) [
      | inl (e, r2) ↦ (e, rw r (rw r2 refl))
      | inr (c2, r2, apart) ↦
          let clash : string_beq p.peer_id q.peer_id ≡ true =
            (string_beq_iff p.peer_id q.peer_id).1 same in
          absurd (ground (arith, clash, apart))
    ]
  ]

  -- A peer whose id has blanks around it, paired as a controller and paired again under another
  -- certificate (that is not the old one with blanks taken off), is locked out:
  -- the registry refuses the stored peers and stays as it is. (The second pairing is made when no
  -- other peer is trusted.)
  pub upsert_untrimmed-replace :
      (id old new : String) (now then_now : ℕ) (first second : List TrustedPeerRecord)
      (registry : Registry)
      → trim id ≢ id
      → trim old ≢ new
      → upsert_trusted_peer [] id old "controller" now ≡ ok first
      → upsert_trusted_peer first id new "controller" then_now ≡ ok second
      → (e : RegistryError) × (replace base64_decode (quic_trusted_peers second) registry
          ≡ (registry, err e))
  unfolding replace Refused as_controller
  upsert_untrimmed-replace id old new now then_now first second registry blanks rotated one two =
      let t =
        untrimmed_repeats id old new "controller" now then_now first second blanks rotated one
          two in
      let p = t.0 in
      let q = t.1.0 in
      let facts = t.1.1 in
      let both = two-Refused (as_controller p) (as_controller q) (facts.1 ∙ sym facts.2) in
      let peers : quic_trusted_peers second ≡ as_controller p ∷ as_controller q ∷ [] =
        ap quic_trusted_peers facts.0 ∙ two_controllers p q facts.3 facts.4 in
      (
        both.0,
        ap
              (λ (l : List TrustedPeer).
                installed base64_decode registry (decode_all base64_decode l []))
              peers
            ∙ ap (installed base64_decode registry) both.1,
      )
