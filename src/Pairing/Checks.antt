-- ===== src/Pairing/Checks.antt =====
-- How checking a code ends (src-tauri/src/lib.rs, `complete_pairing_from_confirm`).
use mykvm.Base.{
  ℕ, ◌+◌, ◌<◌, Bool, true, false, not, ◌&&◌, ◌||◌, Option, some, none, string_beq, string_beq_iff,
  is_blank, trim, leb, Result, ok, err, ◌≡◌, refl, ◌⊎◌, inl, inr, Bool-cases, ||_false, arith,
}
use mykvm.Pairing.Types.{
  PairingChallenge, PairingError, code_expired, requester_mismatch, wrong_code,
}
use mykvm.Pairing.Challenge.{
  Confirmation, check_code, missed, pairing_max_attempts, saturating_add_u8,
}

not-not : (b : Bool) → not b ≡ false → b ≡ true
not-not b h = ground arith

-- What a wrong code leaves: one more attempt, or nothing.
pub missed-cases :
    (c : PairingChallenge)
    → c.attempts < pairing_max_attempts
    → (missed c ≡ none)
      ⊎ ((missed c ≡ some (record c { attempts = c.attempts + 1 }))
          × (c.attempts + 1 < pairing_max_attempts))
missed-cases c few =
    let counted : saturating_add_u8 c.attempts ≡ c.attempts + 1 = ground arith in
    elim (Bool-cases (leb pairing_max_attempts (c.attempts + 1))) [
      | inl spent ↦ inl (rw (counted, spent) refl)
      | inr left ↦ inr (rw (counted, left) refl, ground arith)
    ]

abbrev pub CodeAnswer : Type 0
CodeAnswer = Option PairingChallenge × Result PairingError (Unit {0})

-- The ways that checking a code can end.
pub data Ending (now : ℕ) (d : Confirmation) (c : PairingChallenge) (r : CodeAnswer) : Type 0 where
  lapsed : r ≡ (none, err code_expired) → Ending now d c r
  foreign : r ≡ (some c, err requester_mismatch) → Ending now d c r
  wrong : r ≡ (missed c, err wrong_code) → Ending now d c r
  right :
      r ≡ (none, ok tt)
      → now < c.expires_at
      → c.requester_id ≡ d.requester.id
      → c.code ≡ trim d.code
      → Ending now d c r

pub check_code_ends :
    (now : ℕ) (d : Confirmation) (c : PairingChallenge) → Ending now d c (check_code now d (some c))
unfolding check_code
check_code_ends now d c = elim (Bool-cases (leb c.expires_at now)) [
  | inl late ↦ lapsed (rw late refl)
  | inr alive ↦
      elim (Bool-cases (
        not (string_beq c.requester_id d.requester.id)
        || (not (is_blank c.requester_public_key)
            && not (string_beq c.requester_public_key d.requester.transport_public_key)))) [
              | inl other ↦ foreign (rw (alive, other) refl)
              | inr own ↦ elim (Bool-cases (string_beq c.code (trim d.code))) [
                | inr bad ↦ wrong (rw (alive, own, bad) refl)
                | inl good ↦
                    right (rw (alive, own, good) refl) (ground arith)
                      ((string_beq_iff c.requester_id d.requester.id).0
                        (not-not (string_beq c.requester_id d.requester.id) (||_false _ _ own).0))
                      ((string_beq_iff c.code (trim d.code)).0 good)
              ]
            ]
]
