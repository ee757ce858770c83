-- ===== src/Pairing/Guesses.antt =====
-- How often a code can be guessed (src-tauri/src/lib.rs).
use mykvm.Base.{
  ℕ, ◌+◌, ◌-◌, ◌≤◌, ◌<◌, Bool, not, ◌||◌, Option, some, none, List, [], ◌∷◌, String, string_beq,
  is_blank, Result, err, ◌≡◌, refl, sym, subst, inl, inr, Bool-cases, arith,
}
use mykvm.Pairing.Types.{LayoutState, PairingChallenge, PairingError, TrustedPeerRecord, wrong_code}
use mykvm.Pairing.Trusted.{upsert_trusted_peer}
use mykvm.Pairing.Challenge.{
  Confirmation, Desk, Moment, accept_controller, after_check, check_code,
  complete_pairing_from_confirm, missed, paired_layout, pairing_max_attempts, stored_layout,
}
use mykvm.Pairing.Histories.{Event, Pending, run, run-Pending}
use mykvm.Pairing.Checks.{CodeAnswer, check_code_ends, foreign, lapsed, missed-cases, right, wrong}

-- The confirmations that arrive one after another, with no request in between.
pub record Attempt : Type 0 where
  pub m : Moment
  pub disk : Bool
  pub d : Confirmation

abbrev pub is_wrong : Result PairingError (Unit {0}) → ℕ
is_wrong (err wrong_code) = 1
is_wrong other = 0

unfoldable pub wrong_answers : List Attempt → Desk → ℕ
wrong_answers [] desk = 0
wrong_answers (a ∷ rest) desk =
    let r = complete_pairing_from_confirm a.m a.disk a.d desk in
    is_wrong r.1 + wrong_answers rest r.0

unfoldable pub after_attempts : List Attempt → Desk → Desk
after_attempts [] desk = desk
after_attempts (a ∷ rest) desk =
    after_attempts rest (complete_pairing_from_confirm a.m a.disk a.d desk).0

-- The guesses that are left.
abbrev guesses_left : Option PairingChallenge → ℕ
guesses_left none = 0
guesses_left (some c) = pairing_max_attempts - c.attempts

abbrev Few : Option PairingChallenge → Type 0
Few none = Unit {0}
Few (some c) = c.attempts < pairing_max_attempts

record Spends (before : Option PairingChallenge) (after : Desk × Result PairingError (Unit {0}))
    : Type 0 where
  spent : is_wrong after.1 + guesses_left after.0.challenge ≤ guesses_left before
  few : Few after.0.challenge

upsert-not_wrong :
    (layout : LayoutState) (peers : List TrustedPeerRecord) (id certificate role : String) (now : ℕ)
    (disk : Bool)
    → is_wrong (stored_layout layout disk (upsert_trusted_peer peers id certificate role now)).1 ≡ 0
unfolding upsert_trusted_peer
upsert-not_wrong layout peers id certificate role now disk = ground arith

accept-not_wrong :
    (m : Moment) (disk : Bool) (d : Confirmation) (layout : LayoutState)
    → is_wrong (accept_controller m disk d layout).1 ≡ 0
unfolding accept_controller
accept-not_wrong m disk d layout =
    elim (Bool-cases (not (string_beq layout.machine_role "client"))) [
      | inl other ↦ rw other refl
      | inr client ↦ rw client (
          upsert-not_wrong (paired_layout m d layout) layout.trusted_peers d.requester.id
            d.requester.transport_public_key "controller" m.now_ms disk)
    ]

module _ (m : Moment) (disk : Bool) (d : Confirmation) (layout : LayoutState) where
  missed-Spends :
      (c : PairingChallenge)
      → c.attempts < pairing_max_attempts
      → Spends (some c) (after_check m disk d layout (missed c, err wrong_code))
  missed-Spends c few = elim (missed-cases c few) [
    | inl gone ↦
        subst
          (λ (o : Option PairingChallenge).
            Spends (some c) (after_check m disk d layout (o, err wrong_code)))
          (sym gone) (record { spent = omega arith; few = tt })
    | inr left ↦
        subst
          (λ (o : Option PairingChallenge).
            Spends (some c) (after_check m disk d layout (o, err wrong_code)))
          (sym left.0) (record { spent = omega arith; few = left.1 })
  ]

  checked-Spends :
      (o : Option PairingChallenge)
      → Few o
      → Spends o (after_check m disk d layout (check_code m.now d o))
  unfolding check_code
  checked-Spends none few = record { spent = omega arith; few = tt }
  checked-Spends (some c) few =
      let goal = λ (r : CodeAnswer). Spends (some c) (after_check m disk d layout r) in
      elim (check_code_ends m.now d c) [
        | lapsed q ↦ subst goal (sym q) (record { spent = omega arith; few = tt })
        | foreign q ↦ subst goal (sym q) (record { spent = omega arith; few = few })
        | wrong q ↦ subst goal (sym q) (missed-Spends c few)
        | right q alive requester code ↦
            subst goal (sym q)
              (record { spent = omega (arith, accept-not_wrong m disk d layout); few = tt })
      ]

confirm-Spends :
    (m : Moment) (disk : Bool) (d : Confirmation) (desk : Desk)
    → Few desk.challenge
    → Spends desk.challenge (complete_pairing_from_confirm m disk d desk)
unfolding complete_pairing_from_confirm
confirm-Spends m disk d desk few =
    elim (Bool-cases (is_blank d.code || is_blank d.cluster_id || is_blank d.pair_secret)) [
      | inl blank ↦ rw blank (record { spent = omega arith; few = few })
      | inr full ↦ rw full (checked-Spends m disk d desk.layout desk.challenge few)
    ]

attempts_bounded :
    (attempts : List Attempt) (desk : Desk)
    → Few desk.challenge
    → wrong_answers attempts desk + guesses_left (after_attempts attempts desk).challenge
      ≤ guesses_left desk.challenge
unfolding wrong_answers after_attempts
attempts_bounded [] desk few = omega arith
attempts_bounded (a ∷ rest) desk few =
    let s = confirm-Spends a.m a.disk a.d desk few in
    omega (
      arith,
      s.spent,
      attempts_bounded rest (complete_pairing_from_confirm a.m a.disk a.d desk).0 s.few,
    )

Few-Pending : (history : List Event) (o : Option PairingChallenge) → Pending history o → Few o
Few-Pending history none p = tt
Few-Pending history (some c) p = p.few

left_bounded : (o : Option PairingChallenge) → guesses_left o ≤ pairing_max_attempts
left_bounded none = omega arith
left_bounded (some c) = omega arith

spent_up : (o : Option PairingChallenge) → Few o → guesses_left o ≡ 0 → o ≡ none
spent_up none few e = refl
spent_up (some c) few e = absurd (omega (arith, few, e))

attempts-Few :
    (attempts : List Attempt) (desk : Desk)
    → Few desk.challenge
    → Few (after_attempts attempts desk).challenge
unfolding after_attempts
attempts-Few [] desk few = few
attempts-Few (a ∷ rest) desk few =
    attempts-Few rest (complete_pairing_from_confirm a.m a.disk a.d desk).0
      (confirm-Spends a.m a.disk a.d desk few).few

-- A code cannot be guessed at length. Whatever came before, of the confirmations that arrive with no
-- request in between at most five are told that their code is wrong, and once five were, no
-- challenge is left.
pub wrong_answers-bounded :
    (layout : LayoutState) (history : List Event) (attempts : List Attempt)
    → let desk = run layout history in
      let n = wrong_answers attempts desk in
      (n ≤ pairing_max_attempts)
      × (n ≡ pairing_max_attempts → (after_attempts attempts desk).challenge ≡ none)
wrong_answers-bounded layout history attempts =
    let desk = run layout history in
    let few = Few-Pending history desk.challenge (run-Pending layout history) in
    let total = attempts_bounded attempts desk few in
    let start = left_bounded desk.challenge in
    (
      omega (arith, total, start),
      λ all.
          spent_up (after_attempts attempts desk).challenge (attempts-Few attempts desk few)
            (omega (arith, total, start, all)),
    )
