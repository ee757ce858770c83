-- ===== src/Pairing/Safety.antt =====
-- Who can be paired (src-tauri/src/lib.rs).
use mathlib.Core.List.{Memᴰ}
use mykvm.Base.{
  ℕ, ◌+◌, ◌<◌, Bool, ◌||◌, Option, some, none, List, String, is_blank, trim, ok, ◌≡◌, refl, sym,
  ◌∙◌, subst, ◌⊎◌, inl, inr, Bool-cases,
}
use mykvm.Pairing.Types.{LanPeer, LayoutState, PairingChallenge}
use mykvm.Pairing.Challenge.{
  Confirmation, Desk, Moment, after_check, check_code, complete_pairing_from_confirm,
  pairing_code_ttl_ms,
}
use mykvm.Pairing.Histories.{Event, Issued, Pending, asked, run, run-Pending}
use mykvm.Pairing.Checks.{CodeAnswer, check_code_ends, foreign, lapsed, right, wrong}

-- The request that a confirmation answers.
abbrev pub Granted : List Event → Moment → Confirmation → Desk → Type 0
Granted history m d after =
    (issue : Moment) × ((requester : LanPeer) × ((requester_ip : String) × (Memᴰ
            (asked issue requester requester_ip) history
          × (issue.random_pairing_code ≡ trim d.code)
          × (requester.id ≡ d.requester.id)
          × (m.now < issue.now + pairing_code_ttl_ms)
          × (after.challenge ≡ none))))

granted :
    (history : List Event) (m : Moment) (d : Confirmation) (after : Desk) (c : PairingChallenge)
    → Issued history c
    → c.code ≡ trim d.code
    → c.requester_id ≡ d.requester.id
    → m.now < c.expires_at
    → after.challenge ≡ none
    → Granted history m d after
granted history m d after c i code requester alive gone = (
  i.m,
  (
    i.requester,
    (
      i.requester_ip,
      (
        i.happened,
        sym i.same_code ∙ code,
        sym i.same_requester ∙ requester,
        subst (λ (n : ℕ). m.now < n) i.expires alive,
        gone,
      ),
    ),
  ),
)

module _ (history : List Event) (m : Moment) (disk : Bool) (d : Confirmation)
    (layout : LayoutState) where
  checked-grants :
      (o : Option PairingChallenge)
      → Pending history o
      → let after = (after_check m disk d layout (check_code m.now d o)).0 in
        (after.layout ≡ layout) ⊎ Granted history m d after
  unfolding check_code
  checked-grants none p = inl refl
  checked-grants (some c) p =
      let goal = λ (r : CodeAnswer).
        let after = (after_check m disk d layout r).0 in
        (after.layout ≡ layout) ⊎ Granted history m d after in
      elim (check_code_ends m.now d c) [
        | lapsed q ↦ subst goal (sym q) (inl refl)
        | foreign q ↦ subst goal (sym q) (inl refl)
        | wrong q ↦ subst goal (sym q) (inl refl)
        | right q alive requester code ↦ subst goal (sym q) (
            inr (
              granted history m d (after_check m disk d layout (none, ok tt)).0 c p code requester
                alive refl))
      ]

-- Only the requester whose code it is can be paired. Whatever requests, confirmations, dismissals
-- and resets came before: a confirmation leaves the layout (the paired controllers, the trusted
-- peers, the cluster and its secret) as it is, or the history has a request that was given the code
-- that the confirmation carries, less than sixty seconds ago, by a requester of the same id; then no
-- challenge is left, so the code serves once.
pub confirmed-grants :
    (layout : LayoutState) (history : List Event) (m : Moment) (disk : Bool) (d : Confirmation)
    → let before = run layout history in
      let after = (complete_pairing_from_confirm m disk d before).0 in
      (after.layout ≡ before.layout) ⊎ Granted history m d after
unfolding complete_pairing_from_confirm
confirmed-grants layout history m disk d =
    let before = run layout history in
    elim (Bool-cases (is_blank d.code || is_blank d.cluster_id || is_blank d.pair_secret)) [
      | inl blank ↦ rw blank (inl refl)
      | inr full ↦ rw full (
          checked-grants history m disk d before.layout before.challenge
            (run-Pending layout history))
    ]
