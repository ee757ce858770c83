-- ===== src/Pairing/Histories.antt =====
-- Pairing over any history of requests, confirmations, dismissals and resets (src-tauri/src/lib.rs).
use mathlib.Core.List.{Memᴰ}
use mykvm.Base.{
  ℕ, ◌+◌, ◌<◌, Bool, true, false, ◌||◌, Option, some, none, List, [], ◌∷◌, String, string_beq,
  string_beq_iff, is_blank, ltb, if◌then◌else◌, ok, err, ◌≡◌, refl, sym, subst, inl, inr,
  Bool-cases, arith,
}
use mykvm.Pairing.Types.{LanPeer, LayoutState, PairingChallenge, TrustedPeerRecord}
use mykvm.Pairing.Checks.{CodeAnswer, check_code_ends, foreign, lapsed, missed-cases, right, wrong}
use mykvm.Pairing.Challenge.{
  Confirmation, Desk, Moment, after_check, asked_again, begin_pairing_challenge, challenged,
  check_code, complete_pairing_from_confirm, accepts_request, missed, new_challenge,
  pairing_code_ttl_ms, pairing_max_attempts, refreshed,
}

pub data Event : Type 0 where
  asked : (m : Moment) (requester : LanPeer) (requester_ip : String) → Event
  confirmed : (m : Moment) (disk : Bool) (d : Confirmation) → Event
  -- `dismiss_pairing_request`, and `reset_pairing`, which forgets the challenge if the disk and the
  -- transport took the new layout.
  dismissed : Event
  reset : (taken : Bool) → Event

-- `retain(|peer| peer.role != "controller")`.
abbrev pub no_controllers : List TrustedPeerRecord → List TrustedPeerRecord
no_controllers [] = []
no_controllers (p ∷ ps) =
    let rest = no_controllers ps in if string_beq p.role "controller" then rest else p ∷ rest

abbrev pub reset_pairing : LayoutState → LayoutState
reset_pairing layout = record layout {
  paired_controllers = [];
  trusted_peers = no_controllers layout.trusted_peers;
}

unfoldable pub step : Event → Desk → Desk
step (asked m requester ip) desk = record desk {
  challenge = (begin_pairing_challenge m desk.layout requester ip desk.challenge).0;
}
step (confirmed m disk d) desk = (complete_pairing_from_confirm m disk d desk).0
step dismissed desk = record desk { challenge = none }
step (reset taken) desk = record {
  challenge = if taken then none else desk.challenge;
  layout = reset_pairing desk.layout;
}

abbrev pub fresh : LayoutState → Desk
fresh layout = record { challenge = none; layout = layout }

-- Histories, newest event first.
unfoldable pub run : LayoutState → List Event → Desk
run layout [] = fresh layout
run layout (e ∷ earlier) = step e (run layout earlier)

-- The request of the history that the code was made for.
pub record Issued (history : List Event) (c : PairingChallenge) : Type 0 where
  pub m : Moment
  pub requester : LanPeer
  pub requester_ip : String
  pub happened : Memᴰ (asked m requester requester_ip) history
  pub same_code : c.code ≡ m.random_pairing_code
  pub same_requester : c.requester_id ≡ requester.id
  pub expires : c.expires_at ≡ m.now + pairing_code_ttl_ms
  pub few : c.attempts < pairing_max_attempts

abbrev pub Pending : List Event → Option PairingChallenge → Type 0
Pending history none = Unit {0}
Pending history (some c) = Issued history c

later :
    {history : List Event} {c : PairingChallenge} (e : Event)
    → Issued history c
    → Issued (e ∷ history) c
later e i = record {
  m = i.m;
  requester = i.requester;
  requester_ip = i.requester_ip;
  happened = Memᴰ.tail i.happened;
  same_code = i.same_code;
  same_requester = i.same_requester;
  expires = i.expires;
  few = i.few;
}

later-Pending :
    (history : List Event) (e : Event) (o : Option PairingChallenge)
    → Pending history o
    → Pending (e ∷ history) o
later-Pending history e none p = tt
later-Pending history e (some c) p = later e p

asked-Pending :
    (history : List Event) (m : Moment) (requester : LanPeer) (ip : String) (c : PairingChallenge)
    → c.requester_id ≡ requester.id
    → Issued history c
    → Issued (asked m requester ip ∷ history) (asked_again requester ip (refreshed m c))
asked-Pending history m requester ip c same i = elim (Bool-cases (ltb 0 c.attempts)) [
  | inl guessed ↦ rw guessed (record {
    m = m;
    requester = requester;
    requester_ip = ip;
    happened = Memᴰ.head refl;
    same_code = refl;
    same_requester = same;
    expires = refl;
    few = omega arith;
  })
  | inr new ↦ rw new (record {
    m = i.m;
    requester = i.requester;
    requester_ip = i.requester_ip;
    happened = Memᴰ.tail i.happened;
    same_code = i.same_code;
    same_requester = i.same_requester;
    expires = i.expires;
    few = i.few;
  })
]

newly :
    (history : List Event) (m : Moment) (requester : LanPeer) (ip : String)
    → Issued (asked m requester ip ∷ history) (new_challenge m requester ip)
newly history m requester ip = record {
  m = m;
  requester = requester;
  requester_ip = ip;
  happened = Memᴰ.head refl;
  same_code = refl;
  same_requester = refl;
  expires = refl;
  few = omega arith;
}

challenged-Pending :
    (history : List Event) (m : Moment) (requester : LanPeer) (ip : String)
    (o : Option PairingChallenge)
    → Pending history o
    → Pending (asked m requester ip ∷ history) (challenged m requester ip o).0
challenged-Pending history m requester ip none p = newly history m requester ip
challenged-Pending history m requester ip (some c) p = elim (Bool-cases (ltb m.now c.expires_at)) [
  | inr late ↦ rw late (newly history m requester ip)
  | inl alive ↦ elim (Bool-cases (string_beq c.requester_id requester.id)) [
    | inl same ↦
        rw (alive, same)
          (asked-Pending history m requester ip c
            ((string_beq_iff c.requester_id requester.id).0 same) p)
    | inr differs ↦ rw (alive, differs) (later (asked m requester ip) p)
  ]
]

begin-Pending :
    (history : List Event) (m : Moment) (layout : LayoutState) (requester : LanPeer) (ip : String)
    (o : Option PairingChallenge)
    → Pending history o
    → Pending (asked m requester ip ∷ history) (begin_pairing_challenge m layout requester ip o).0
unfolding begin_pairing_challenge
begin-Pending history m layout requester ip o p =
    elim (Bool-cases (accepts_request layout requester)) [
      | inl may ↦ rw may (challenged-Pending history m requester ip o p)
      | inr refused ↦ rw refused (later-Pending history (asked m requester ip) o p)
    ]

missed-Pending :
    (history : List Event) (e : Event) (c : PairingChallenge)
    → Issued history c
    → Pending (e ∷ history) (missed c)
missed-Pending history e c i = elim (missed-cases c i.few) [
  | inl spent ↦ subst (Pending (e ∷ history)) (sym spent) tt
  | inr left ↦ subst (Pending (e ∷ history)) (sym left.0) (record {
    m = i.m;
    requester = i.requester;
    requester_ip = i.requester_ip;
    happened = Memᴰ.tail i.happened;
    same_code = i.same_code;
    same_requester = i.same_requester;
    expires = i.expires;
    few = left.1;
  })
]

check_code-Pending :
    (history : List Event) (e : Event) (now : ℕ) (d : Confirmation) (o : Option PairingChallenge)
    → Pending history o
    → Pending (e ∷ history) (check_code now d o).0
unfolding check_code
check_code-Pending history e now d none p = tt
check_code-Pending history e now d (some c) p =
    let goal = λ (r : CodeAnswer). Pending (e ∷ history) r.0 in
    elim (check_code_ends now d c) [
      | lapsed q ↦ subst goal (sym q) tt
      | foreign q ↦ subst goal (sym q) (later e p)
      | wrong q ↦ subst goal (sym q) (missed-Pending history e c p)
      | right q t r k ↦ subst goal (sym q) tt
    ]

after_check-challenge :
    (m : Moment) (disk : Bool) (d : Confirmation) (layout : LayoutState) (a : CodeAnswer)
    → (after_check m disk d layout a).0.challenge ≡ a.0
after_check-challenge m disk d layout (challenge, ok u) = refl
after_check-challenge m disk d layout (challenge, err e) = refl

confirmed-Pending :
    (history : List Event) (m : Moment) (disk : Bool) (d : Confirmation) (desk : Desk)
    → Pending history desk.challenge
    → Pending
        (confirmed m disk d ∷ history)
        (complete_pairing_from_confirm m disk d desk).0.challenge
unfolding complete_pairing_from_confirm
confirmed-Pending history m disk d desk p =
    elim (Bool-cases (is_blank d.code || is_blank d.cluster_id || is_blank d.pair_secret)) [
      | inl blank ↦ rw blank (later-Pending history (confirmed m disk d) desk.challenge p)
      | inr full ↦ rw full (
          subst (Pending (confirmed m disk d ∷ history))
            (sym (after_check-challenge m disk d desk.layout (check_code m.now d desk.challenge)))
            (check_code-Pending history (confirmed m disk d) m.now d desk.challenge p))
    ]

pub run-Pending :
    (layout : LayoutState) (history : List Event) → Pending history (run layout history).challenge
unfolding run step
run-Pending layout [] = tt
run-Pending layout (asked m requester ip ∷ earlier) =
    begin-Pending earlier m (run layout earlier).layout requester ip (run layout earlier).challenge
      (run-Pending layout earlier)
run-Pending layout (confirmed m disk d ∷ earlier) =
    confirmed-Pending earlier m disk d (run layout earlier) (run-Pending layout earlier)
run-Pending layout (dismissed ∷ earlier) = tt
run-Pending layout (reset true ∷ earlier) = tt
run-Pending layout (reset false ∷ earlier) =
    later-Pending earlier (reset false) (run layout earlier).challenge (run-Pending layout earlier)
