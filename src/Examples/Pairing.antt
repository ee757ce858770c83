-- ===== src/Examples/Pairing.antt =====
-- A concrete pairing (src-tauri/src/lib.rs).
use mathlib.Core.List.{Memᴰ}
use mykvm.Base.{
  ℕ, ◌≤◌, ◌≡◌, ◌≢◌, refl, ◌⊎◌, true, false, Option, none, some, List, [], ◌∷◌, String, string_beq,
  string_beq_iff, trim, ok, err,
}
use mykvm.Pairing.Types.{LanPeer, LayoutState, TrustedPeerRecord}
use mykvm.Pairing.Challenge.{
  Confirmation, Moment, complete_pairing_from_confirm, pairing_max_attempts,
}
use mykvm.Pairing.Histories.{Event, asked, confirmed, run}
use mykvm.Pairing.Safety.{Granted, confirmed-grants}
use mykvm.Pairing.Guesses.{Attempt, after_attempts, wrong_answers, wrong_answers-bounded}
use mykvm.Pairing.Trusted.{new_record, upsert_trusted_peer}
use mykvm.Pairing.Refresh.{Distinct, upsert_trusted_peer-Distinct}
use mykvm.Pairing.Install.{quic_trusted_peers, upsert_untrimmed-replace}
use mykvm.Transport.Registry.{RegistryError, replace}

abbrev server : LanPeer
server = record {
  id = "desk";
  name = "Desk";
  machine_role = "server";
  host = "desk.local";
  ip = "10.0.0.2";
  transport_public_key = "AQ==";
  protocol_version = 2;
}

abbrev layout : LayoutState
layout = record {
  machine_role = "client";
  cluster_id = "";
  pair_secret = "";
  input_mode = "off";
  paired_controllers = [];
  trusted_peers = [];
}

abbrev moment : ℕ → Moment
moment n = record { now = n; now_ms = n; random_pairing_code = "123456" }

abbrev with_code : String → Confirmation
with_code code = record {
  requester = server;
  code = code;
  cluster_id = "home";
  pair_secret = "secret";
}

abbrev history : List Event
history = confirmed (moment 20) true (with_code "654321") ∷ asked (moment 10) server "10.0.0.2" ∷ []

confirmed-grants_example :
    let before = run layout history in
    let after = (complete_pairing_from_confirm (moment 30) true (with_code " 123456 ") before).0 in
    (after.layout ≡ before.layout) ⊎ Granted history (moment 30) (with_code " 123456 ") after
confirmed-grants_example = confirmed-grants layout history (moment 30) true (with_code " 123456 ")

abbrev guesses : List Attempt
guesses =
    record { m = moment 21; disk = true; d = with_code "000000" }
    ∷ record { m = moment 22; disk = true; d = with_code "000001" }
    ∷ []

wrong_answers-bounded_example :
    let desk = run layout history in
    let n = wrong_answers guesses desk in
    (n ≤ pairing_max_attempts)
    × (n ≡ pairing_max_attempts → (after_attempts guesses desk).challenge ≡ none)
wrong_answers-bounded_example = wrong_answers-bounded layout history guesses

abbrev record_of : String → String → ℕ → ℕ → TrustedPeerRecord
record_of id certificate revision now = record {
  id = id;
  transport_public_key = certificate;
  role = "controller";
  trust_revision = revision;
  paired_at_ms = now;
}

-- The certificate is rotated.
abbrev before_rotation : List TrustedPeerRecord
before_rotation = record_of "desk" "AQ==" 1 10 ∷ []

abbrev after_rotation : List TrustedPeerRecord
after_rotation = record_of "desk" "Ag==" 2 20 ∷ []

rotated_once : upsert_trusted_peer before_rotation "desk" "Ag==" "controller" 20 ≡ ok after_rotation
unfolding upsert_trusted_peer trim
rotated_once = refl

tidy_id : trim "desk" ≡ "desk"
unfolding trim
tidy_id = refl

tidy_key : trim "Ag==" ≡ "Ag=="
unfolding trim
tidy_key = refl

upsert_trusted_peer-Distinct_example :
    let r = new_record before_rotation "desk" "Ag==" "controller" 20 in
    Distinct after_rotation
    × Memᴰ r after_rotation
    × (r.id ≡ "desk")
    × (r.transport_public_key ≡ "Ag==")
    × ((q : TrustedPeerRecord) → Memᴰ q after_rotation → Memᴰ q before_rotation ⊎ (q ≡ r))
upsert_trusted_peer-Distinct_example =
    upsert_trusted_peer-Distinct before_rotation after_rotation "desk" "Ag==" "controller" 20
      (λ q m. elim m [ ], tt) tidy_id tidy_key rotated_once

abbrev first_pairing : List TrustedPeerRecord
first_pairing = record_of "desk" "AQ==" 1 10 ∷ []

abbrev second_pairing : List TrustedPeerRecord
second_pairing = record_of "desk" "AQ==" 1 10 ∷ record_of "desk" "Ag==" 2 20 ∷ []

blanks : trim " desk" ≢ " desk"
unfolding trim
blanks e =
    let differs : string_beq "desk" " desk" ≡ false = refl in
    cc (differs, (string_beq_iff "desk" " desk").1 e)

rotated : trim "AQ==" ≢ "Ag=="
unfolding trim
rotated e =
    let differs : string_beq "AQ==" "Ag==" ≡ false = refl in
    cc (differs, (string_beq_iff "AQ==" "Ag==").1 e)

paired_first : upsert_trusted_peer [] " desk" "AQ==" "controller" 10 ≡ ok first_pairing
unfolding upsert_trusted_peer trim
paired_first = refl

paired_again : upsert_trusted_peer first_pairing " desk" "Ag==" "controller" 20 ≡ ok second_pairing
unfolding upsert_trusted_peer trim
paired_again = refl

-- Stands for the decoder of base64.
abbrev decode : String → Option (List ℕ)
decode s = some (1 ∷ [])

upsert_untrimmed-replace_example :
    (e : RegistryError) × (replace decode (quic_trusted_peers second_pairing) [] ≡ ([], err e))
upsert_untrimmed-replace_example =
    upsert_untrimmed-replace decode " desk" "AQ==" "Ag==" 10 20 first_pairing second_pairing []
      blanks rotated paired_first paired_again
