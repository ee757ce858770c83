-- ===== src/Protocol/Handshake.antt =====
-- The two ends of src-tauri/src/protocol_v2.rs talking to each other: a controller's begin, its two
-- frames at a fresh receiver, the receiver's `Ready`, the controller's `Commit`, the `CommitAck`.
use mykvm.Base.{
  ℕ, ◌≡◌, refl, ap, ◌∙◌, ◌≢◌, Option, none, some, List, [], ◌∷◌, String, arith, Result, ok, err,
  ok_or, ◌>>=◌, true, string_beq_iff,
}
use mykvm.Protocol.Types.{
  SessionId, ControlFrame, prepare, ready, commit, commit_ack, ProtocolError, wrong_session,
  session_beq_iff,
}
use mykvm.Protocol.Validate.{validate_frame, validate_text, max_peer_id_bytes}
use mykvm.Protocol.Controller
use mykvm.Protocol.Controller.{ControllerHandshake, hello_of}
use mykvm.Protocol.Receiver
use mykvm.Protocol.Receiver.{ReceiverHandshake}

-- A reply that carries a frame.
abbrev answer {ℓ} :
    {A : Type ℓ}
    → A × Result ProtocolError (Option ControlFrame)
    → Result ProtocolError (A × ControlFrame)
answer (a, ok (some f)) = ok (a, f)
answer (a, ok none) = err wrong_session
answer (a, err e) = err e

-- A receiver that hears a controller's frames one after the other, up to the first error, with its
-- last reply.
unfoldable hear :
    ReceiverHandshake × Result ProtocolError (Option ControlFrame)
    → List ControlFrame
    → ReceiverHandshake × Result ProtocolError (Option ControlFrame)
hear (r, err e) frames = (r, err e)
hear (r, ok reply) [] = (r, ok reply)
hear (r, ok reply) (f ∷ frames) = hear (Receiver.handle r f) frames

pub meet :
    ControllerHandshake
    → ReceiverHandshake
    → ℕ
    → String
    → ℕ
    → Option ℕ
    → Result ProtocolError (ControllerHandshake × ReceiverHandshake)
meet c r request display revision random = do
  begun ← Controller.begin c request display revision
  offered ← answer (hear (r, ok none) begun.1)
  let known = (Controller.handle begun.0 offered.1 random).0
  chosen ← ok_or (Controller.prepared_session known) wrong_session
  asked ← Controller.commit_session known chosen.0 chosen.1
  acked ← answer (Receiver.handle offered.0 asked.1)
  ok ((Controller.handle asked.0 acked.1 random).0, acked.0)

module _ (c : ControllerHandshake) (r : ReceiverHandshake) (request : ℕ) (display : String)
    (revision nonce : ℕ) (trusted : r.trusted_peer_id ≡ c.local_peer_id)
    (named : validate_text c.local_peer_id max_peer_id_bytes "peer_id" ≡ ok tt)
    (fresh : r.state ≡ Receiver.await_hello) (idle : c.state ≡ Controller.idle)
    (target : validate_frame (prepare request display revision) ≡ ok tt)
    (controller_boot : c.local_boot ≢ 0) (receiver_boot : r.local_boot ≢ 0)
    (drawn : nonce ≢ 0) where
  abbrev session : SessionId
  session = record { controller_boot = c.local_boot; receiver_boot = r.local_boot; nonce = nonce }

  abbrev waiting : ControllerHandshake
  waiting = record c { state = Controller.await_ready request display revision }

  abbrev offer : ControlFrame
  offer = ready request r.local_boot true display revision

  begun :
      Controller.begin c request display revision
      ≡ ok (waiting, hello_of c ∷ prepare request display revision ∷ [])
  unfolding Controller.begin
  begun = ground (arith, idle, target)

  greeted :
      Receiver.handle r (hello_of c) ≡ (record r { state = Receiver.idle c.local_boot }, ok none)
  unfolding Receiver.handle validate_frame
  greeted = ground (arith, string_beq_iff c.local_peer_id r.trusted_peer_id)

  offered :
      Receiver.handle
        (record r { state = Receiver.idle c.local_boot })
        (prepare request display revision)
      ≡ (record r { state = Receiver.prepared c.local_boot request }, ok (some offer))
  unfolding Receiver.handle
  offered = ground (arith, target)

  heard :
      hear (r, ok none) (hello_of c ∷ prepare request display revision ∷ [])
      ≡ (record r { state = Receiver.prepared c.local_boot request }, ok (some offer))
  unfolding hear
  heard =
      ap (λ h. hear h (prepare request display revision ∷ [])) greeted ∙ ap (λ h. hear h []) offered

  offer_valid : validate_frame offer ≡ ok tt
  unfolding validate_frame
  offer_valid = target

  known :
      Controller.handle waiting offer (some nonce)
      ≡ (record waiting { state = Controller.prepared request session }, ok none)
  unfolding Controller.handle
  known = ground (arith, offer_valid, (string_beq_iff display display).1 refl)

  chosen :
      Controller.prepared_session (record c { state = Controller.prepared request session })
      ≡ some (request, session)
  unfolding Controller.prepared_session
  chosen = refl

  asked :
      Controller.commit_session
        (record c { state = Controller.prepared request session })
        request
        session
      ≡ ok (record c { state = Controller.await_commit_ack session }, commit request session)
  unfolding Controller.commit_session
  asked = ground (arith, (session_beq_iff session session).1 refl)

  commit_valid : validate_frame (commit request session) ≡ ok tt
  unfolding validate_frame
  commit_valid = ground (arith, target)

  acked :
      Receiver.handle
        (record r { state = Receiver.prepared c.local_boot request })
        (commit request session)
      ≡ (record r { state = Receiver.active session }, ok (some (commit_ack session)))
  unfolding Receiver.handle
  acked = ground (arith, commit_valid)

  finished :
      Controller.handle
        (record c { state = Controller.await_commit_ack session })
        (commit_ack session)
        (some nonce)
      ≡ (
        record c {
          state = Controller.active session;
          ping_sequence = 0;
          last_pong_sequence = 0;
          highest_remote_applied = 0;
        },
        ok none,
      )
  unfolding Controller.handle validate_frame
  finished = ground (arith, (session_beq_iff session session).1 refl)

  -- When the controller is idle, the receiver has seen no hello and trusts the controller's peer id,
  -- that id and the display asked for are valid, and the boots and the nonce drawn are not zero,
  -- the handshake comes to an end and both are active in the same session: that of their two boots
  -- and the nonce.
  pub meet_agrees :
      meet c r request display revision (some nonce)
      ≡ ok (
        record c {
          state = Controller.active session;
          ping_sequence = 0;
          last_pong_sequence = 0;
          highest_remote_applied = 0;
        },
        record r { state = Receiver.active session },
      )
  unfolding meet
  meet_agrees = simp (begun, heard, known, chosen, asked, acked, finished)
