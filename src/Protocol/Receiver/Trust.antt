-- ===== src/Protocol/Receiver/Trust.antt =====
-- Who can bring a receiver's handshake (src-tauri/src/protocol_v2.rs) to an active session.
use mykvm.Protocol.Validate.{validate_frame}
use mathlib.Core.List.{append-nil, append_assoc}
use mykvm.Base.{
  ℕ, ◌≡◌, refl, ◌⊎◌, inl, inr, Option, none, some, List, [], ◌∷◌, ◌++◌, String, arith, ok,
  Result-cases, Bool, true, false, ◌==◌, ◌&&◌, string_beq, any, ap, subst, ◌∙◌,
}
use mykvm.Protocol.Types.{
  BootId, SessionId, controller, ControlFrame, hello, commit, commit_ack, session_beq_iff,
  DeviceRole, receiver, session_beq,
}
use mykvm.Protocol.Receiver.{
  ReceiverState, await_hello, idle, prepared, active, ended, ReceiverHandshake, new, handle,
  dispatch,
}

-- What an acknowledgement of `s` in the state `t` says of that state and of the frame.
abbrev Acked : ReceiverState → ControlFrame → SessionId → BootId → Type 0
Acked t f s boot =
    (t ≡ active s)
    ⊎ ((r : ℕ) × (t ≡ prepared s.controller_boot r) × (f ≡ commit r s) × (s.receiver_boot ≡ boot))

dispatch_acks :
    (t : ReceiverState) (f : ControlFrame) (h : ReceiverHandshake) (s : SessionId)
    → (dispatch t f h).1 ≡ ok (some (commit_ack s))
    → h.state ≡ t
    → ((dispatch t f h).0.state ≡ active s) × Acked t f s h.local_boot
unfolding dispatch
dispatch_acks (active c) (commit r n) h s e q = (ground arith, inl (ground arith))
dispatch_acks (prepared b r) (commit r' n) h s e q =
    (ground arith, inr (r, ground arith, ground arith, ground arith))
dispatch_acks _ _ h s e q = ground arith

-- A session is acknowledged only if it is active already, or if its commit names the request that
-- was prepared, the boot that said hello and the receiver's own boot; then it is the active one.
pub handle_acks :
    (h : ReceiverHandshake) (f : ControlFrame) (s : SessionId)
    → (handle h f).1 ≡ ok (some (commit_ack s))
    → ((handle h f).0.state ≡ active s)
      × ((h.state ≡ active s)
          ⊎ ((r : ℕ) × (h.state ≡ prepared s.controller_boot r)
              × (f ≡ commit r s)
              × (s.receiver_boot ≡ h.local_boot)))
unfolding handle
handle_acks h f s e = elim (Result-cases (validate_frame f)) [
  | inl (u, v) ↦ rw (v, handle) (dispatch_acks h.state f h s (rw (v, handle) at e) refl)
  | inr (x, v) ↦ ground arith
]

abbrev is_controller : DeviceRole → Bool
is_controller controller = true
is_controller receiver = false

-- A `Hello` of the trusted peer, as a controller, with this boot.
abbrev pub greets : String → BootId → ControlFrame → Bool
greets peer boot (hello b p role capabilities) =
    b == boot && is_controller role && string_beq p peer
greets peer boot _ = false

abbrev pub commits : SessionId → ControlFrame → Bool
commits s (commit request_id session_id) = session_beq session_id s
commits s _ = false

-- The boot of the controller that a state belongs to.
abbrev boot_of : ReceiverState → Option BootId
boot_of await_hello = none
boot_of (idle boot) = some boot
boot_of (prepared boot request_id) = some boot
boot_of (active s) = some s.controller_boot
boot_of (ended s) = some s.controller_boot

boot_greeted :
    (t : ReceiverState) (f : ControlFrame) (h : ReceiverHandshake) (b : BootId)
    → h.state ≡ t
    → boot_of (dispatch t f h).0.state ≡ some b
    → (boot_of t ≡ some b) ⊎ (greets h.trusted_peer_id b f ≡ true)
unfolding dispatch
boot_greeted await_hello (hello b' p role caps) h b q e = ground arith
boot_greeted _ _ h b q e = ground arith

active_committed :
    (t : ReceiverState) (f : ControlFrame) (h : ReceiverHandshake) (s : SessionId)
    → h.state ≡ t
    → (dispatch t f h).0.state ≡ active s
    → (t ≡ active s) ⊎ ((commits s f ≡ true) × (s.receiver_boot ≡ h.local_boot))
unfolding dispatch
active_committed await_hello (hello b' p role caps) h s q e = ground arith
active_committed (prepared b r) (commit r' n) h s q e = ground (arith, session_beq_iff n s)
active_committed _ _ h s q e = ground arith

-- The frames of one connection, in turn; a refused frame leaves the handshake as it was.
unfoldable pub run : ReceiverHandshake → List ControlFrame → ReceiverHandshake
run h [] = h
run h (f ∷ fs) = run (handle h f).0 fs

dispatch_keeps :
    (t : ReceiverState) (f : ControlFrame) (h : ReceiverHandshake)
    → ((dispatch t f h).0.trusted_peer_id ≡ h.trusted_peer_id)
      × ((dispatch t f h).0.local_boot ≡ h.local_boot)
unfolding dispatch
dispatch_keeps await_hello (hello b p role caps) h = ground arith
dispatch_keeps _ _ h = ground arith

-- A handshake that stands for the history `fs`: its boot said hello there, and its session was
-- committed there under the receiver's own boot.
record Explained (peer : String) (boot : BootId) (fs : List ControlFrame) (h : ReceiverHandshake)
    : Type 0 where
  peer_kept : h.trusted_peer_id ≡ peer
  boot_kept : h.local_boot ≡ boot
  greeted : (b : BootId) → boot_of h.state ≡ some b → any (greets peer b) fs ≡ true
  committed :
      (s : SessionId) → h.state ≡ active s → (any (commits s) fs ≡ true) × (s.receiver_boot ≡ boot)

any_last {ℓ} :
    {A : Type ℓ} (p : A → Bool) (xs : List A) (x : A)
    → ((any p xs ≡ true) ⊎ (p x ≡ true))
    → any p (xs ++ x ∷ []) ≡ true
any_last p [] x h = ground arith
any_last p (y ∷ xs) x h = ground (arith, any_last p xs x)

dispatch-Explained :
    (peer : String) (boot : BootId) (fs : List ControlFrame) (h : ReceiverHandshake)
    (f : ControlFrame)
    → Explained peer boot fs h
    → Explained peer boot (fs ++ f ∷ []) (dispatch h.state f h).0
dispatch-Explained peer boot fs h f x = record {
  peer_kept = (dispatch_keeps h.state f h).0 ∙ x.peer_kept;
  boot_kept = (dispatch_keeps h.state f h).1 ∙ x.boot_kept;
  greeted = λ b e. any_last (greets peer b) fs f (elim (boot_greeted h.state f h b refl e) [
    | inl old ↦ inl (x.greeted b old)
    | inr new ↦ inr (rw x.peer_kept at new)
  ]);
  committed = λ s e. elim (active_committed h.state f h s refl e) [
    | inl old ↦ (any_last (commits s) fs f (inl (x.committed s old).0), (x.committed s old).1)
    | inr new ↦ (any_last (commits s) fs f (inr new.0), new.1 ∙ x.boot_kept)
  ];
}

-- Adding a frame to the history never takes a reason away.
later-Explained :
    (peer : String) (boot : BootId) (fs : List ControlFrame) (h : ReceiverHandshake)
    (f : ControlFrame)
    → Explained peer boot fs h
    → Explained peer boot (fs ++ f ∷ []) h
later-Explained peer boot fs h f x = record {
  peer_kept = x.peer_kept;
  boot_kept = x.boot_kept;
  greeted = λ b e. any_last (greets peer b) fs f (inl (x.greeted b e));
  committed = λ s e. (any_last (commits s) fs f (inl (x.committed s e).0), (x.committed s e).1);
}

handle-Explained :
    (peer : String) (boot : BootId) (fs : List ControlFrame) (h : ReceiverHandshake)
    (f : ControlFrame)
    → Explained peer boot fs h
    → Explained peer boot (fs ++ f ∷ []) (handle h f).0
unfolding handle
handle-Explained peer boot fs h f x = elim (Result-cases (validate_frame f)) [
  | inl (u, v) ↦ rw (v, handle) (dispatch-Explained peer boot fs h f x)
  | inr (y, v) ↦ rw (v, handle) (later-Explained peer boot fs h f x)
]

run-Explained :
    (peer : String) (boot : BootId) (fs gs : List ControlFrame) (h : ReceiverHandshake)
    → Explained peer boot fs h
    → Explained peer boot (fs ++ gs) (run h gs)
unfolding run
run-Explained peer boot fs [] h x = rw (append-nil fs) x
run-Explained peer boot fs (g ∷ gs) h x =
    subst (λ l. Explained peer boot l (run (handle h g).0 gs)) (append_assoc fs (g ∷ []) gs)
      (run-Explained peer boot (fs ++ g ∷ []) gs (handle h g).0
        (handle-Explained peer boot fs h g x))

new-Explained :
    (peer : String) (boot : BootId) (h : ReceiverHandshake)
    → new peer boot ≡ ok h
    → Explained peer boot [] h
unfolding new
new-Explained peer boot h e = record {
  peer_kept = ground arith;
  boot_kept = ground arith;
  greeted = λ b q. ground arith;
  committed = λ s q. ground arith;
}

-- Whatever frames a connection brings, a receiver's session is active only if the trusted peer said
-- hello in them as a controller, under the boot that the session names, and a `Commit` of that very
-- session came; and the session names the receiver's own boot.
pub run-active :
    (peer : String) (boot : BootId) (h : ReceiverHandshake) (fs : List ControlFrame) (s : SessionId)
    → new peer boot ≡ ok h
    → (run h fs).state ≡ active s
    → (any (greets peer s.controller_boot) fs ≡ true)
      × (any (commits s) fs ≡ true)
      × (s.receiver_boot ≡ boot)
run-active peer boot h fs s e q =
    let x = run-Explained peer boot [] fs h (new-Explained peer boot h e) in
    (x.greeted s.controller_boot (ap boot_of q), (x.committed s q).0, (x.committed s q).1)
