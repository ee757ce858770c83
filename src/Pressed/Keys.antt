-- ===== src/Pressed/Keys.antt =====
-- Keys of src-tauri/src/pressed_state.rs against the desk: presses, releases and drains.
use mykvm.Base.{
  subst, any, ||_false, ◌≢◌, ℕ, Bool, true, false, ◌||◌, ◌≡◌, refl, sym, ap, Option, none, some,
  List, [], ◌∷◌, ◌++◌, arith, ◌==◌, ==_iff, ==_refl, if◌then◌else◌, Bool-cases, inl, inr, ◌∙◌,
}
use mykvm.Input.{MouseButton, InputCommand}
use mykvm.Pressed.{
  HeldKey, PressedState, has_source, has_target, has_button, from_event, take_first, apply_key,
  drop_key, source_beq_iff,
}
use mykvm.Pressed.Held.{any-append, any-take_first}
use mykvm.Pressed.Desk.{replay, desk_ext, desk_of}

has_target-push :
    (c : ℕ) (h : HeldKey) (keys : List HeldKey)
    → (if c == h.target_key_code then true else has_target c keys) ≡ has_target c (keys ++ h ∷ [])
has_target-push c h keys = rw (any-append (λ k. k.target_key_code == c) keys) (ground arith)

has_target_same :
    (b : Bool) (c code : ℕ) (keys : List HeldKey)
    → has_target code keys ≡ b
    → (if c == code then b else has_target c keys) ≡ has_target c keys
has_target_same b c code keys e = elim (Bool-cases (c == code)) [
  | inl same ↦ rw same (sym e ∙ ap (λ t. has_target t keys) (sym ((==_iff c code).0 same)))
  | inr other ↦ rw other
]

pub key_pressed :
    (s : PressedState) (key_code code : ℕ) (extended : Bool)
    → replay (desk_of s) (apply_key s key_code code extended true).1
      ≡ some (desk_of (apply_key s key_code code extended true).0)
unfolding apply_key
key_pressed s key_code code extended =
    elim (Bool-cases (has_source (from_event key_code code extended) s.keys)) [
      | inl held ↦ rw held refl
      | inr fresh ↦ elim (Bool-cases (has_target key_code s.keys)) [
        | inl down ↦
            rw (fresh, down)
              (ap some (
                desk_ext _ _
                  (λ c.
                    sym (has_target_same true c key_code s.keys down) ∙ has_target-push c _ s.keys)
                  (λ b. refl)))
        | inr up ↦
            rw (fresh, up)
              (rw up (ap some (desk_ext _ _ (λ c. has_target-push c _ s.keys) (λ b. refl))))
      ]
    ]

-- A key leaves the ledger: its target goes up unless another source holds it.
pub key_dropped :
    (down : ℕ → Bool) (buttons : MouseButton → Bool) (h : HeldKey) (rest : List HeldKey)
    → ((c : ℕ) → down c ≡ (h.target_key_code == c || has_target c rest))
    → replay
        (record { key_down = down; button_down = buttons })
        (if has_target h.target_key_code rest
          then []
          else InputCommand.key h.target_key_code false ∷ [])
      ≡ some (record { key_down = λ c. has_target c rest; button_down = buttons })
key_dropped down buttons h rest e = elim (Bool-cases (has_target h.target_key_code rest)) [
  | inl held ↦ rw held (
      ap some (
        desk_ext _ _ (λ c. ground (arith, e c, has_target_same true c h.target_key_code rest held))
          (λ b. refl)))
  | inr free ↦
      rw (free, e h.target_key_code, ==_refl h.target_key_code)
        (ap some (
          desk_ext _ _
            (λ c. ground (arith, e c, has_target_same false c h.target_key_code rest free))
            (λ b. refl)))
]

key_taken :
    (p : HeldKey → Bool) (s : PressedState) (r : Option (HeldKey × List HeldKey))
    → take_first p s.keys ≡ r
    → replay (desk_of s) (drop_key s r).1 ≡ some (desk_of (drop_key s r).0)
unfolding drop_key
key_taken p s none e = refl
key_taken p s (some (held, rest)) e =
    key_dropped (λ c. has_target c s.keys) (λ b. has_button b s.buttons) held rest
      (λ c. any-take_first p (λ k. k.target_key_code == c) s.keys held rest e)

pub key_released :
    (s : PressedState) (key_code code : ℕ) (extended : Bool)
    → replay (desk_of s) (apply_key s key_code code extended false).1
      ≡ some (desk_of (apply_key s key_code code extended false).0)
unfolding apply_key
key_released s key_code code extended = key_taken _ s _ refl

take_first_last :
    (p : HeldKey → Bool) (keys : List HeldKey) (h : HeldKey)
    → any p keys ≡ false
    → p h ≡ true
    → take_first p (keys ++ h ∷ []) ≡ some (h, keys)
unfolding take_first
take_first_last p [] h e hit = rw hit
take_first_last p (k ∷ keys) h e hit =
    let parts = ||_false (p k) (any p keys) e in
    rw (parts.0, take_first_last p keys h parts.1 hit) refl

key_press_fresh :
    (s : PressedState) (key_code code : ℕ) (extended : Bool)
    → has_source (from_event key_code code extended) s.keys ≡ false
    → apply_key s key_code code extended true ≡ (
      record s {
        keys =
            s.keys
            ++ record { source = from_event key_code code extended; target_key_code = key_code }
              ∷ [];
      },
      if has_target key_code s.keys then [] else InputCommand.key key_code true ∷ [],
    )
unfolding apply_key
key_press_fresh s key_code code extended fresh = rw fresh

key_release_last :
    (s : PressedState) (h : HeldKey) (later code : ℕ) (extended : Bool)
    → h.source ≡ from_event later code extended
    → has_source h.source s.keys ≡ false
    → apply_key (record s { keys = s.keys ++ h ∷ [] }) later code extended false ≡ (
      s,
      if has_target h.target_key_code s.keys
          then []
          else InputCommand.key h.target_key_code false ∷ [],
    )
unfolding apply_key drop_key
key_release_last s h later code extended e fresh = ap (drop_key _) (
    take_first_last _ s.keys h (subst (λ t. has_source t s.keys ≡ false) e fresh)
      ((source_beq_iff _ _).1 e))

from_event_scanned :
    (key_code later code : ℕ) (extended : Bool)
    → code ≢ 0
    → from_event key_code code extended ≡ from_event later code extended
unfolding from_event
from_event_scanned key_code later code extended h = ground arith

-- The press of a key whose scan code is not zero and not held, and then a release of that scan code,
-- whatever virtual key it names by then, give back the ledger of before the press; they press and
-- release the target of the press, or emit nothing where that target was down already.
pub press-release_frozen :
    (s : PressedState) (key_code later code : ℕ) (extended : Bool)
    → code ≢ 0
    → has_source (from_event key_code code extended) s.keys ≡ false
    → let pressed = apply_key s key_code code extended true in
      let released = apply_key pressed.0 later code extended false in
      (released.0 ≡ s)
      × (pressed.1
          ≡ (if has_target key_code s.keys then [] else InputCommand.key key_code true ∷ []))
      × (released.1
          ≡ (if has_target key_code s.keys then [] else InputCommand.key key_code false ∷ []))
press-release_frozen s key_code later code extended scanned fresh =
    rw
      (
        key_press_fresh s key_code code extended fresh,
        key_release_last s
            (record { source = from_event key_code code extended; target_key_code = key_code })
            later code extended (from_event_scanned key_code later code extended scanned) fresh,
      )
      (refl, refl, refl)
