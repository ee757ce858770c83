-- ===== src/Pressed/Distinct.antt =====
-- No button stands twice in the ledger of src-tauri/src/pressed_state.rs.
use mykvm.Base.{
  ℕ, Bool, true, false, ◌≡◌, refl, sym, ap, subst, some, List, [], ◌∷◌, ◌++◌, arith, ℤ, Bool-cases,
  Option-cases, inl, inr,
}
use mykvm.Input.{MouseButton, button_beq, button_beq_iff}
use mykvm.Protocol.Types.{CriticalEvent}
use mykvm.Pressed.{
  HeldButton, PressedState, has_button, take_first, apply_key, drop_key, apply_button, apply,
  from_critical, move_first,
}
use mykvm.Pressed.Held.{any-append, any-take_first, has_button-move_first}

-- No button is held twice.
abbrev pub ButtonsDistinct : List HeldButton → Type 0
ButtonsDistinct [] = Unit {0}
ButtonsDistinct (h ∷ held) = (has_button h.button held ≡ false) × ButtonsDistinct held

-- Taking the entry of a button leaves none of it, where none is held twice.
pub ButtonsDistinct-take_first :
    (b : MouseButton) (held : List HeldButton) (h : HeldButton) (rest : List HeldButton)
    → ButtonsDistinct held
    → take_first (λ k. button_beq k.button b) held ≡ some (h, rest)
    → (has_button b rest ≡ false) × ButtonsDistinct rest
unfolding take_first
ButtonsDistinct-take_first b [] h rest d e = cc
ButtonsDistinct-take_first b (k ∷ held) h rest d e = elim (Bool-cases (button_beq k.button b)) [
  | inl hit ↦ ground (arith, ap (λ t. has_button t held) ((button_beq_iff k.button b).0 hit))
  | inr miss ↦ elim (Option-cases (take_first (λ j. button_beq j.button b) held)) [
    | inl e' ↦ ground arith
    | inr (r, e') ↦ ground (
      arith,
      ButtonsDistinct-take_first b held r.0 r.1 d.1,
      any-take_first (λ j. button_beq j.button b) (λ j. button_beq j.button k.button) held r.0 r.1
          e',
    )
  ]
]

-- Pressing and releasing keep the buttons distinct.
ButtonsDistinct-move_first :
    (b : MouseButton) (x y : ℤ) (held : List HeldButton)
    → ButtonsDistinct held
    → ButtonsDistinct (move_first b x y held)
unfolding move_first
ButtonsDistinct-move_first b x y [] d = tt
ButtonsDistinct-move_first b x y (h ∷ held) d =
    ground
      (arith, has_button-move_first h.button b x y held, ButtonsDistinct-move_first b x y held d.1)

pub ButtonsDistinct-push :
    (h : HeldButton) (held : List HeldButton)
    → ButtonsDistinct held
    → has_button h.button held ≡ false
    → ButtonsDistinct (held ++ h ∷ [])
ButtonsDistinct-push h [] d fresh = (refl, tt)
ButtonsDistinct-push h (k ∷ held) d fresh = ground (
  arith,
  any-append (λ j. button_beq j.button k.button) held (h ∷ []),
  ButtonsDistinct-push h held d.1,
)

button_taken :
    (s : PressedState) (b : MouseButton) (x y : ℤ)
    → ButtonsDistinct s.buttons
    → ButtonsDistinct (apply_button s b false x y).0.buttons
unfolding apply_button
button_taken s b x y d = elim (Option-cases (take_first (λ h. button_beq h.button b) s.buttons)) [
  | inl e ↦ rw (e, apply_button) d
  | inr (r, e) ↦ rw (e, apply_button) (ButtonsDistinct-take_first b s.buttons r.0 r.1 d e).1
]

button_added :
    (s : PressedState) (b : MouseButton) (x y : ℤ)
    → ButtonsDistinct s.buttons
    → ButtonsDistinct (apply_button s b true x y).0.buttons
unfolding apply_button
button_added s b x y d = elim (Bool-cases (has_button b s.buttons)) [
  | inl held ↦ rw held (ButtonsDistinct-move_first b x y s.buttons d)
  | inr fresh ↦ rw fresh (ButtonsDistinct-push _ s.buttons d fresh)
]

key_buttons :
    (s : PressedState) (key_code code : ℕ) (extended down : Bool)
    → (apply_key s key_code code extended down).0.buttons ≡ s.buttons
unfolding apply_key drop_key
key_buttons s key_code code extended true = ground arith
key_buttons s key_code code extended false = ground arith

pub apply-ButtonsDistinct :
    (s : PressedState) (e : CriticalEvent)
    → ButtonsDistinct s.buttons
    → ButtonsDistinct (apply s e).0.buttons
unfolding apply
apply-ButtonsDistinct s (CriticalEvent.key key_code code extended down) d =
    subst ButtonsDistinct (sym (key_buttons s key_code code extended down)) d
apply-ButtonsDistinct s (CriticalEvent.button b true x y n) d =
    button_added s (from_critical b) x y d
apply-ButtonsDistinct s (CriticalEvent.button b false x y n) d =
    button_taken s (from_critical b) x y d
apply-ButtonsDistinct s (CriticalEvent.scroll dx dy x y n) d = d
