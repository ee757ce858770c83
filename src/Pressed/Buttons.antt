-- ===== src/Pressed/Buttons.antt =====
-- Buttons of src-tauri/src/pressed_state.rs against the desk: presses and releases.
use mykvm.Base.{
  ℕ, Bool, true, false, ◌||◌, ◌≡◌, refl, sym, ap, subst, some, List, [], ◌∷◌, ◌++◌, arith, ℤ,
  if◌then◌else◌, Bool-cases, Option-cases, inl, inr, ◌∙◌,
}
use mykvm.Input.{MouseButton, InputCommand, button_beq, button_beq_iff}
use mykvm.Pressed.{HeldButton, PressedState, has_target, has_button, take_first, apply_button}
use mykvm.Pressed.Held.{any-append, take_first-found, any-take_first, has_button-move_first}
use mykvm.Pressed.Desk.{replay, desk_ext, desk_of}
use mykvm.Pressed.Distinct.{ButtonsDistinct, ButtonsDistinct-take_first}

has_button_same :
    (b : Bool) (c d : MouseButton) (held : List HeldButton)
    → has_button d held ≡ b
    → (if button_beq c d then b else has_button c held) ≡ has_button c held
has_button_same b c d held e = elim (Bool-cases (button_beq c d)) [
  | inl same ↦ rw same (sym e ∙ ap (λ t. has_button t held) (sym ((button_beq_iff c d).0 same)))
  | inr other ↦ rw other
]

has_button-push :
    (c : MouseButton) (h : HeldButton) (held : List HeldButton)
    → (if button_beq c h.button then true else has_button c held) ≡ has_button c (held ++ h ∷ [])
has_button-push c h held = rw (any-append (λ k. button_beq k.button c) held) (ground arith)

pub button_pressed :
    (s : PressedState) (b : MouseButton) (x y : ℤ)
    → replay (desk_of s) (apply_button s b true x y).1
      ≡ some (desk_of (apply_button s b true x y).0)
unfolding apply_button
button_pressed s b x y = elim (Bool-cases (has_button b s.buttons)) [
  | inl held ↦
      rw held
        (ap some (desk_ext _ _ (λ c. refl) (λ c. sym (has_button-move_first c b x y s.buttons))))
  | inr fresh ↦
      rw fresh (rw fresh (ap some (desk_ext _ _ (λ c. refl) (λ c. has_button-push c _ s.buttons))))
]

-- A button that no other entry holds leaves the ledger, and goes up.
pub button_dropped :
    (keys : ℕ → Bool) (down : MouseButton → Bool) (b : MouseButton) (rest : List HeldButton)
    (x y : ℤ)
    → ((c : MouseButton) → down c ≡ (button_beq b c || has_button c rest))
    → has_button b rest ≡ false
    → replay
        (record { key_down = keys; button_down = down })
        (InputCommand.mouse_button b false x y ∷ [])
      ≡ some (record { key_down = keys; button_down = λ c. has_button c rest })
button_dropped keys down b rest x y e free =
    rw (e b, (button_beq_iff b b).1 refl)
      (ap some
        (desk_ext _ _ (λ c. refl) (λ c. ground (arith, e c, has_button_same false c b rest free))))

pub button_released :
    (s : PressedState) (b : MouseButton) (x y : ℤ)
    → ButtonsDistinct s.buttons
    → replay (desk_of s) (apply_button s b false x y).1
      ≡ some (desk_of (apply_button s b false x y).0)
unfolding apply_button
button_released s b x y d = elim (Option-cases (take_first by_button s.buttons)) [
  | inl e ↦ rw (e, apply_button) refl
  | inr (r, e) ↦
      let same = (button_beq_iff r.0.button b).0 (take_first-found by_button s.buttons r.0 r.1 e) in
      rw (e, apply_button)
        (button_dropped (λ c. has_target c s.keys) (λ c. has_button c s.buttons) b r.1 x y
          (λ c.
            subst (λ t. has_button c s.buttons ≡ (button_beq t c || has_button c r.1)) same
              (any-take_first by_button (λ k. button_beq k.button c) s.buttons r.0 r.1 e))
          (ButtonsDistinct-take_first b s.buttons r.0 r.1 d e).0)
]
  where
    by_button : HeldButton → Bool
    by_button held = button_beq held.button b
