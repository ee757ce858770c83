-- ===== src/Pressed/Release.antt =====
-- The whole ledger of src-tauri/src/pressed_state.rs against the desk: `apply` and `release_all`.
use mathlib.Core.List.{reverse-cons}
use mykvm.Base.{
  ℕ, Bool, true, false, ◌≡◌, refl, sym, ap, some, List, [], ◌∷◌, ◌++◌, map, reverse, ℤ, ◌==◌,
  if◌then◌else◌, Bool-cases, inl, inr, ◌∙◌,
}
use mykvm.Input.{MouseButton, InputCommand, button_beq}
use mykvm.Protocol.Types.{CriticalEvent}
use mykvm.Pressed.{
  HeldKey, HeldButton, PressedState, empty, has_target, has_button, apply, from_critical,
  drain_keys, release_button, release_all, move_held, update_pointer,
}
use mykvm.Pressed.Held.{any-reverse, has_button-map}
use mykvm.Pressed.Desk.{Desk, all_up, replay, and_then, replay-append, desk_ext, desk_of}
use mykvm.Pressed.Distinct.{ButtonsDistinct, ButtonsDistinct-push, apply-ButtonsDistinct}
use mykvm.Pressed.Keys.{key_pressed, key_released, key_dropped}
use mykvm.Pressed.Buttons.{button_pressed, button_released, button_dropped}

-- Where no button stands twice in the ledger, every command that `apply` emits is a real change of the desk, a press of something up or a
-- release of something down, and after them the desk is the one that the new ledger stands for.
pub apply-desk :
    (s : PressedState) (e : CriticalEvent)
    → ButtonsDistinct s.buttons
    → replay (desk_of s) (apply s e).1 ≡ some (desk_of (apply s e).0)
unfolding apply
apply-desk s (CriticalEvent.key key_code code extended true) d =
    key_pressed s key_code code extended
apply-desk s (CriticalEvent.key key_code code extended false) d =
    key_released s key_code code extended
apply-desk s (CriticalEvent.button b true x y n) d = button_pressed s (from_critical b) x y
apply-desk s (CriticalEvent.button b false x y n) d = button_released s (from_critical b) x y d
apply-desk s (CriticalEvent.scroll dx dy x y n) d = refl

drain_keys-cons :
    (h : HeldKey) (keys : List HeldKey)
    → drain_keys (h ∷ keys)
      ≡ (if has_target h.target_key_code keys
          then []
          else InputCommand.key h.target_key_code false ∷ [])
        ++ drain_keys keys
unfolding drain_keys
drain_keys-cons h keys = elim (Bool-cases (has_target h.target_key_code keys)) [
  | inl e ↦ rw e
  | inr e ↦ rw e
]

keys_drained :
    (down : ℕ → Bool) (buttons : MouseButton → Bool) (keys : List HeldKey)
    → ((c : ℕ) → down c ≡ has_target c keys)
    → replay (record { key_down = down; button_down = buttons }) (drain_keys keys)
      ≡ some (record { key_down = λ c. false; button_down = buttons })
unfolding drain_keys
keys_drained down buttons [] e = ap some (desk_ext _ _ e (λ b. refl))
keys_drained down buttons (h ∷ keys) e =
    ap (replay before) (drain_keys-cons h keys)
    ∙ replay-append before
        (if has_target h.target_key_code keys
          then []
          else InputCommand.key h.target_key_code false ∷ [])
        (drain_keys keys)
    ∙ ap (λ r. and_then r (λ d. replay d (drain_keys keys))) (key_dropped down buttons h keys e)
    ∙ keys_drained (λ c. has_target c keys) buttons keys (λ c. refl)
  where
    before : Desk
    before = record { key_down = down; button_down = buttons }

buttons_drained :
    (keys : ℕ → Bool) (down : MouseButton → Bool) (held : List HeldButton)
    → ((c : MouseButton) → down c ≡ has_button c held)
    → ButtonsDistinct held
    → replay (record { key_down = keys; button_down = down }) (map release_button held)
      ≡ some (record { key_down = keys; button_down = λ b. false })
buttons_drained keys down [] e d = ap some (desk_ext _ _ (λ c. refl) e)
buttons_drained keys down (h ∷ held) e d =
    replay-append (record { key_down = keys; button_down = down }) (release_button h ∷ [])
      (map release_button held)
    ∙ ap (λ r. and_then r (λ d. replay d (map release_button held)))
        (button_dropped keys down h.button held h.x h.y e d.0)
    ∙ buttons_drained keys (λ c. has_button c held) held (λ c. refl) d.1

ButtonsDistinct-reverse :
    (held : List HeldButton) → ButtonsDistinct held → ButtonsDistinct (reverse held)
ButtonsDistinct-reverse [] d = tt
ButtonsDistinct-reverse (h ∷ held) d = rw (reverse-cons h held) (
    ButtonsDistinct-push h (reverse held) (ButtonsDistinct-reverse held d.1)
      (any-reverse (λ j. button_beq j.button h.button) held ∙ d.0))

-- Where no button stands twice in the ledger, after `release_all` no key and no button is down, and each command was a real release; the ledger
-- is empty.
pub release_all-desk :
    (s : PressedState)
    → ButtonsDistinct s.buttons
    → (replay (desk_of s) (release_all s).1 ≡ some all_up) × ((release_all s).0 ≡ empty)
unfolding release_all
release_all-desk s d = (
  replay-append (desk_of s) (drain_keys (reverse s.keys)) _
      ∙ ap (λ r. and_then r (λ d. replay d (map release_button (reverse s.buttons))))
          (keys_drained _ _ (reverse s.keys)
            (λ c. sym (any-reverse (λ k. k.target_key_code == c) s.keys)))
      ∙ buttons_drained _ _ (reverse s.buttons)
          (λ c. sym (any-reverse (λ k. button_beq k.button c) s.buttons))
          (ButtonsDistinct-reverse s.buttons d),
  refl,
)

-- What a receiver does to its ledger between two releases of everything.
pub data Change : Type 0 where
  event : CriticalEvent → Change
  pointer : (x y : ℤ) → Change

pub change : PressedState → Change → PressedState × List InputCommand
unfolding update_pointer
change s (event e) = apply s e
change s (pointer x y) = (update_pointer s x y, [])

pub changes : PressedState → List Change → PressedState × List InputCommand
changes s [] = (s, [])
changes s (c ∷ cs) =
    let first = change s c in let rest = changes first.0 cs in (rest.0, first.1 ++ rest.1)

pub ButtonsDistinct-map :
    (x y : ℤ) (held : List HeldButton)
    → ButtonsDistinct held
    → ButtonsDistinct (map (move_held x y) held)
ButtonsDistinct-map x y [] d = tt
ButtonsDistinct-map x y (h ∷ held) d =
    (has_button-map h.button x y held ∙ d.0, ButtonsDistinct-map x y held d.1)

change-desk :
    (s : PressedState) (c : Change)
    → ButtonsDistinct s.buttons
    → (replay (desk_of s) (change s c).1 ≡ some (desk_of (change s c).0))
      × ButtonsDistinct (change s c).0.buttons
unfolding change
change-desk s (event e) d = (apply-desk s e d, apply-ButtonsDistinct s e d)
change-desk s (pointer x y) d = (
  ap some (desk_ext _ _ (λ c. refl) (λ b. sym (has_button-map b x y s.buttons))),
  ButtonsDistinct-map x y s.buttons d,
)

changes-desk :
    (s : PressedState) (cs : List Change)
    → ButtonsDistinct s.buttons
    → (replay (desk_of s) (changes s cs).1 ≡ some (desk_of (changes s cs).0))
      × ButtonsDistinct (changes s cs).0.buttons
unfolding changes
changes-desk s [] d = (refl, d)
changes-desk s (c ∷ cs) d =
    let now = change-desk s c d in
    let later = changes-desk (change s c).0 cs now.1 in
    (
      replay-append (desk_of s) (change s c).1 _
          ∙ ap (λ r. and_then r (λ e. replay e (changes (change s c).0 cs).1)) now.0
          ∙ later.0,
      later.1,
    )

-- From an empty ledger, whatever events and pointer moves come, all their commands and then those
-- of `release_all` are real presses and releases, and leave no key and no button down.
pub release_all-changes :
    (cs : List Change)
    → let s = (changes empty cs).0 in
      replay all_up ((changes empty cs).1 ++ (release_all s).1) ≡ some all_up
release_all-changes cs =
    let run = changes-desk empty cs tt in
    replay-append all_up (changes empty cs).1 _
    ∙ ap (λ r. and_then r (λ e. replay e (release_all (changes empty cs).0).1)) run.0
    ∙ (release_all-desk (changes empty cs).0 run.1).0
