-- ===== src/Input.antt =====
-- src-tauri/src/shared_input.rs: the commands that an injector is given, and the button masks of
-- the capture side. The frames written to the helper's pipe are not modelled.
use Prim.Native.Nat.{bit_and}
use mykvm.Base.{ℕ, Bool, true, not, Option, none, some, ◌≡◌, ◌↔◌, arith, ℤ, Eq, ◌==◌, if◌then◌else◌}

pub data MouseButton : Type 0 where
  left right middle back forward : MouseButton

pub data InputCommand : Type 0 where
  mouse_move : (x y : ℤ) (drag_button : Option MouseButton) → InputCommand
  mouse_button : (button : MouseButton) (down : Bool) (x y : ℤ) → InputCommand
  scroll : (delta_x delta_y : ℤ) → InputCommand
  key : (key_code : ℕ) (down : Bool) → InputCommand
  release_all : InputCommand
  secure_attention : InputCommand

abbrev pub button_index : MouseButton → ℕ
button_index left = 0
button_index right = 1
button_index middle = 2
button_index back = 3
button_index forward = 4

abbrev pub button_beq : MouseButton → MouseButton → Bool
button_beq a b = button_index a == button_index b

pub button_beq_iff : (a b : MouseButton) → (button_beq a b ≡ true) ↔ (a ≡ b)
button_beq_iff a b = ground arith

instance abbrev pub button_eq : Eq MouseButton
button_eq = record { beq = button_beq; beq_iff = button_beq_iff }

pub mouse_button_mask : MouseButton → ℕ
mouse_button_mask left = 1
mouse_button_mask right = 2
mouse_button_mask middle = 4
mouse_button_mask back = 8
mouse_button_mask forward = 16

pub button_from_mask : ℕ → Option MouseButton
button_from_mask mask =
    if not (bit_and mask 1 == 0)
    then some left
    else if not (bit_and mask 2 == 0)
    then some right
    else if not (bit_and mask 4 == 0)
    then some middle
    else none
