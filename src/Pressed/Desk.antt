-- ===== src/Pressed/Desk.antt =====
-- What the commands of src-tauri/src/shared_input.rs do to the keys and buttons of the machine that
-- they are injected into: an independent description, with no list of sources.
use mykvm.Base.{
  ℕ, Bool, true, false, not, ◌≡◌, refl, Option, none, some, List, [], ◌∷◌, ◌++◌, ◌==◌,
  if◌then◌else◌, Option-cases, inl, inr,
}
use mykvm.Input.{MouseButton, InputCommand, button_beq}
use mykvm.Pressed.{PressedState, has_target, has_button}

pub record Desk : Type 0 where
  pub key_down : ℕ → Bool
  pub button_down : MouseButton → Bool

abbrev pub all_up : Desk
all_up = record { key_down = λ c. false; button_down = λ b. false }

abbrev pub set_key : Desk → ℕ → Bool → Desk
set_key d code down = record d { key_down = λ c. if c == code then down else d.key_down c }

abbrev pub set_button : Desk → MouseButton → Bool → Desk
set_button d b down = record d {
  button_down = λ c. if button_beq c b then down else d.button_down c;
}

abbrev pub differ : Bool → Bool → Bool
differ true b = not b
differ false b = b

-- A press of what is already down, or a release of what is up, is a fault.
abbrev pub press : Desk → InputCommand → Option Desk
press d (InputCommand.mouse_move x y drag_button) = some d
press d (InputCommand.mouse_button b down x y) =
    if differ (d.button_down b) down then some (set_button d b down) else none
press d (InputCommand.scroll delta_x delta_y) = some d
press d (InputCommand.key code down) =
    if differ (d.key_down code) down then some (set_key d code down) else none
press d InputCommand.release_all = some all_up
press d InputCommand.secure_attention = some d

abbrev pub and_then : Option Desk → (Desk → Option Desk) → Option Desk
and_then none f = none
and_then (some d) f = f d

abbrev pub replay : Desk → List InputCommand → Option Desk
replay d [] = some d
replay d (c ∷ cs) = and_then (press d c) (λ e. replay e cs)

pub replay-append :
    (d : Desk) (cs ds : List InputCommand)
    → replay d (cs ++ ds) ≡ and_then (replay d cs) (λ e. replay e ds)
replay-append d [] ds = refl
replay-append d (c ∷ cs) ds = elim (Option-cases (press d c)) [
  | inl e ↦ rw (e, and_then)
  | inr (e, h) ↦ rw (h, and_then) (replay-append e cs ds)
]

pub desk_ext :
    (d e : Desk)
    → ((c : ℕ) → d.key_down c ≡ e.key_down c)
    → ((b : MouseButton) → d.button_down b ≡ e.button_down b)
    → d ≡ e
desk_ext d e keys buttons = λ i. record { key_down = λ c. keys c i; button_down = λ b. buttons b i }

-- The desk that a ledger stands for: a key is down when some source holds it.
abbrev pub desk_of : PressedState → Desk
desk_of s = record {
  key_down = λ c. has_target c s.keys;
  button_down = λ b. has_button b s.buttons;
}
