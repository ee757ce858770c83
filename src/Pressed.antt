-- ===== src/Pressed.antt =====
-- src-tauri/src/pressed_state.rs: the keys and buttons that a session holds down. A `Vec` is a list,
-- its last element at the end.
pub mod Desk
pub mod Held
pub mod Keys
pub mod Distinct
pub mod Buttons
pub mod Release
use mykvm.Base.{
  ℕ, Bool, true, false, ◌&&◌, ◌≡◌, ◌↔◌, Option, none, some, List, [], ◌∷◌, ◌++◌, map, reverse,
  arith, ℤ, Eq, ◌==◌, if◌then◌else◌, any, find, is_nil,
}
use mykvm.Input.{MouseButton, left, right, middle, InputCommand, button_beq}
use mykvm.Protocol.Types.{CriticalButton, CriticalEvent}

pub data KeySource : Type 0 where
  scan_code : (scan_code : ℕ) (extended : Bool) → KeySource
  virtual_key : ℕ → KeySource

abbrev bool_beq : Bool → Bool → Bool
bool_beq true b = b
bool_beq false true = false
bool_beq false false = true

abbrev pub source_beq : KeySource → KeySource → Bool
source_beq (scan_code a x) (scan_code b y) = a == b && bool_beq x y
source_beq (scan_code a x) (virtual_key b) = false
source_beq (virtual_key a) (scan_code b y) = false
source_beq (virtual_key a) (virtual_key b) = a == b

pub source_beq_iff : (a b : KeySource) → (source_beq a b ≡ true) ↔ (a ≡ b)
source_beq_iff a b = ground arith

unfoldable pub from_event : ℕ → ℕ → Bool → KeySource
from_event key_code code extended =
    if code == 0 then virtual_key key_code else scan_code code extended

pub record HeldKey : Type 0 where
  pub source : KeySource
  pub target_key_code : ℕ

pub record HeldButton : Type 0 where
  pub button : MouseButton
  pub x : ℤ
  pub y : ℤ

pub record PressedState : Type 0 where
  pub keys : List HeldKey
  pub buttons : List HeldButton

abbrev pub empty : PressedState
empty = record { keys = []; buttons = [] }

unfoldable pub is_empty : PressedState → Bool
is_empty s = is_nil s.keys && is_nil s.buttons

abbrev pub has_source : KeySource → List HeldKey → Bool
has_source source = any (λ held. source_beq held.source source)

abbrev pub has_target : ℕ → List HeldKey → Bool
has_target code = any (λ held. held.target_key_code == code)

abbrev pub has_button : MouseButton → List HeldButton → Bool
has_button button = any (λ held. button_beq held.button button)

unfoldable pub drag_button : PressedState → Option MouseButton
drag_button s = find (λ b. has_button b s.buttons) (left ∷ right ∷ middle ∷ [])

abbrev pub move_held : ℤ → ℤ → HeldButton → HeldButton
move_held x y held = record held { x = x; y = y }

unfoldable pub update_pointer : PressedState → ℤ → ℤ → PressedState
update_pointer s x y = record s { buttons = map (move_held x y) s.buttons }

-- `position` by a test and then `remove` of that index: the element found and what is left.
pub take_first {ℓ} : {A : Type ℓ} → (A → Bool) → List A → Option (A × List A)
take_first p [] = none
take_first p (a ∷ rest) =
    if p a
    then some (a, rest)
    else elim (take_first p rest) [ none ↦ none | some (b, others) ↦ some (b, a ∷ others) ]

abbrev Applied : Type 0
Applied = PressedState × List InputCommand

-- The rest of a key's release, by what `position` found.
pub drop_key : PressedState → Option (HeldKey × List HeldKey) → Applied
drop_key s none = (s, [])
drop_key s (some (held, rest)) = (
  record s { keys = rest },
  if has_target held.target_key_code rest
      then []
      else InputCommand.key held.target_key_code false ∷ [],
)

pub apply_key : PressedState → ℕ → ℕ → Bool → Bool → Applied
apply_key s key_code code extended true =
    let source = from_event key_code code extended in
    if has_source source s.keys then (s, []) else (
      record s { keys = s.keys ++ record { source = source; target_key_code = key_code } ∷ [] },
      if has_target key_code s.keys then [] else InputCommand.key key_code true ∷ [],
    )
apply_key s key_code code extended false =
    drop_key s
      (take_first (λ held. source_beq held.source (from_event key_code code extended)) s.keys)

-- `iter_mut().find(..)` and the two assignments: the first match is moved.
pub move_first : MouseButton → ℤ → ℤ → List HeldButton → List HeldButton
move_first b x y [] = []
move_first b x y (held ∷ rest) =
    if button_beq held.button b then move_held x y held ∷ rest else held ∷ move_first b x y rest

pub apply_button : PressedState → MouseButton → Bool → ℤ → ℤ → Applied
apply_button s b true x y =
    if has_button b s.buttons then (record s { buttons = move_first b x y s.buttons }, []) else (
      record s { buttons = s.buttons ++ record { button = b; x = x; y = y } ∷ [] },
      InputCommand.mouse_button b true x y ∷ [],
    )
apply_button s b false x y = elim (take_first (λ held. button_beq held.button b) s.buttons) [
  | none ↦ (s, [])
  | some (held, rest) ↦ (record s { buttons = rest }, InputCommand.mouse_button b false x y ∷ [])
]

pub from_critical : CriticalButton → MouseButton
from_critical CriticalButton.left = MouseButton.left
from_critical CriticalButton.right = MouseButton.right
from_critical CriticalButton.middle = MouseButton.middle
from_critical CriticalButton.back = MouseButton.back
from_critical CriticalButton.forward = MouseButton.forward

pub apply : PressedState → CriticalEvent → Applied
apply s (CriticalEvent.key key_code code extended down) = apply_key s key_code code extended down
apply s (CriticalEvent.button b down x y motion_sequence) =
    apply_button s (from_critical b) down x y
apply s (CriticalEvent.scroll delta_x delta_y x y motion_sequence) =
    (s, InputCommand.scroll delta_x delta_y ∷ [])

-- The loop that pops the keys, over the list turned round: its head is the next one popped.
unfoldable pub drain_keys : List HeldKey → List InputCommand
drain_keys [] = []
drain_keys (held ∷ rest) =
    let more = drain_keys rest in
    if has_target held.target_key_code rest
    then more
    else InputCommand.key held.target_key_code false ∷ more

abbrev pub release_button : HeldButton → InputCommand
release_button held = InputCommand.mouse_button held.button false held.x held.y

unfoldable pub release_all : PressedState → Applied
release_all s = (empty, drain_keys (reverse s.keys) ++ map release_button (reverse s.buttons))
