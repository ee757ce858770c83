-- ===== src/Examples/Keys.antt =====
-- Concrete runs of the ledger of held keys and buttons (src-tauri/src/pressed_state.rs).
use mykvm.Base.{◌≡◌, refl, true, false, some, List, [], ◌∷◌, ◌++◌, arith, pos, if◌then◌else◌}
use mykvm.Input.{MouseButton, InputCommand}
use mykvm.Protocol.Types.{CriticalEvent, CriticalButton}
use mykvm.Pressed.{
  PressedState, KeySource, empty, has_target, has_source, from_event, apply, apply_key, release_all,
}
use mykvm.Pressed.Desk.{all_up, replay, desk_of}
use mykvm.Pressed.Keys.{press-release_frozen}
use mykvm.Pressed.Release.{Change, changes, apply-desk, release_all-desk, release_all-changes}

-- Two scan codes that end up on one key, and a button that is dragged.
abbrev session : List Change
session =
    Change.event (CriticalEvent.key 65 30 false true)
    ∷ Change.event (CriticalEvent.key 65 31 false true)
    ∷ Change.event (CriticalEvent.button CriticalButton.left true (pos 3) (pos 4) 1)
    ∷ Change.pointer (pos 8) (pos 9)
    ∷ Change.event (CriticalEvent.key 65 30 false false)
    ∷ []

release_all-changes_example :
    replay all_up ((changes empty session).1 ++ (release_all (changes empty session).0).1)
    ≡ some all_up
release_all-changes_example = release_all-changes session

abbrev held : PressedState
held = record {
  keys = record { source = KeySource.scan_code 30 false; target_key_code = 65 } ∷ [];
  buttons = record { button = MouseButton.left; x = pos 3; y = pos 4 } ∷ [];
}

apply-desk_example :
    replay (desk_of held) (apply held (CriticalEvent.key 65 30 false false)).1
    ≡ some (desk_of (apply held (CriticalEvent.key 65 30 false false)).0)
apply-desk_example = apply-desk held (CriticalEvent.key 65 30 false false) (refl, tt)

release_all-desk_example :
    (replay (desk_of held) (release_all held).1 ≡ some all_up) × ((release_all held).0 ≡ empty)
release_all-desk_example = release_all-desk held (refl, tt)

other_key : has_source (from_event 66 31 false) held.keys ≡ false
unfolding from_event
other_key = refl

press-release_frozen_example :
    let pressed = apply_key held 66 31 false true in
    let released = apply_key pressed.0 70 31 false false in
    (released.0 ≡ held)
    × (pressed.1 ≡ (if has_target 66 held.keys then [] else InputCommand.key 66 true ∷ []))
    × (released.1 ≡ (if has_target 66 held.keys then [] else InputCommand.key 66 false ∷ []))
press-release_frozen_example =
    press-release_frozen held 66 70 31 false (λ e. omega (arith, e)) other_key
