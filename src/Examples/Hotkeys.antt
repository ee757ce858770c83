-- ===== src/Examples/Hotkeys.antt =====
-- Concrete hotkeys (src-tauri/src/game_mode.rs).
use mykvm.Base.{◌<◌, ◌≡◌, refl, true, false, none, some, List, [], ◌∷◌, arith, inl, inr}
use mykvm.Routing.Gate.{is_local, with_local}
use mykvm.GameMode.{go_mac, go_local, emergency_local, Hotkeys, dispatch_control_hotkey}
use mykvm.GameMode.Presses.{
  KeyEvent, dispatch_all, repeats-ignored, local_press_cancels, offered, urgency, most,
  urgency-offered,
}

abbrev at_rest : Hotkeys
at_rest = record { deduper = 0; pending = none; local_override = 1 }

abbrev others : List KeyEvent
others =
    record { locked = false; action = go_mac; pressed = true }
    ∷ record { locked = false; action = go_local; pressed = true }
    ∷ record { locked = false; action = go_mac; pressed = false }
    ∷ []

repeats-ignored_example :
    let s = dispatch_all (dispatch_control_hotkey true at_rest go_local true).0 others in
    dispatch_control_hotkey false s go_local true ≡ (s, false)
repeats-ignored_example =
    repeats-ignored true false at_rest go_local others (inl refl, (inl refl, (inr refl, tt)))

local_press_cancels_example :
    let gate = (dispatch_control_hotkey true at_rest emergency_local true).0.local_override in
    (is_local gate ≡ true) × (1 < with_local gate)
local_press_cancels_example =
    local_press_cancels true at_rest emergency_local 1 (omega arith) refl refl (omega arith)
      (omega arith)

urgency-offered_example :
    urgency (offered (some go_mac) (emergency_local ∷ go_local ∷ []))
    ≡ most (urgency (some go_mac)) (emergency_local ∷ go_local ∷ [])
urgency-offered_example = urgency-offered (some go_mac) (emergency_local ∷ go_local ∷ [])
