-- ===== src/GameMode.antt =====
-- The hotkeys of src-tauri/src/game_mode.rs: no repeats, one slot for the actor, and the shared gate of
-- src-tauri/src/routing.rs. An `AtomicU8` is a number, its bits read by division. That a `try_lock` finds the
-- slot taken is an argument.
pub mod Presses
use mykvm.Base.{
  ℕ, ◌+◌, ◌-◌, ◌/◌, ◌%◌, Bool, true, false, not, Option, none, some, ◌==◌, leb, if◌then◌else◌,
}
use mykvm.Routing.Gate.{request_local}

pub data ControlHotkeyAction : Type 0 where
  go_mac go_local emergency_local : ControlHotkeyAction

abbrev pub bit : ControlHotkeyAction → ℕ
bit go_mac = 1
bit go_local = 2
bit emergency_local = 4

abbrev pub priority : ControlHotkeyAction → ℕ
priority go_mac = 1
priority go_local = 2
priority emergency_local = 3

-- `HotkeyDeduper`, an atomic set of bits.
abbrev pub HotkeyDeduper : Type 0
HotkeyDeduper = ℕ

abbrev pub is_set : HotkeyDeduper → ControlHotkeyAction → Bool
is_set bits action = (bits / bit action) % 2 == 1

-- `fetch_or` of one bit, and whether it was clear before.
unfoldable pub press : HotkeyDeduper → ControlHotkeyAction → HotkeyDeduper × Bool
press bits action = if is_set bits action then (bits, false) else (bits + bit action, true)

-- `fetch_and` with all bits but one.
unfoldable pub release : HotkeyDeduper → ControlHotkeyAction → HotkeyDeduper
release bits action = if is_set bits action then bits - bit action else bits

-- `ControlActionSlot`, what its mutex guards.
abbrev pub ControlActionSlot : Type 0
ControlActionSlot = Option ControlHotkeyAction

abbrev outranks : ControlHotkeyAction → ControlActionSlot → Bool
outranks action none = true
outranks action (some current) = leb (priority current) (priority action)

unfoldable pub offer :
    (locked : Bool) → ControlActionSlot → ControlHotkeyAction → ControlActionSlot × Bool
offer true pending action = (pending, false)
offer false pending action = (if outranks action pending then some action else pending, true)

unfoldable pub take :
    (locked : Bool) → ControlActionSlot → ControlActionSlot × Option ControlHotkeyAction
take true pending = (pending, none)
take false pending = (none, pending)

-- What `dispatch_control_hotkey` is given by reference.
pub record Hotkeys : Type 0 where
  pub deduper : HotkeyDeduper
  pub pending : ControlActionSlot
  pub local_override : ℕ

abbrev asks_local : ControlHotkeyAction → Bool
asks_local go_mac = false
asks_local go_local = true
asks_local emergency_local = true

-- The rest of a press that is not a repeat.
abbrev fire : (locked : Bool) → ControlHotkeyAction → Hotkeys → Hotkeys × Bool
fire locked action s =
    let offered = offer locked s.pending action in
    (
      record s {
        pending = offered.0;
        local_override =
            if asks_local action then request_local s.local_override else s.local_override;
      },
      offered.1,
    )

unfoldable pub dispatch_control_hotkey :
    (locked : Bool) → Hotkeys → ControlHotkeyAction → (pressed : Bool) → Hotkeys × Bool
unfolding press release offer
dispatch_control_hotkey locked s action false =
    (record s { deduper = release s.deduper action }, false)
dispatch_control_hotkey locked s action true =
    let pressing = press s.deduper action in
    let s' = record s { deduper = pressing.0 } in
    if pressing.1 then fire locked action s' else (s', false)
