-- ===== src/GameMode/Presses.antt =====
-- What the hotkeys of src-tauri/src/game_mode.rs do over a history of presses and releases.
use mykvm.Base.{
  ℕ, ◌<◌, ◌≤◌, ltb, u64_max, if◌then◌else◌, ap, ◌∙◌, ◌≡◌, refl, Bool, true, false, Option, none,
  some, List, [], ◌∷◌, arith, ◌==◌, Bool-cases, inl, inr, ◌⊎◌, Bool,
}
use mykvm.Routing.Gate.{is_local, with_local}
use mykvm.Routing.Order.{IsWord, request_local_closes, request_local_passes}
use mykvm.GameMode.{
  ControlHotkeyAction, go_mac, go_local, emergency_local, bit, priority, is_set, press, release,
  offer, Hotkeys, dispatch_control_hotkey,
}

-- One event of the keyboard hook: whether it finds the slot taken, the hotkey, press or release.
pub record KeyEvent : Type 0 where
  pub locked : Bool
  pub action : ControlHotkeyAction
  pub pressed : Bool

pub dispatch_all : Hotkeys → List KeyEvent → Hotkeys
dispatch_all s [] = s
dispatch_all s (e ∷ es) = dispatch_all (dispatch_control_hotkey e.locked s e.action e.pressed).0 es

abbrev same : ControlHotkeyAction → ControlHotkeyAction → Bool
same a b = bit a == bit b

-- No release of this hotkey is among the events.
abbrev pub Kept : ControlHotkeyAction → List KeyEvent → Type 0
Kept a [] = Unit {0}
Kept a (e ∷ es) = ((e.pressed ≡ true) ⊎ (same e.action a ≡ false)) × Kept a es

press_sets :
    (bits : ℕ) (a b : ControlHotkeyAction) → is_set bits a ≡ true → is_set (press bits b).0 a ≡ true
unfolding press
press_sets bits a b h = ground arith

release_keeps :
    (bits : ℕ) (a b : ControlHotkeyAction)
    → same b a ≡ false
    → is_set bits a ≡ true
    → is_set (release bits b) a ≡ true
unfolding release
release_keeps bits a b other h = ground arith

dispatch_keeps :
    (s : Hotkeys) (e : KeyEvent) (a : ControlHotkeyAction)
    → (e.pressed ≡ true) ⊎ (same e.action a ≡ false)
    → is_set s.deduper a ≡ true
    → is_set (dispatch_control_hotkey e.locked s e.action e.pressed).0.deduper a ≡ true
unfolding dispatch_control_hotkey
dispatch_keeps s e a kept h = elim (Bool-cases e.pressed) [
  | inl down ↦ elim (Bool-cases (press s.deduper e.action).1) [
    | inl new ↦ rw (down, new, dispatch_control_hotkey) (press_sets s.deduper a e.action h)
    | inr repeat ↦ rw (down, repeat, dispatch_control_hotkey) (press_sets s.deduper a e.action h)
  ]
  | inr up ↦
      rw (up, dispatch_control_hotkey) (release_keeps s.deduper a e.action (ground (arith, kept)) h)
]

all_keeps :
    (s : Hotkeys) (es : List KeyEvent) (a : ControlHotkeyAction)
    → Kept a es
    → is_set s.deduper a ≡ true
    → is_set (dispatch_all s es).deduper a ≡ true
unfolding dispatch_all
all_keeps s [] a kept h = h
all_keeps s (e ∷ es) a kept h =
    all_keeps (dispatch_control_hotkey e.locked s e.action e.pressed).0 es a kept.1
      (dispatch_keeps s e a kept.0 h)

repeat_ignored :
    (locked : Bool) (s : Hotkeys) (a : ControlHotkeyAction)
    → is_set s.deduper a ≡ true
    → dispatch_control_hotkey locked s a true ≡ (s, false)
unfolding dispatch_control_hotkey press
repeat_ignored locked s a h = rw h refl

press_held :
    (locked : Bool) (s : Hotkeys) (a : ControlHotkeyAction)
    → is_set (dispatch_control_hotkey locked s a true).0.deduper a ≡ true
unfolding dispatch_control_hotkey press
press_held locked s a = ground arith

-- After a hotkey is pressed, and until it is released, whatever the other hotkeys do, pressing it
-- again changes nothing and queues nothing.
pub repeats-ignored :
    (before after : Bool) (s : Hotkeys) (a : ControlHotkeyAction) (es : List KeyEvent)
    → Kept a es
    → let s' = dispatch_all (dispatch_control_hotkey before s a true).0 es in
      dispatch_control_hotkey after s' a true ≡ (s', false)
repeats-ignored before after s a es kept =
    repeat_ignored after _ a (all_keeps _ es a kept (press_held before s a))

-- A press of a hotkey for local control that is not held closes the shared gate and puts it past
-- every generation that it has reached, the last possible one excepted, also when the slot for the
-- actor is taken.
pub local_press_cancels :
    (locked : Bool) (s : Hotkeys) (a : ControlHotkeyAction) (generation : ℕ)
    → IsWord s.local_override
    → is_set s.deduper a ≡ false
    → same a go_mac ≡ false
    → generation < u64_max
    → generation ≤ with_local s.local_override
    → let gate = (dispatch_control_hotkey locked s a true).0.local_override in
      (is_local gate ≡ true) × (generation < with_local gate)
unfolding dispatch_control_hotkey press
local_press_cancels locked s go_mac generation w new local small reached = ground arith
local_press_cancels locked s go_local generation w new local small reached =
    rw (new, dispatch_control_hotkey, press)
      (
        request_local_closes s.local_override w,
        request_local_passes generation s.local_override w small reached,
      )
local_press_cancels locked s emergency_local generation w new local small reached =
    rw (new, dispatch_control_hotkey, press)
      (
        request_local_closes s.local_override w,
        request_local_passes generation s.local_override w small reached,
      )

-- The most urgent of what is in the slot and what is offered.
pub offered : Option ControlHotkeyAction → List ControlHotkeyAction → Option ControlHotkeyAction
offered pending [] = pending
offered pending (a ∷ more) = offered (offer false pending a).0 more

abbrev pub urgency : Option ControlHotkeyAction → ℕ
urgency none = 0
urgency (some a) = priority a

abbrev pub most : ℕ → List ControlHotkeyAction → ℕ
most n [] = n
most n (a ∷ more) = most (if ltb n (priority a) then priority a else n) more

urgency-offer :
    (pending : Option ControlHotkeyAction) (a : ControlHotkeyAction)
    → urgency (offer false pending a).0
      ≡ (if ltb (urgency pending) (priority a) then priority a else urgency pending)
unfolding offer
urgency-offer pending a = ground arith

-- When the slot is free at every offer, the priority of what is in it after any offers is the
-- highest of those offered and of what was there.
pub urgency-offered :
    (pending : Option ControlHotkeyAction) (more : List ControlHotkeyAction)
    → urgency (offered pending more) ≡ most (urgency pending) more
unfolding offered
urgency-offered pending [] = refl
urgency-offered pending (a ∷ more) =
    urgency-offered (offer false pending a).0 more ∙ ap (λ n. most n more) (urgency-offer pending a)
