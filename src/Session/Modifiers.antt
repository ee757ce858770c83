-- ===== src/Session/Modifiers.antt =====
-- `remap_modifier_vk` of src-tauri/src/session_runtime.rs, and the two mode tests beside it.
use mykvm.Base.{ℕ, Bool, ◌&&◌, ◌||◌, String, ◌==◌, string_beq, if◌then◌else◌, Option, none, some}

-- The setting that a modifier's key code goes by, or none for another key.
modifier_target : ℕ → String → String → String → Option String
modifier_target vk control alt meta =
    if vk == 0x11 || vk == 0xa2 || vk == 0xa3
    then some control
    else if vk == 0x12 || vk == 0xa4 || vk == 0xa5
    then some alt
    else if vk == 0x5b || vk == 0x5c
    then some meta
    else none

abbrev is_right : ℕ → Bool
is_right vk = vk == 0xa1 || vk == 0xa3 || vk == 0xa5 || vk == 0x5c

abbrev is_generic : ℕ → Bool
is_generic vk = vk == 0x10 || vk == 0x11 || vk == 0x12

-- The second `match`: the key code of the target on the side of `vk`.
sided : String → ℕ → ℕ
sided target vk =
    if string_beq target "control"
    then if is_generic vk then 0x11 else if is_right vk then 0xa3 else 0xa2
    else if string_beq target "alt"
    then if is_generic vk then 0x12 else if is_right vk then 0xa5 else 0xa4
    else if string_beq target "meta"
    then if is_right vk then 0x5c else 0x5b
    else vk

unfoldable pub remap_modifier_vk : ℕ → String → String → String → ℕ
unfolding modifier_target sided
remap_modifier_vk vk control alt meta = elim (modifier_target vk control alt meta) [
  | none ↦ vk
  | some target ↦ sided target vk
]

unfoldable pub receiver_mode_enabled : String → String → Bool
receiver_mode_enabled machine_role input_mode =
    string_beq machine_role "client" && string_beq input_mode "receive"
