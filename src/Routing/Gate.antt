-- ===== src/Routing/Gate.antt =====
-- `LocalOverride` of src-tauri/src/routing.rs: one atomic number, a cancellation generation with the
-- local bit in its lowest place. `v | 1`, `v & 1` and `v & !1` are written by `%`.
use mykvm.Base.{
  ℕ, suc, zero, ◌+◌, ◌-◌, ◌%◌, Bool, not, ◌&&◌, Option, none, some, ◌==◌, ltb, if◌then◌else◌,
  u64_max, checked_add, saturating_add,
}

abbrev pub with_local : ℕ → ℕ
with_local v = if v % 2 == 0 then v + 1 else v

-- `LocalOverride::default`.
abbrev pub initial : ℕ
initial = 1

unfoldable pub is_local : ℕ → Bool
is_local v = not (v % 2 == 0)

unfoldable pub request_local : ℕ → ℕ
request_local v = with_local (saturating_add v 2)

-- The new value and the generation reserved, or `none` when the generations are used up.
unfoldable pub reserve : ℕ → Option ℕ
reserve v = elim (checked_add v 2) [
  | none ↦ none
  | some next ↦ if ltb (with_local next) u64_max then some (with_local next) else none
]

unfoldable pub still_preparing : ℕ → ℕ → Bool
still_preparing v generation = v == generation

-- The compare-exchange: the new value, or `none` when it fails.
unfoldable pub activate : ℕ → ℕ → Option ℕ
activate v generation =
    if not (generation == u64_max) && v == generation
    then some (generation - generation % 2)
    else none

-- Requests of other threads, one after the other.
unfoldable pub requested : ℕ → ℕ → ℕ
requested zero v = v
requested (suc n) v = requested n (request_local v)
