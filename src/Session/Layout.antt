-- ===== src/Session/Layout.antt =====
-- `ReceiverDisplayLayout::map` of src-tauri/src/session_runtime.rs: pointer positions of the logical
-- display on the native one.
pub mod Bounds
use mykvm.Base.{
  ℕ, zero, suc, ◌+◌, ◌-◌, ◌*◌, ◌/◌, ◌^◌, ◌||◌, ◌==◌, if◌then◌else◌, ℤ, pos, negsuc, pos_part, leb_ℤ,
  ltb_ℤ, ◌+ℤ◌, Result, ok, err, ◌&&◌, Bool,
}
use mykvm.Protocol.Types.{ProtocolError, invalid_field}
use mykvm.Session.Types.{ReceiverDisplayLayout}

abbrev pub i32_max : ℤ
i32_max = pos (2 ^ 31 - 1)

abbrev pub i32_min : ℤ
i32_min = negsuc (2 ^ 31 - 1)

-- `i32::try_from(n).unwrap_or(i32::MAX)`.
abbrev to_i32 : ℤ → ℤ
to_i32 n = if leb_ℤ i32_min n && leb_ℤ n i32_max then n else i32_max

abbrev negated : ℕ → ℤ
negated zero = pos 0
negated (suc n) = negsuc n

-- `value * native / logical` in `i64`, whose division drops the fraction.
abbrev scaled : ℤ → ℕ → ℕ → ℤ
scaled (pos v) native logical = pos (v * native / logical)
scaled (negsuc v) native logical = negated (suc v * native / logical)

unfoldable pub map_axis : ℤ → ℤ → ℤ → ℤ → ℤ
unfolding ◌+ℤ◌
map_axis value logical_size native_origin native_size =
    if leb_ℤ logical_size (pos 1) || leb_ℤ native_size (pos 1)
    then native_origin
    else to_i32
        (native_origin +ℤ scaled value (pos_part native_size - 1) (pos_part logical_size - 1))

-- The test that refuses a position or a layout.
off_display : ReceiverDisplayLayout → ℤ → ℤ → Bool
off_display d x y =
    d.layout_revision == 0
    || leb_ℤ d.logical_width (pos 0)
    || leb_ℤ d.logical_height (pos 0)
    || leb_ℤ d.native_width (pos 0)
    || leb_ℤ d.native_height (pos 0)
    || ltb_ℤ x (pos 0)
    || ltb_ℤ y (pos 0)
    || leb_ℤ d.logical_width x
    || leb_ℤ d.logical_height y

unfoldable pub map_pointer : ReceiverDisplayLayout → ℤ → ℤ → Result ProtocolError (ℤ × ℤ)
unfolding off_display
map_pointer d x y =
    if off_display d x y
    then err (invalid_field "coordinates")
    else ok (
      map_axis x d.logical_width d.native_x d.native_width,
      map_axis y d.logical_height d.native_y d.native_height,
    )
