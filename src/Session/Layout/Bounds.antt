-- ===== src/Session/Layout/Bounds.antt =====
-- Where src-tauri/src/session_runtime.rs puts a pointer: inside the native display.
use mykvm.Protocol.Types.{ProtocolError}
use mykvm.Base.{
  ℕ, ◌+◌, ◌-◌, ◌*◌, ◌/◌, ◌≤◌, ◌<◌, ◌≡◌, arith, ℤ, pos, negsuc, pos_part, ◌≤ℤ◌, ◌<ℤ◌, ◌+ℤ◌, ok,
  int_laws, Bool-cases, inl, inr, false, Result, subst,
}
use mykvm.Session.Types.{ReceiverDisplayLayout}
use mykvm.Session.Layout.{map_axis, map_pointer, i32_min, off_display}

scaled_le : (v n l : ℕ) → v ≤ l → 0 < l → v * n / l ≤ n
scaled_le v n l h p = grind arith

scaled_mono : (v w n l : ℕ) → v ≤ w → v * n / l ≤ w * n / l
scaled_mono v w n l h = grind arith

scaled_end : (n l : ℕ) → 0 < l → l * n / l ≡ n
scaled_end n l p = grind arith

-- The native interval that starts at `origin` lies in the range of an `i32`.
abbrev pub Fits : ℤ → ℤ → Type 0
Fits origin size = (i32_min ≤ℤ origin) × (origin +ℤ size ≤ℤ pos (2147483647 + 1))

-- A logical position goes to a native one of the display.
pub map_axis_bounds :
    (v : ℕ) (logical origin native : ℤ)
    → pos v <ℤ logical
    → pos 0 <ℤ native
    → Fits origin native
    → (origin ≤ℤ map_axis (pos v) logical origin native)
      × (map_axis (pos v) logical origin native <ℤ origin +ℤ native)
unfolding map_axis
map_axis_bounds v logical origin native inside wide fits =
    ground (arith, scaled_le v (pos_part native - 1) (pos_part logical - 1))

-- Of two positions inside the logical axis, the later one is not mapped before the earlier one,
-- where the native axis is not empty and lies in the range of the coordinates.
pub map_axis_mono :
    (v w : ℕ) (logical origin native : ℤ)
    → v ≤ w
    → pos w <ℤ logical
    → pos 0 <ℤ native
    → Fits origin native
    → map_axis (pos v) logical origin native ≤ℤ map_axis (pos w) logical origin native
unfolding map_axis
map_axis_mono v w logical origin native le inside wide fits = ground (
  arith,
  scaled_le w (pos_part native - 1) (pos_part logical - 1),
  scaled_mono v w (pos_part native - 1) (pos_part logical - 1),
)

-- On a logical axis of more than one position, the first goes to the first native one and the last
-- to the last, where the native axis is not empty and lies in the range of the coordinates.
pub map_axis_ends :
    (v : ℕ) (logical origin native : ℤ)
    → pos v +ℤ pos 1 ≡ logical
    → 0 < v
    → pos 0 <ℤ native
    → Fits origin native
    → (map_axis (pos 0) logical origin native ≡ origin)
      × (map_axis (pos v) logical origin native +ℤ pos 1 ≡ origin +ℤ native)
unfolding map_axis
map_axis_ends v logical origin native last many wide fits = ground (
  arith,
  scaled_end (pos_part native - 1) (pos_part logical - 1),
  scaled_le 0 (pos_part native - 1) (pos_part logical - 1),
)

-- What an accepted position and its layout satisfy.
abbrev On : ReceiverDisplayLayout → ℤ → ℤ → Type 0
On d x y =
    ((pos 0 ≤ℤ x) × (x <ℤ d.logical_width))
    × ((pos 0 ≤ℤ y) × (y <ℤ d.logical_height))
    × ((pos 0 <ℤ d.native_width) × (pos 0 <ℤ d.native_height))

on_display : (d : ReceiverDisplayLayout) (x y : ℤ) → off_display d x y ≡ false → On d x y
unfolding off_display
on_display d x y e = ground arith

abbrev pub Inside : ℤ → ℤ → ℤ → Type 0
Inside p origin size = (origin ≤ℤ p) × (p <ℤ origin +ℤ size)

axis-Inside :
    (x logical origin native : ℤ)
    → (pos 0 ≤ℤ x) × (x <ℤ logical)
    → pos 0 <ℤ native
    → Fits origin native
    → Inside (map_axis x logical origin native) origin native
axis-Inside (pos v) logical origin native inside wide fits =
    map_axis_bounds v logical origin native inside.1 wide fits
axis-Inside (negsuc v) logical origin native inside wide fits = absurd (omega arith)

ok_pair :
    {a b p q : ℤ}
    → ◌≡◌ {A = Result ProtocolError (ℤ × ℤ)} (ok (a, b)) (ok (p, q))
    → (a ≡ p) × (b ≡ q)
ok_pair e = ground arith

-- A pointer that the receiver accepts was inside the logical rectangle of the display, and lands
-- inside the native one, where that lies in the range of the coordinates.
pub map_pointer-Inside :
    (d : ReceiverDisplayLayout) (x y p q : ℤ)
    → Fits d.native_x d.native_width
    → Fits d.native_y d.native_height
    → map_pointer d x y ≡ ok (p, q)
    → Inside p d.native_x d.native_width
      × Inside q d.native_y d.native_height
      × Inside x (pos 0) d.logical_width
      × Inside y (pos 0) d.logical_height
unfolding map_pointer
map_pointer-Inside d x y p q fx fy e = elim (Bool-cases (off_display d x y)) [
  | inl off ↦ cc (rw (off, map_pointer) at e)
  | inr known ↦
      let on = on_display d x y known in
      let same = ok_pair (rw (known, map_pointer) at e) in
      (
        subst (λ t. Inside t d.native_x d.native_width) same.0
            (axis-Inside x d.logical_width d.native_x d.native_width on.0 on.2.0 fx),
        subst (λ t. Inside t d.native_y d.native_height) same.1
            (axis-Inside y d.logical_height d.native_y d.native_height on.1 on.2.1 fy),
        (on.0.0, omega (int_laws, on.0.1)),
        (on.1.0, omega (int_laws, on.1.1)),
      )
]
