-- ===== src/Examples/Layout.antt =====
-- Concrete pointer positions (src-tauri/src/session_runtime.rs): a display left of the origin.
use mykvm.Base.{◌≡◌, refl, pos, negsuc, ok, ◌+ℤ◌, int_laws}
use mykvm.Session.Types.{ReceiverDisplayLayout}
use mykvm.Session.Layout.{map_axis, map_pointer}
use mykvm.Session.Layout.Bounds.{Inside, map_pointer-Inside}

abbrev display : ReceiverDisplayLayout
display = record {
  display_id = "left";
  layout_revision = 3;
  logical_width = pos 1000;
  logical_height = pos 500;
  native_x = negsuc 1999;
  native_y = pos 0;
  native_width = pos 2000;
  native_height = pos 1000;
}

map_display : map_pointer display (pos 999) (pos 499) ≡ ok (negsuc 0, pos 999)
unfolding map_pointer map_axis
map_display = refl

map_pointer-Inside_example :
    Inside (negsuc 0) (negsuc 1999) (pos 2000)
    × Inside (pos 999) (pos 0) (pos 1000)
    × Inside (pos 999) (pos 0) (pos 1000)
    × Inside (pos 499) (pos 0) (pos 500)
map_pointer-Inside_example =
    map_pointer-Inside display (pos 999) (pos 499) (negsuc 0) (pos 999)
      (omega int_laws, omega int_laws) (omega int_laws, omega int_laws) map_display

last_column : pos 999 +ℤ pos 1 ≡ pos 1000
unfolding ◌+ℤ◌
last_column = refl
