-- ===== src/Delegate.antt =====
-- src/mainwindow.h: where LogDelegate paints the cells of the signals below an entry.
pub mod Tiles
use can_tracer.Prelude.{
  ℕ, zero, suc, ◌+◌, Bool, ◌&&◌, Option, none, some, List, [], ◌∷◌, ltb, if◌then◌else◌, length,
  get_elem?,
}
use can_tracer.Prelude.Int.{ℤ, pos, ◌+ℤ◌}

pub record Rect : Type 0 where
  pub x : ℤ
  pub y : ℤ
  pub width : ℤ
  pub height : ℤ

-- The array `column`.
abbrev pub column_widths : List ℕ
column_widths = 300 ∷ 0 ∷ 50 ∷ 200 ∷ []

-- The loop over i, which ends at the column or at the end of the array.
abbrev pub offset_before : ℕ → List ℕ → ℕ
offset_before n [] = 0
offset_before zero (w ∷ ws) = 0
offset_before (suc n) (w ∷ ws) = w + offset_before n ws

abbrev pub width_or_zero : Option ℕ → ℕ
width_or_zero none = 0
width_or_zero (some w) = w

-- The rectangle that is painted for that of the option.
unfoldable pub painted : Bool → ℕ → Rect → Rect
painted has_parent column option =
    if has_parent
    then (let offset = offset_before column column_widths in
        if ltb column (length column_widths)
        then record {
          x = option.x +ℤ pos offset;
          y = option.y;
          width = option.width +ℤ pos (width_or_zero (get_elem? column_widths column));
          height = option.height;
        }
        else record {
          x = option.x +ℤ pos offset;
          y = option.y;
          width = option.width;
          height = option.height;
        })
    else option
