-- ===== src/ColorEditor.antt =====
-- src/colorlisteditor.cpp: the box of colors, and the delegate in src/mainwindow.h that edits the color of
-- a message with it.
pub mod Kept
use can_tracer.Prelude.{ℕ, ◌+◌, Bool, Option, none, some, List, [], ◌∷◌, false}
use can_tracer.Prelude.Outcome.{Outcome, ok, ◌>>=◌}
use can_tracer.Qt.{QString, QColor}
use can_tracer.Qt.ComboBox.{ComboBox}
use can_tracer.Can.{CanDb}
use can_tracer.MsgModel.{edit_role, color_column, color_data, set_data}

-- What qvariant_cast makes of a QVariant that holds no color: QColor(), which is not valid and differs
-- from every color of a name.
abbrev pub default_color : QColor
default_color = record { is_valid = false; red = 0; green = 0; blue = 0; alpha = 255 }

abbrev pub or_default : Option QColor → QColor
or_default none = default_color
or_default (some color) = color

-- `names` are those of QColor::colorNames, each with its color.
module _ {B : Type 0} (box : ComboBox B) where
  abbrev pub insert_colors : ℕ → List (QString × QColor) → B → B
  insert_colors i [] b = b
  insert_colors i ((name, color) ∷ names) b =
      insert_colors (i + 1) names (box.set_item_data i color (box.insert_item i name b))

  unfoldable pub populate_list : List (QString × QColor) → B → B
  populate_list names b = insert_colors 0 names b

  unfoldable pub set_color : QColor → B → B
  set_color color b = box.set_current_index (box.find_data color b) b

  unfoldable pub color : B → QColor
  color b = or_default (box.item_data (box.current_index b) b)

  unfoldable pub create_editor : List (QString × QColor) → B
  create_editor names = populate_list names box.new_box

module _ {F : Type 0} {B : Type 0} (box : ComboBox B) (db : CanDb F) where
  unfoldable pub set_editor_data : B → Option ℕ → Outcome B
  set_editor_data editor index = color_data db edit_role index color_column >>= λ shown.
      ok (set_color box (or_default shown) editor)

  unfoldable pub set_model_data : B → Option ℕ → Outcome (CanDb F × Bool)
  set_model_data editor index = set_data db index (color box editor) edit_role
