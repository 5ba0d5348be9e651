-- ===== src/MsgModel.antt =====
-- src/canmsgmodel.cpp: the table of the messages, where a color can be edited; and the rows of the table of
-- the signals of a message.
pub mod Colors
pub mod Cells
use can_tracer.Prelude.{
  ℕ, Bool, true, false, ◌&&◌, Option, none, some, List, [], ◌∷◌, ◌==◌, if◌then◌else◌, get_elem?,
}
use can_tracer.Prelude.Int.{ℤ, pos, negsuc}
use can_tracer.Prelude.Outcome.{Outcome, ok, out_of_range, or_fault, ◌>>=◌}
use can_tracer.Qt.{QString, QColor}
use can_tracer.Can.{CanMessage, CanDb, set_color, signal_count}

abbrev pub color_column : ℕ
color_column = 4

abbrev pub column_count : ℕ
column_count = 5

-- The roles that the code tells apart.
pub data Role : Type 0 where
  display_role decoration_role edit_role other_role : Role

abbrev pub is_edit : Role → Bool
is_edit edit_role = true
is_edit _ = false

abbrev pub shows_color : Role → Bool
shows_color decoration_role = true
shows_color edit_role = true
shows_color _ = false

module _ {F : Type 0} (db : CanDb F) where
  -- An index is `none` if it is not valid, and else its row.
  unfoldable pub color_data : Role → Option ℕ → ℕ → Outcome (Option QColor)
  color_data role none column = ok none
  color_data role (some row) column = or_fault out_of_range (get_elem? db row) >>= λ msg.
      ok (if shows_color role && column == color_column then some msg.color else none)

  -- The database behind the call, and the result.
  unfoldable pub set_data : Option ℕ → QColor → Role → Outcome (CanDb F × Bool)
  set_data none value role = ok (db, false)
  set_data (some row) value role =
      if is_edit role
      then (or_fault out_of_range (get_elem? db row) >>= λ msg.
          ok (set_color db msg.id value, true))
      else ok (db, false)

  unfoldable pub get_msg_id : Option ℕ → Outcome (Option ℕ)
  get_msg_id none = ok none
  get_msg_id (some row) = or_fault out_of_range (get_elem? db row) >>= λ msg. ok (some msg.id)

  -- CanSignalModel::rowCount, by its msgIndex.
  unfoldable pub signal_rows : ℤ → Outcome ℕ
  signal_rows (negsuc n) = ok 0
  signal_rows (pos n) = or_fault out_of_range (get_elem? db n) >>= λ msg. ok (signal_count msg)
