-- ===== src/MsgModel/Cells.antt =====
-- The cells and the header of the table of messages.
use can_tracer.Prelude.{
  ℕ, Bool, true, false, ◌&&◌, Option, none, some, List, [], ◌∷◌, ltb, ◌==◌, if◌then◌else◌,
  get_elem?,
}
use can_tracer.Prelude.Int.{ℤ, pos, negsuc}
use can_tracer.Prelude.Outcome.{Outcome, ok, out_of_range, or_fault, ◌>>=◌}
use can_tracer.Qt.{QString, codes}
use can_tracer.Qt.Variant.{Variant, no_value, text, colored, Orientation, is_horizontal, header_at}
use can_tracer.Can.{CanMessage, CanDb, max_normal_can_id, ext_can_nibble, normal_can_nibble}
use can_tracer.LogModel.{Format}
use can_tracer.MsgModel.{Role, display_role, shows_color, color_column}

abbrev pub is_display : Role → Bool
is_display display_role = true
is_display _ = false

module _ {F : Type 0} (format : Format F) where
  -- The switch over the columns.
  abbrev pub message_text : ℕ → CanMessage F → Variant
  message_text column msg =
      if column == 0
      then text (
          format.hex_id msg.id
            (if ltb max_normal_can_id msg.id then ext_can_nibble else normal_can_nibble))
      else if column == 1
      then text msg.name
      else if column == 2
      then text (format.integer msg.dlc)
      else if column == 3
      then text msg.sender
      else no_value

  -- data(): an index is `none` if it is not valid, and else its row.
  unfoldable pub message_data : CanDb F → Role → Option ℕ → ℕ → Outcome Variant
  message_data db role none column = ok no_value
  message_data db role (some row) column = or_fault out_of_range (get_elem? db row) >>= λ msg. ok (
      if is_display role
      then message_text column msg
      else if shows_color role && column == color_column
      then colored msg.color
      else no_value)

abbrev pub message_headers : List QString
message_headers =
    codes "CAN ID" ∷ codes "Message name" ∷ codes "DLC" ∷ codes "Sender" ∷ codes "Color" ∷ []

-- The size of an std::array is unsigned: a negative section is not below it.
abbrev pub in_array : ℤ → Outcome Variant
in_array (negsuc n) = ok no_value
in_array (pos n) = header_at message_headers (pos n)

unfoldable pub message_header : ℤ → Orientation → Role → Outcome Variant
message_header section orientation role =
    if is_display role
    then if is_horizontal orientation then in_array section else ok no_value
    else ok no_value

-- Whether Qt::ItemIsEditable is among the flags.
unfoldable pub is_editable : Option ℕ → ℕ → Bool
is_editable none column = false
is_editable (some row) column = column == color_column
