-- ===== src/SignalModel.antt =====
-- src/cansignalmodel.cpp: the table of the signals of the message that is selected.
pub mod Cells
use can_tracer.Prelude.{
  ℕ, Bool, true, false, Option, none, some, List, [], ◌∷◌, ◌++◌, leb, ◌==◌, if◌then◌else◌,
  get_elem?,
}
use can_tracer.Prelude.Int.{ℤ, pos, negsuc}
use can_tracer.Prelude.Outcome.{Outcome, ok, fault, out_of_range, or_fault, ◌>>=◌}
use can_tracer.Qt.{QString, codes}
use can_tracer.Qt.Variant.{Variant, no_value, text, Orientation, is_horizontal, header_at}
use can_tracer.Can.{CanSignal, CanMessage, CanDb}
use can_tracer.LogModel.{Format}
use can_tracer.MsgModel.{Role}
use can_tracer.MsgModel.Cells.{is_display}

-- The enumeration of the columns.
abbrev pub signal_name : ℕ
signal_name = 0

abbrev pub signal_start_bit : ℕ
signal_start_bit = 1

abbrev pub signal_len : ℕ
signal_len = 2

abbrev pub signal_type : ℕ
signal_type = 3

abbrev pub signal_endian : ℕ
signal_endian = 4

abbrev pub signal_scale : ℕ
signal_scale = 5

abbrev pub signal_offset : ℕ
signal_offset = 6

abbrev pub signal_min : ℕ
signal_min = 7

abbrev pub signal_max : ℕ
signal_max = 8

abbrev pub signal_unit : ℕ
signal_unit = 9

abbrev pub signal_values : ℕ
signal_values = 10

abbrev pub signal_max_col : ℕ
signal_max_col = 11

abbrev pub message_at : {F : Type 0} → CanDb F → ℤ → Outcome (CanMessage F)
message_at db (negsuc n) = fault out_of_range
message_at db (pos n) = or_fault out_of_range (get_elem? db n)

-- `arg` is QString::arg, and `trimmed` is QString::trimmed.
module _ {F : Type 0} (format : Format F) (arg : QString → QString → QString)
    (trimmed : QString → QString) where
  -- The loop over the pairs.
  abbrev pub pairs_text : List (F × QString) → QString
  pairs_text [] = []
  pairs_text ((number, value) ∷ pairs) =
      arg (arg (codes "%1 - %2\n") (format.general number)) value ++ pairs_text pairs

  -- The switch over the columns.
  abbrev pub signal_text : ℕ → CanSignal F → QString
  signal_text column signal =
      if column == signal_name
      then signal.name
      else if column == signal_start_bit
      then format.integer signal.start_bit
      else if column == signal_len
      then format.integer signal.len
      else if column == signal_scale
      then format.general signal.scale
      else if column == signal_max
      then format.general signal.max
      else if column == signal_min
      then format.general signal.min
      else if column == signal_offset
      then format.general signal.offset
      else if column == signal_endian
      then if signal.is_big_endian then codes "big" else codes "little"
      else if column == signal_type
      then if signal.is_signed then codes "signed" else codes "unsigned"
      else if column == signal_unit
      then signal.unit
      else if column == signal_values
      then trimmed (pairs_text signal.values)
      else []

  -- data() by msgIndex: an index is `none` if it is not valid, and else its row.
  unfoldable pub signal_data : CanDb F → ℤ → Role → Option ℕ → ℕ → Outcome Variant
  signal_data db msg_index role none column = ok no_value
  signal_data db msg_index role (some row) column =
      if is_display role
      then (do
        msg ← message_at db msg_index
        signal ← or_fault out_of_range (get_elem? msg.can_signals row)
        ok (text (signal_text column signal)))
      else ok no_value

abbrev pub signal_headers : List QString
signal_headers =
    codes "Name"
    ∷ codes "Start Bit"
    ∷ codes "Len"
    ∷ codes "Type"
    ∷ codes "Endian"
    ∷ codes "Scale"
    ∷ codes "Offset"
    ∷ codes "Min"
    ∷ codes "Max"
    ∷ codes "Unit"
    ∷ codes "Values"
    ∷ []

abbrev pub signal_header_at : ℤ → Outcome Variant
signal_header_at (negsuc n) = fault out_of_range
signal_header_at (pos n) =
    if leb signal_max_col n
    then ok no_value
    else (or_fault out_of_range (get_elem? signal_headers n) >>= λ t. ok (text t))

unfoldable pub signal_header : ℤ → Orientation → Role → Outcome Variant
signal_header section orientation role =
    if is_display role
    then if is_horizontal orientation then signal_header_at section else ok no_value
    else ok no_value
