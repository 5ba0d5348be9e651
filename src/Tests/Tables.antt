-- ===== src/Tests/Tables.antt =====
-- The tables of the log and of the messages.
use can_tracer.Prelude.{
  ℕ, ◌≤◌, ◌≡◌, refl, true, false, ◌&&◌, ◌||◌, List, [], ◌∷◌, ltb, arith, none, some, ◌==◌,
  if◌then◌else◌, length,
}
use can_tracer.Prelude.Int.{pos}
use can_tracer.Prelude.Outcome.{ok, failure}
use can_tracer.Qt.{QColor, codes, Double}
use can_tracer.Can.{CanLogMsg, CanSignal, CanMessage, CanDb, rx}
use can_tracer.Can.Logged.{IsData}
use can_tracer.Signal.{parse_signal}
use can_tracer.MsgModel.{edit_role, set_data, color_data}
use can_tracer.MsgModel.Colors.{is_first, color_data-set_data}
use can_tracer.LogModel.{
  entry, below, Format, Highlighted, yellow, green, index, display_data, set_highlight_id,
  is_id_highlight, background,
}
use can_tracer.LogModel.Cells.{display_data-below}
use can_tracer.LogModel.Highlights.{background-set_highlight_id}
use can_tracer.Tests.Concrete.{Number, whole_numbers}

instance numbers : Double Number
numbers = whole_numbers

abbrev whole : ℕ → Number
whole n = some (pos n)

abbrev signal : CanSignal Number
signal = record {
  start_bit = 0;
  len = 40;
  is_big_endian = false;
  is_signed = false;
  scale = whole 1;
  offset = whole 0;
  min = whole 0;
  max = whole 0;
  name = codes "Level";
  unit = [];
  receiver = [];
  values = [];
}

abbrev message : CanMessage Number
message = record {
  id = 5;
  dlc = 8;
  name = codes "Tank";
  sender = [];
  can_signals = signal ∷ [];
  color = record { is_valid = true; red = 0; green = 0; blue = 0; alpha = 0 };
}

abbrev db : CanDb Number
db = message ∷ []

-- A dlc that only a BLF file can give.
abbrev long_entry : CanLogMsg Number
long_entry = record {
  number = 0;
  id = 5;
  time = whole 1;
  channel = 0;
  dlc = 12;
  dir = rx;
  bytes = 1 ∷ 2 ∷ 3 ∷ 4 ∷ 5 ∷ 6 ∷ 7 ∷ 8 ∷ [];
}

long_entry-IsData : IsData (long_entry.bytes)
long_entry-IsData = record {
  size = refl;
  bytes = (
    omega arith,
    (
      omega arith,
      (omega arith, (omega arith, (omega arith, (omega arith, (omega arith, (omega arith, tt)))))),
    ),
  );
}

abbrev buffer : List (CanLogMsg Number)
buffer = long_entry ∷ []

abbrev format : Format Number
format = record {
  integer = λ n. n ∷ [];
  decimals = λ x. [];
  general = λ x. [];
  hex_byte = λ b. b ∷ [];
  hex_id = λ n width. n ∷ [];
}

display_data-below_example :
    (index format buffer db 0 2 (entry 0 0) ≡ ok (below 0 2 0))
    × (failure (display_data format buffer db (below 0 2 0)) ≡ (
        if ltb 0 (length buffer) && (2 == 2 || 2 == 3)
        then failure (parse_signal signal (long_entry.bytes) 12)
        else none))
    × (length buffer ≤ 0 → display_data format buffer db (below 0 2 0) ≡ ok none)
unfolding can_tracer.Can.find_message
display_data-below_example =
    display_data-below format buffer db 0 2 0 0 long_entry message signal refl refl refl
      (omega arith)

abbrev nothing : Highlighted
nothing = record { row_list = λ row. false; id_list = λ id. false }

background-set_highlight_id_example :
    (h' : Highlighted) × (set_highlight_id buffer (entry 0 0) true nothing ≡ ok h')
    × (is_id_highlight buffer (entry 0 0) h' ≡ ok true)
    × (background format buffer db h' (entry 0 1) ≡ (
        if false
        then some yellow
        else if 5 == 5
        then some green
        else background format buffer db nothing (entry 0 1)))
background-set_highlight_id_example =
    background-set_highlight_id format buffer db 0 0 0 1 long_entry long_entry nothing refl refl

abbrev blue : QColor
blue = record { is_valid = true; red = 0; green = 0; blue = 255; alpha = 255 }

color_data-set_data_example :
    (db' : CanDb Number) × (set_data db (some 0) blue edit_role ≡ ok (db', true))
    × (color_data db' edit_role (some 0) 4
        ≡ (if is_first db 5 0 then ok (some blue) else color_data db edit_role (some 0) 4))
color_data-set_data_example = color_data-set_data db 0 0 message blue refl
