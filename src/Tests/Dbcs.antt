-- ===== src/Tests/Dbcs.antt =====
-- DBC files and the database.
use can_tracer.Prelude.{
  ℕ, ◌≡◌, refl, false, List, [], ◌∷◌, ◌++◌, none, some, Option, All, ◌==◌, if◌then◌else◌, true,
}
use can_tracer.Prelude.Int.{pos}
use can_tracer.Qt.{QString, codes, Text, QColor}
use can_tracer.Can.{CanSignal, CanMessage, CanDb, find_message, remove_ext_mask}
use can_tracer.Dbc.{
  message_pattern, signal_pattern, value_decode_pattern, read_signal, read_values, parse_stream,
  parse, fresh,
}
use can_tracer.Dbc.Blocks.{
  with_signals, IsHeader, IsSignals, Means, other, block, last_block, parse_stream-Means,
}
use can_tracer.Dbc.Leak.{IsBadSignal, Closed, nothing, stopped, parse_stream-leak}
use can_tracer.Dbc.Values.{readable, with_table, find_message-read_values}
use can_tracer.Dbc.Wellformed.{IsStored, parse-IsStored}
use can_tracer.Tests.Concrete.{Number, Known, text_of, nth}

-- The captures of the lines that the tests name by a letter.
abbrev known : Known
known =
    (
      message_pattern,
      codes "A",
      codes "A" ∷ codes "2147483649" ∷ codes "Engine" ∷ codes "8" ∷ codes "ECU" ∷ [],
    )
    ∷ (
      message_pattern,
      codes "B",
      codes "B" ∷ codes "2" ∷ codes "Brake" ∷ codes "4" ∷ codes "ABS" ∷ [],
    )
    ∷ (
      signal_pattern,
      codes "S",
      codes "S"
          ∷ codes "Speed"
          ∷ codes "8"
          ∷ codes "16"
          ∷ codes "1"
          ∷ codes "+"
          ∷ codes "2"
          ∷ codes "0"
          ∷ codes "0"
          ∷ codes "100"
          ∷ codes "km/h"
          ∷ codes "Dash"
          ∷ [],
    )
    ∷ (
      signal_pattern,
      codes "X",
      codes "X"
          ∷ codes "Bad"
          ∷ codes "8"
          ∷ codes "16"
          ∷ codes "1"
          ∷ codes "+"
          ∷ codes "1.2.3"
          ∷ codes "0"
          ∷ codes "0"
          ∷ codes "100"
          ∷ codes ""
          ∷ codes ""
          ∷ [],
    )
    ∷ (value_decode_pattern, codes "pairs", codes "pairs" ∷ codes "1" ∷ codes "on" ∷ [])
    ∷ []

abbrev text : Text Number
text = text_of known

abbrev speed : CanSignal Number
speed = record {
  start_bit = 8;
  len = 16;
  is_big_endian = false;
  is_signed = false;
  scale = some (pos 2);
  offset = some (pos 0);
  min = some (pos 0);
  max = some (pos 100);
  name = codes "Speed";
  unit = codes "km/h";
  receiver = codes "Dash";
  values = [];
}

abbrev engine : CanMessage Number
engine = record fresh { id = 1; dlc = 8; name = codes "Engine"; sender = codes "ECU" }

abbrev brake : CanMessage Number
brake = record fresh { id = 2; dlc = 4; name = codes "Brake"; sender = codes "ABS" }

engine-IsHeader : IsHeader text (codes "A") engine
unfolding remove_ext_mask
engine-IsHeader = record {
  captured = _;
  id = 2147483649;
  dlc = pos 8;
  is_match = refl;
  id_read = refl;
  dlc_read = refl;
  meaning = refl;
}

brake-IsHeader : IsHeader text (codes "B") brake
unfolding remove_ext_mask
brake-IsHeader = record {
  captured = _;
  id = 2;
  dlc = pos 4;
  is_match = refl;
  id_read = refl;
  dlc_read = refl;
  meaning = refl;
}

speed-IsSignals : IsSignals text (codes "S" ∷ []) (speed ∷ [])
unfolding read_signal
speed-IsSignals = ((_, refl, refl), tt)

bad-IsBadSignal : IsBadSignal text (codes "X")
unfolding read_signal
bad-IsBadSignal = record { captured = _; is_match = refl; unread = refl }

-- An empty line ends the first block, the end of the file the second one.
abbrev lines : List QString
lines = codes "version" ∷ codes "A" ∷ codes "S" ∷ [] ∷ codes "B" ∷ []

abbrev messages : List (CanMessage Number)
messages = with_signals engine (speed ∷ []) ∷ with_signals brake [] ∷ []

lines-Means : Means text lines messages
lines-Means = other refl refl (
    block (codes "A") [] (codes "S" ∷ []) (codes "B" ∷ []) engine (speed ∷ []) engine-IsHeader
      speed-IsSignals refl (last_block (codes "B") [] brake [] brake-IsHeader tt))

parse_stream-Means_example : parse_stream text lines [] ≡ messages
parse_stream-Means_example = parse_stream-Means text lines messages [] lines-Means

-- The first block is broken by its second signal, and an empty line ends the second.
parse_stream-leak_example :
    parse_stream text
      ((codes "version" ∷ [])
        ++ (((codes "A" ∷ codes "S" ∷ []) ++ codes "X" ∷ codes "note" ∷ [])
            ++ ((codes "B" ∷ []) ++ [] ∷ codes "end" ∷ [])))
      []
    ≡ ([] ++ []) ++ with_signals brake ((speed ∷ []) ++ []) ∷ []
parse_stream-leak_example =
    parse_stream-leak text (codes "A") (codes "X") (codes "B") (codes "version" ∷ [])
      (codes "S" ∷ []) (codes "note" ∷ []) [] ([] ∷ codes "end" ∷ []) engine brake (speed ∷ []) []
      [] [] [] (Closed.other refl refl nothing) engine-IsHeader speed-IsSignals bad-IsBadSignal
      ((refl, refl), tt) brake-IsHeader tt (stopped refl (Means.other refl refl Means.done))

abbrev content : QString → Option (List QString)
content name = some lines

parse-IsStored_example : All IsStored (parse text content (codes "a.dbc" ∷ []))
parse-IsStored_example = parse-IsStored text content (codes "a.dbc" ∷ [])

abbrev table_line : ℕ → QString
table_line = nth (codes "V" ∷ codes "1" ∷ codes "Speed" ∷ codes "pairs" ∷ [])

abbrev db : CanDb Number
db = messages

find_message-read_values_example :
    find_message (read_values text db table_line) 1 ≡ elim (find_message db 1) [
      | none ↦ none
      | some m ↦ some (
          if remove_ext_mask 1 == 1
          then record m {
            can_signals =
                with_table text
                  (table_line 2)
                  (readable text (text.matches_all value_decode_pattern (table_line 3)))
                  m.can_signals;
          }
          else m)
    ]
find_message-read_values_example = find_message-read_values text db table_line 1 1 refl

abbrev red : QColor
red = record { is_valid = true; red = 255; green = 0; blue = 0; alpha = 255 }
