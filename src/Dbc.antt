-- ===== src/Dbc.antt =====
-- src/dbcparser.cpp: the lines of a DBC file are read by a machine with two states.
pub mod Values
pub mod Leak
pub mod Blocks
pub mod Wellformed
use mathlib.Core.List.{foldl}
use can_tracer.Prelude.{
  ℕ, ◌%◌, Bool, true, false, not, Option, none, some, List, [], ◌∷◌, ◌++◌, ◌==◌, if◌then◌else◌,
}
use can_tracer.Qt.{QString, codes, str_eq, compare, Text, QColor, to_unsigned}
use can_tracer.Can.{
  CanSignal, CanMessage, CanDb, remove_ext_mask, modify, add_value_pair, add_can_signal,
  find_signal, add_message, find_message_mut,
}

-- The patterns, as the regular expression engine gets them.
abbrev pub message_pattern : QString
message_pattern = codes "BO_\\s+(\\d+)\\s+([\\d\\w]+):\\s+(\\d+) ([\\d\\w]+)"

abbrev pub signal_pattern : QString
signal_pattern =
    codes
      "SG_ (.+) : (\\d+)\\|(\\d+)@(0|1)(\\+|\\-) \\(([\\d\\.]+),([-\\d\\.]+)\\) \\[([-\\d\\.]+)\\|([-\\d\\.]+)\\] \"(.*)\"\\s+([\\w\\d]*)"

abbrev pub value_pattern : QString
value_pattern = codes "VAL_\\s+(\\d+)\\s+([\\d\\w]+)((?:\\s+[\\d]+\\s+\".*?\")+)\\s?;"

abbrev pub value_decode_pattern : QString
value_decode_pattern = codes "\\s+([\\d]+)\\s+\"(.*?)\""

-- The third constant of PARSE_STATE, SIGNAL, is never assigned.
pub data LineState : Type 0 where
  idle message : LineState

-- `parseStream` between two lines.
pub record Parser (F : Type 0) : Type 0 where
  pub state : LineState
  pub current : CanMessage F
  pub db : CanDb F

module _ {F : Type 0} where
  -- A new CanMessage. Its id and dlc, which C++ leaves unset, are written before a message is added.
  abbrev pub fresh : CanMessage F
  fresh = record {
    id = 0;
    dlc = 0;
    name = [];
    sender = [];
    can_signals = [];
    color = record { is_valid = true; red = 0; green = 0; blue = 0; alpha = 0 };
  }

module _ {F : Type 0} (text : Text F) where
  open text use {matches, matches_all, to_short, to_uint, to_ulong, to_double}

  infixl 5 ◌>>=◌
  abbrev ◌>>=◌ : {A B : Type 0} → Option A → (A → Option B) → Option B
  none >>= f = none
  some a >>= f = f a

  -- A line that matches the pattern of messages.
  unfoldable pub read_message : Parser F → (ℕ → QString) → Parser F
  read_message s captured = elim (to_ulong (captured 1)) [
    | none ↦ record s { state = idle }
    | some id ↦
        let named = record (s.current) { id = remove_ext_mask id; name = captured 2 } in
        elim (to_short (captured 3)) [
          | none ↦ record s { state = idle; current = record named { dlc = 0 } }
          | some dlc ↦ record s {
            state = message;
            current = record named { dlc = to_unsigned 8 dlc; sender = captured 4 };
          }
        ]
  ]

  -- The loop over the pairs of a value table. A pair whose number is not read is left out.
  unfoldable pub add_pairs : List (ℕ → QString) → CanSignal F → CanSignal F
  add_pairs [] signal = signal
  add_pairs (captured ∷ rest) signal = add_pairs rest (elim (to_double (captured 1)) [
    | none ↦ signal
    | some number ↦ add_value_pair (number, captured 2) signal
  ])

  -- The change of the message that the pointer of findMessage leads to.
  unfoldable pub add_values : (ℕ → QString) → CanMessage F → CanMessage F
  add_values captured msg = elim (find_signal msg.can_signals (captured 2)) [
    | none ↦ msg
    | some j ↦ record msg {
      can_signals =
          modify j (add_pairs (matches_all value_decode_pattern (captured 3))) msg.can_signals;
    }
  ]

  -- A line that matches the pattern of value tables.
  unfoldable pub read_values : CanDb F → (ℕ → QString) → CanDb F
  read_values db captured = elim (to_ulong (captured 1)) [
    | none ↦ db
    | some id ↦ elim (find_message_mut db (remove_ext_mask id)) [
      | none ↦ db
      | some i ↦ modify i (add_values captured) db
    ]
  ]

  unfoldable pub read_idle : Parser F → QString → Parser F
  read_idle s line = elim (matches message_pattern line) [
    | some captured ↦ read_message s captured
    | none ↦ elim (matches value_pattern line) [
      | some captured ↦ record s { db = read_values s.db captured }
      | none ↦ s
    ]
  ]

  -- The signal of a line that matches the pattern of signals; `none` where a conversion fails.
  unfoldable pub read_signal : (ℕ → QString) → Option (CanSignal F)
  read_signal captured = do
    start_bit ← to_uint (captured 2)
    len ← to_uint (captured 3)
    endian ← to_uint (captured 4)
    scale ← to_double (captured 6)
    offset ← to_double (captured 7)
    min ← to_double (captured 8)
    max ← to_double (captured 9)
    some (record {
      start_bit = start_bit % 256;
      len = len % 256;
      is_big_endian = endian == 0;
      is_signed = not (compare (captured 5) (codes "-"));
      scale = scale;
      offset = offset;
      min = min;
      max = max;
      name = captured 1;
      unit = captured 10;
      receiver = captured 11;
      values = [];
    })

  unfoldable pub read_in_message : Parser F → QString → Parser F
  read_in_message s line = elim (matches signal_pattern line) [
    | none ↦ record s { db = add_message s.db s.current; current = fresh; state = idle }
    | some captured ↦ elim (read_signal captured) [
      | none ↦ record s { state = idle }
      | some signal ↦ record s { current = add_can_signal s.current signal }
    ]
  ]

  unfoldable pub dispatch : LineState → Parser F → QString → Parser F
  dispatch idle s line = read_idle s line
  dispatch message s line = read_in_message s line

  unfoldable pub read_line : Parser F → QString → Parser F
  read_line s line = dispatch s.state s line

  unfoldable pub read_lines : Parser F → List QString → Parser F
  read_lines = foldl read_line

  -- What stands behind the loop.
  unfoldable pub at_end : LineState → Parser F → CanDb F
  at_end idle s = s.db
  at_end message s = add_message s.db s.current

  unfoldable pub parse_stream : List QString → CanDb F → CanDb F
  parse_stream lines db =
      let s = read_lines (record { state = idle; current = fresh; db = db }) lines in
      at_end s.state s

  -- `content` is the text file of a name, `none` where it cannot be opened.
  module _ (content : QString → Option (List QString)) where
    unfoldable pub parse_file : QString → CanDb F → CanDb F
    parse_file filename db = elim (content filename) [
      | none ↦ db
      | some lines ↦ parse_stream lines db
    ]

    unfoldable pub parse_files : List QString → CanDb F → CanDb F
    parse_files [] db = db
    parse_files (file ∷ files) db = parse_files files (parse_file file db)

    unfoldable pub parse : List QString → CanDb F
    parse files = parse_files files []
