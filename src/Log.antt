-- ===== src/Log.antt =====
-- src/logparser.cpp: the two line formats of text logs, and the choice of a parser by the extension.
pub mod Lines
pub mod Total
pub mod Extension
use can_tracer.Prelude.{
  ℕ, ◌+◌, ◌-◌, ◌%◌, ◌^◌, ◌<◌, Bool, true, false, not, ◌||◌, ◌&&◌, Option, none, some, List, [], ◌∷◌,
  ◌++◌, length, drop, ltb, leb, ◌==◌, if◌then◌else◌,
}
use can_tracer.Prelude.Int.{ℤ, pos}
use can_tracer.Prelude.Outcome.{Outcome, ok, fault, out_of_range, bad_access, runtime_error, ◌>>=◌}
use can_tracer.Qt.{
  QString, codes, str_eq, Double, Text, DataStream, QByteArray, or_zero, to_unsigned,
}
use can_tracer.Can.{CanLogMsg, CanData, CanDir, rx, can_max_dlc, set_dir}
use can_tracer.Blf

abbrev pub trc_pattern : QString
trc_pattern =
    codes "([0-9]+)\\)\\s+([0-9\\.]+)\\s+(Rx|Tx)\\s+([0-9A-F]+)\\s+([0-9]+)\\s+([0-9 A-F]+)"

abbrev pub asc_pattern : QString
asc_pattern = codes "([\\d.]+) +([\\d]+)? +([0-9A-F]+)x? +(Rx|Tx) +d +([\\d]+) +([0-9A-F ]+)"

-- `std::memcpy(msg.data.data(), data.constData(), data.size())`. More bytes than the array has are
-- written behind it.
unfoldable pub copy_data : List ℕ → CanData → Outcome CanData
copy_data src dst =
    if ltb (length dst) (length src) then fault bad_access else ok (src ++ drop (length src) dst)

-- The subclasses of TextDriver with their state: `number` of AscDriver is a uint32_t.
pub data Driver : Type 0 where
  trc : Driver
  asc : ℕ → Driver

module _ {F : Type 0} ⦃d : Double F⦄ (text : Text F) where
  open text use {
    matches, remove, from_hex, last_index_of, same_ci, to_int, to_uint, to_uint_hex, to_ulong_hex,
    to_double,
  }

  -- A new CanLogMsg.
  abbrev pub new_msg : CanLogMsg F
  new_msg = record {
    number = 0;
    id = 0;
    time = d.of_int (pos 0);
    channel = 0;
    dlc = can_max_dlc;
    dir = rx;
    bytes = 0 ∷ 0 ∷ 0 ∷ 0 ∷ 0 ∷ 0 ∷ 0 ∷ 0 ∷ [];
  }

  -- The data bytes of a line, copied into the message.
  unfoldable pub with_data : CanLogMsg F → QString → Outcome (Option (CanLogMsg F))
  with_data msg captured = do
    bytes ← copy_data (from_hex (remove captured (codes " "))) msg.bytes
    ok (some (record msg { bytes = bytes }))

  -- The end of both parseLine functions: the direction, the length of the frame and its data. The TRC
  -- driver sets the direction before it reads the id; of a line that is rejected nothing is used. The
  -- length is a uint8_t, so it is cut to 8 bits before it is compared.
  unfoldable pub with_frame : CanLogMsg F → QString → ℕ → QString → Outcome (Option (CanLogMsg F))
  with_frame msg dir dlc captured =
      let (msg, known) = set_dir msg dir in
      let msg = record msg { dlc = dlc % 256 } in
      if not known || ltb can_max_dlc (dlc % 256) then ok none else with_data msg captured

  -- The values of a line in the TRC format; a conversion that fails makes parseLine return false.
  unfoldable pub trc_values : (ℕ → QString) → Option (CanLogMsg F × ℕ)
  trc_values captured = elim (to_int (captured 1)) [
    | none ↦ none
    | some number ↦ elim (to_double (captured 2)) [
      | none ↦ none
      | some time ↦ elim (to_uint_hex (captured 4)) [
        | none ↦ none
        | some id ↦ elim (to_uint (captured 5)) [
          | none ↦ none
          | some dlc ↦ some (
            record new_msg {
              number = to_unsigned 32 number;
              time = d.div time (d.decimal 1000 0);
              id = id;
            },
            dlc,
          )
        ]
      ]
    ]
  ]

  -- `none` is the result false. Reading the first character of an empty line is a fault.
  unfoldable pub parse_trc_line : QString → Outcome (Option (CanLogMsg F))
  parse_trc_line [] = fault out_of_range
  parse_trc_line (first ∷ rest) =
      if first == b';' then ok none else elim (matches trc_pattern (first ∷ rest)) [
        | none ↦ ok none
        | some captured ↦ elim (trc_values captured) [
          | none ↦ ok none
          | some (msg, dlc) ↦ with_frame msg (captured 3) dlc (captured 6)
        ]
      ]

  unfoldable pub asc_values : ℕ → (ℕ → QString) → Option (CanLogMsg F × ℕ)
  asc_values number captured = elim (to_double (captured 1)) [
    | none ↦ none
    | some time ↦ elim (to_ulong_hex (captured 3)) [
      | none ↦ none
      | some id ↦ some (
        record new_msg {
          number = number;
          time = time;
          channel = if str_eq (captured 2) [] then 0 else or_zero (to_uint (captured 2)) % 256;
          id = id % 2 ^ 32;
        },
        or_zero (to_uint (captured 5)),
      )
    ]
  ]

  unfoldable pub parse_asc_line : ℕ → QString → Outcome (Option (CanLogMsg F))
  parse_asc_line number line = elim (matches asc_pattern line) [
    | none ↦ ok none
    | some captured ↦ elim (asc_values number captured) [
      | none ↦ ok none
      | some (msg, dlc) ↦ with_frame msg (captured 4) dlc (captured 6)
    ]
  ]

  -- The virtual call, with the driver behind it: AscDriver counts the lines that it accepts.
  unfoldable pub parse_line : Driver → QString → Outcome (Driver × Option (CanLogMsg F))
  parse_line trc line = do result ← parse_trc_line line; ok (trc, result)
  parse_line (asc number) line = do
    result ← parse_asc_line number line
    ok (elim result [ none ↦ asc number | some msg ↦ asc ((number + 1) % 2 ^ 32) ], result)

  abbrev pub keep : Option (CanLogMsg F) → List (CanLogMsg F)
  keep none = []
  keep (some msg) = msg ∷ []

  -- TextDriver::parse on a stream of lines.
  unfoldable pub parse_text : Driver → List QString → Outcome (List (CanLogMsg F))
  parse_text driver [] = ok []
  parse_text driver (line ∷ lines) = do
    (driver', result) ← parse_line driver line
    messages ← parse_text driver' lines
    ok (keep result ++ messages)

  unfoldable pub get_extension : QString → QString
  get_extension name = elim (last_index_of name b'.') [
    | none ↦ []
    | some dot ↦ if ltb (dot + 1) (length name) then drop (dot + 1) name else []
  ]

  -- Parser::parse. `text_file` and `binary_file` open a file; for an extension that is not known the
  -- pointer to the driver is null.
  module _ {S : Type 0} (stream : DataStream S) (index_of : QByteArray → ℕ → Option ℕ)
      (uncompress : QByteArray → QByteArray) (fuel : ℕ)
      (text_file : QString → Option (List QString)) (binary_file : QString → Option S) where
    unfoldable pub parse_file : Driver → QString → Outcome (List (CanLogMsg F))
    parse_file driver name = elim (text_file name) [
      | none ↦ fault runtime_error
      | some lines ↦ parse_text driver lines
    ]

    unfoldable pub parse : QString → Outcome (List (CanLogMsg F))
    parse name =
        let extension = get_extension name in
        if same_ci extension (codes "asc")
        then parse_file (asc 0) name
        else if same_ci extension (codes "trc")
        then parse_file trc name
        else if same_ci extension (codes "blf")
        then Blf.parse stream index_of uncompress fuel (binary_file name)
        else fault bad_access
