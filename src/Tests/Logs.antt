-- ===== src/Tests/Logs.antt =====
-- Text logs and BLF files.
use can_tracer.Prelude.{
  none, ◌≢◌, ◌≤◌, ap, length, ℕ, ◌≡◌, refl, true, List, [], ◌∷◌, ◌++◌, arith, some, Option, All,
  replicate,
}
use can_tracer.Prelude.Int.{pos}
use can_tracer.Prelude.Outcome.{Outcome, ok, fault, bad_access}
use can_tracer.Qt.{QString, codes, Double, QByteArray}
use can_tracer.Can.{CanLogMsg, CanDir, rx, tx, set_dir}
use can_tracer.Can.Logged.{IsNumbered}
use can_tracer.Log.{trc, asc, asc_pattern, trc_pattern, parse_text, parse}
use can_tracer.Log.Total.{IsReadable, parse_text_total}
use can_tracer.Log.Lines.{IsFrame, set_dir_lem, parse_text-asc_IsNumbered}
use can_tracer.Log.Extension.{by_extension, parse-by_extension}
use can_tracer.Blf
use can_tracer.Blf.{BlfState, parse_container}
use can_tracer.Blf.Messages.{IsLogged}
use can_tracer.Blf.Total.{parse_total}
use can_tracer.Tests.Concrete.{
  Number, whole_numbers, Known, text_of, pairs_of-bytes, text_of-FindsLastDot, byte_stream,
  byte_stream-IsStream, byte_stream-Consumes, index_of_lobj,
}

instance numbers : Double Number
numbers = whole_numbers

abbrev pub log_lines : Known
log_lines =
    (
      trc_pattern,
      codes "1) 2 Rx 18 2 0A FF",
      codes "1) 2 Rx 18 2 0A FF"
          ∷ codes "1"
          ∷ codes "2000"
          ∷ codes "Rx"
          ∷ codes "18"
          ∷ codes "2"
          ∷ codes "0A FF"
          ∷ [],
    )
    ∷ (
      asc_pattern,
      codes "7 1 18 Tx d 1 05",
      codes "7 1 18 Tx d 1 05"
          ∷ codes "7"
          ∷ codes "1"
          ∷ codes "18"
          ∷ codes "Tx"
          ∷ codes "1"
          ∷ codes "05"
          ∷ [],
    )
    ∷ []

abbrev pub message : ℕ → ℕ → Number → ℕ → ℕ → CanDir → ℕ → ℕ → CanLogMsg Number
message number id time channel dlc dir b c = record {
  number = number;
  id = id;
  time = time;
  channel = channel;
  dlc = dlc;
  dir = dir;
  bytes = b ∷ c ∷ replicate 6 0;
}

trc_log :
    parse_text (text_of log_lines) trc (codes "; comment" ∷ codes "1) 2 Rx 18 2 0A FF" ∷ [])
    ≡ ok (message 1 0x18 (some (pos 2)) 0 2 tx 0x0a 0xff ∷ [])
unfolding parse_text can_tracer.Log.parse_line can_tracer.Log.parse_trc_line
    can_tracer.Log.trc_values can_tracer.Log.with_frame set_dir can_tracer.Log.with_data
    can_tracer.Log.copy_data numbers
trc_log = refl

abbrev pub asc_lines : List QString
asc_lines = codes "7 1 18 Tx d 1 05" ∷ codes "date" ∷ codes "7 1 18 Tx d 1 05" ∷ []

abbrev pub asc_messages : List (CanLogMsg Number)
asc_messages =
    message 0 0x18 (some (pos 7)) 1 1 rx 5 0 ∷ message 1 0x18 (some (pos 7)) 1 1 rx 5 0 ∷ []

asc_log : parse_text (text_of log_lines) (asc 0) asc_lines ≡ ok asc_messages
unfolding parse_text can_tracer.Log.parse_line can_tracer.Log.parse_asc_line
    can_tracer.Log.asc_values can_tracer.Log.with_frame set_dir can_tracer.Log.with_data
    can_tracer.Log.copy_data
asc_log = refl

-- The number of data bytes among the captures, if there are any.
abbrev data_size : Option (ℕ → QString) → ℕ
data_size none = 0
data_size (some c) =
    length ((text_of log_lines).from_hex ((text_of log_lines).remove (c 6) (codes " ")))

line-IsReadable :
    (line : QString)
    → line ≢ []
    → data_size ((text_of log_lines).matches trc_pattern line) ≤ 8
    → data_size ((text_of log_lines).matches asc_pattern line) ≤ 8
    → IsReadable (text_of log_lines) pairs_of-bytes line
line-IsReadable line filled trc_le asc_le = record {
  filled = filled;
  trc_short = λ c e. omega (arith, trc_le, ap data_size e);
  asc_short = λ c e. omega (arith, asc_le, ap data_size e);
}

asc_line-IsReadable : IsReadable (text_of log_lines) pairs_of-bytes (codes "7 1 18 Tx d 1 05")
asc_line-IsReadable =
    line-IsReadable (codes "7 1 18 Tx d 1 05") (λ e. cc) (omega arith) (omega arith)

date-IsReadable : IsReadable (text_of log_lines) pairs_of-bytes (codes "date")
date-IsReadable = line-IsReadable (codes "date") (λ e. cc) (omega arith) (omega arith)

parse_text_total_example :
    (ms : List (CanLogMsg Number)) × (parse_text (text_of log_lines) (asc 0) asc_lines ≡ ok ms)
    × All IsFrame ms
parse_text_total_example =
    parse_text_total (text_of log_lines) pairs_of-bytes (asc 0) asc_lines
      (asc_line-IsReadable, (date-IsReadable, (asc_line-IsReadable, tt)))

parse_text-asc_IsNumbered_example : IsNumbered 0 asc_messages
parse_text-asc_IsNumbered_example =
    parse_text-asc_IsNumbered (text_of log_lines) pairs_of-bytes asc_lines asc_messages asc_log

abbrev an_entry : CanLogMsg Number
an_entry = message 0 1 (some (pos 0)) 0 2 rx 1 2

set_dir_lem_example : set_dir an_entry (codes "Rx") ≡ (record an_entry { dir = tx }, true)
set_dir_lem_example = set_dir_lem an_entry (codes "Rx")

abbrev zeros : ℕ → QByteArray
zeros n = replicate n 0

-- An object of type 1: a frame with the id 0x80000123, flags 2 and a time of 5.
abbrev can_object : QByteArray
can_object =
    codes "LOBJ"
    ++ (32 ∷ 0 ∷ 1 ∷ 0 ∷ 48 ∷ 0 ∷ 0 ∷ 0 ∷ 1 ∷ 0 ∷ 0 ∷ 0 ∷ 2 ∷ 0 ∷ 0 ∷ 0 ∷ [])
    ++ zeros 4
    ++ (5 ∷ zeros 7)
    ++ (3 ∷ 0 ∷ 0 ∷ 2 ∷ 0x23 ∷ 1 ∷ 0 ∷ 0x80 ∷ [])
    ++ (1 ∷ 2 ∷ zeros 6)

-- A container with two such objects, not compressed, behind the header of the file.
abbrev blf_file : QByteArray
blf_file =
    codes "LOGG"
    ++ (72 ∷ zeros 67)
    ++ codes "LOBJ"
    ++ (16 ∷ 0 ∷ 1 ∷ 0 ∷ 128 ∷ 0 ∷ 0 ∷ 0 ∷ 10 ∷ 0 ∷ 0 ∷ 0 ∷ [])
    ++ zeros 16
    ++ can_object
    ++ can_object

abbrev blf_messages : List (CanLogMsg Number)
blf_messages =
    message 0 0x123 (some (pos 0)) 3 2 rx 1 2 ∷ message 1 0x123 (some (pos 0)) 3 2 rx 1 2 ∷ []

abbrev unchanged : QByteArray → QByteArray
unchanged bytes = bytes

blf_log : Blf.parse byte_stream index_of_lobj unchanged 5 (some blf_file) ≡ ok blf_messages
unfolding Blf.parse Blf.parse_signed Blf.get_objects Blf.get_date_time Blf.skip_u8 Blf.get_object
    Blf.parse_typed Blf.parse_unpacked Blf.unpack parse_container Blf.parse_object Blf.parse_at
    Blf.parse_sized Blf.read_body Blf.read_can_msg Blf.skip_version numbers
blf_log = refl

parse_total_example :
    (ms : List (CanLogMsg Number)) × (Blf.parse byte_stream index_of_lobj unchanged 201
        (some blf_file)
      ≡ ok ms)
    × IsNumbered 0 ms
    × All IsLogged ms
unfolding Blf.get_date_time Blf.skip_u8 Blf.unpack
parse_total_example =
    parse_total byte_stream length byte_stream-Consumes index_of_lobj unchanged byte_stream-IsStream
      201 blf_file refl (omega arith) (omega arith)

abbrev no_state : BlfState Number
no_state = record { counter = 0; messages = []; remain = [] }

abbrev text_file : QString → Option (List QString)
text_file name = some asc_lines

abbrev blf_of : QString → Option QByteArray
blf_of name = some blf_file

abbrev parse_name : QString → Outcome (List (CanLogMsg Number))
parse_name = parse (text_of log_lines) byte_stream index_of_lobj unchanged 5 text_file blf_of

abbrev by : QString → QString → Outcome (List (CanLogMsg Number))
by =
    by_extension (text_of log_lines) (text_of-FindsLastDot log_lines) byte_stream index_of_lobj
      unchanged 5 text_file blf_of

parse-by_extension_example :
    (parse_name (codes "a.b" ++ b'.' ∷ codes "asc")
      ≡ by (codes "asc") (codes "a.b" ++ b'.' ∷ codes "asc"))
    × (parse_name (codes "asc") ≡ by [] (codes "asc"))
parse-by_extension_example =
    parse-by_extension (text_of log_lines) (text_of-FindsLastDot log_lines) byte_stream
      index_of_lobj unchanged 5 text_file blf_of (codes "a.b") (codes "asc")
      (ground arith, (ground arith, (ground arith, tt)))

no_driver : by [] (codes "asc") ≡ fault bad_access
no_driver = refl
