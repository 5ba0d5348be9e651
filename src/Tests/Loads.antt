-- ===== src/Tests/Loads.antt =====
-- Files that are loaded while the window is used.
use can_tracer.Prelude.{
  ℕ, ◌<◌, ◌≡◌, refl, ◌&&◌, false, none, some, List, [], ◌∷◌, ◌++◌, arith, get_elem?, ltb, ◌==◌,
  if◌then◌else◌, true,
}
use can_tracer.Prelude.Int.{pos, negsuc}
use can_tracer.Prelude.Outcome.{ok, bad_access, failure, Ensures, ◌>>=◌}
use can_tracer.Qt.{QString, codes, str_eq, Double, QByteArray}
use can_tracer.Can.{CanLogMsg, CanSignal, CanDb, rx}
use can_tracer.Dbc
use can_tracer.Dbc.{message_pattern, signal_pattern, fresh}
use can_tracer.LogModel.{Format, entry, display_data}
use can_tracer.MsgModel.{Role, display_role, signal_rows}
use can_tracer.MsgModel.Cells.{message_data}
use can_tracer.SignalModel.{signal_data}
use can_tracer.Window.{opened, on_load_log_file, on_load_dbc_file}
use can_tracer.Qt.Variant.{Variant}
use can_tracer.Window.{SignalPlotItem, ChartView}
use can_tracer.Window.Axes.{IsConsistent}
use can_tracer.Window.Series.{Draws}
use can_tracer.Window.PlotList.{plot_data, plot_text}
use can_tracer.Loading.Plots.{Reached-charts}
use can_tracer.Loading.Total.{act_total}
use can_tracer.Window.Step.{Event, step}
use can_tracer.Loading.{
  Task, running, notified, Disk, Session, loading, joined, started, open_file, run_log, load_log,
}
use can_tracer.Loading.Reach.{Action, act, Reached, start, next}
use can_tracer.Loading.Shown.{Loads, Reached-Loads}
use can_tracer.Loading.Ends.{run, shown_log, load_ends}
use can_tracer.Loading.Cancel.{dialogs_closed}
use can_tracer.Loading.Safe.{is_blf, tables_total}
use can_tracer.Tests.Concrete.{
  Number, Known, whole_numbers, text_of, pairs_of-bytes, byte_stream, byte_stream-IsStream,
  index_of_lobj,
}
use can_tracer.Tests.Logs.{log_lines, asc_lines, asc_messages}

instance numbers : Double Number
numbers = whole_numbers

abbrev identity : QByteArray → QByteArray
identity bytes = bytes

abbrev name : QString
name = codes "a.asc"

abbrev known : Known
known =
    log_lines
    ++ (
      message_pattern,
      codes "A",
      codes "A" ∷ codes "24" ∷ codes "Tank" ∷ codes "8" ∷ codes "ECU" ∷ [],
    )
      ∷ (
        signal_pattern,
        codes "S",
        codes "S"
            ∷ codes "Level"
            ∷ codes "0"
            ∷ codes "8"
            ∷ codes "1"
            ∷ codes "+"
            ∷ codes "2"
            ∷ codes "0"
            ∷ codes "0"
            ∷ codes "100"
            ∷ codes "l"
            ∷ codes ""
            ∷ [],
      )
      ∷ []

abbrev disk : Disk QByteArray
disk = record {
  text_file = λ n. if str_eq n name then some asc_lines else some (codes "A" ∷ codes "S" ∷ []);
  binary_file = λ n. none;
}

loaded : load_log (text_of known) byte_stream index_of_lobj identity 9 disk name ≡ ok asc_messages
unfolding can_tracer.Log.parse can_tracer.Log.get_extension can_tracer.Log.parse_file
    can_tracer.Log.parse_text can_tracer.Log.parse_line can_tracer.Log.parse_asc_line
    can_tracer.Log.asc_values can_tracer.Log.with_frame can_tracer.Can.set_dir
    can_tracer.Log.with_data can_tracer.Log.copy_data
loaded = refl

abbrev opening : Session Number
opening = record {
  window = opened;
  log_future = running name;
  dbc_future = Task.not_started;
  log_path = name;
  dbc_path = [];
  status = loading;
}

abbrev read : Session Number
read = record opening { log_future = Task.finished name (ok asc_messages) }

abbrev shown : Session Number
shown = shown_log name asc_messages opening

abbrev IsReached : Session Number → Type 0
IsReached = Reached (text_of known) byte_stream index_of_lobj identity 9

opening-IsReached : IsReached opening
unfolding act open_file started
opening-IsReached = next (Action.choose_log name) start tt refl

read-IsReached : IsReached read
unfolding act run_log
read-IsReached = next (Action.log_thread disk) opening-IsReached tt (rw loaded refl)

shown-IsReached : IsReached shown
unfolding act can_tracer.Loading.deliver_log can_tracer.Loading.log_finished
shown-IsReached = next Action.log_signal read-IsReached tt refl

Reached-Loads_example : Loads (text_of known) byte_stream index_of_lobj identity 9 shown
Reached-Loads_example =
    Reached-Loads (text_of known) byte_stream index_of_lobj identity 9 shown-IsReached

load_ends_example :
    Ensures
      (λ (s' : Session Number). s'.log_future ≡ notified name)
      (run
          (text_of known)
          byte_stream
          index_of_lobj
          identity
          9
          (Action.slot Event.zoom_in_x ∷ [])
          opening
        >>= act (text_of known) byte_stream index_of_lobj identity 9 (Action.log_thread disk)
        >>= run
            (text_of known)
            byte_stream
            index_of_lobj
            identity
            9
            (Action.choose_dbc [] ∷ Action.point_notify (codes "x") ∷ [])
        >>= act (text_of known) byte_stream index_of_lobj identity 9 Action.log_signal
        >>= run (text_of known) byte_stream index_of_lobj identity 9 (Action.dbc_signal ∷ []))
    × (run
          (text_of known)
          byte_stream
          index_of_lobj
          identity
          9
          (Action.log_thread disk ∷ Action.log_signal ∷ [])
          opening
        ≡ (load_log (text_of known) byte_stream index_of_lobj identity 9 disk name >>= λ log.
            ok (shown_log name log opening)))
load_ends_example =
    load_ends (text_of known) byte_stream index_of_lobj identity 9 name disk
      (Action.slot Event.zoom_in_x ∷ [])
      (Action.choose_dbc [] ∷ Action.point_notify (codes "x") ∷ []) (Action.dbc_signal ∷ []) opening
      refl (tt, tt) (tt, (tt, tt)) (tt, tt)

dialogs_closed_example :
    (run
        (text_of known)
        byte_stream
        index_of_lobj
        identity
        9
        (Action.choose_dbc (name ∷ []) ∷ Action.dbc_thread disk ∷ Action.dbc_signal ∷ [])
        shown
      ≡ ok (record shown {
        dbc_path = joined (name ∷ []);
        dbc_future = notified (name ∷ []);
        window =
            on_load_dbc_file (Dbc.parse (text_of known) disk.text_file (name ∷ [])) shown.window;
      }))
    × (run {S = QByteArray}
          (text_of known)
          byte_stream
          index_of_lobj
          identity
          9
          (Action.choose_log [] ∷ [])
          shown
        ≡ ok shown)
    × (run
          (text_of known)
          byte_stream
          index_of_lobj
          identity
          9
          (Action.choose_dbc [] ∷ Action.dbc_thread disk ∷ Action.dbc_signal ∷ [])
          shown
        ≡ ok (record shown {
          dbc_path = [];
          dbc_future = notified [];
          window = record (shown.window) { msg_db = []; msg_index = negsuc 0 };
        }))
dialogs_closed_example =
    dialogs_closed (text_of known) byte_stream index_of_lobj identity 9 (name ∷ []) disk shown

abbrev level : CanSignal Number
level = record {
  start_bit = 0;
  len = 8;
  is_big_endian = false;
  is_signed = false;
  scale = some (pos 2);
  offset = some (pos 0);
  min = some (pos 0);
  max = some (pos 100);
  name = codes "Level";
  unit = codes "l";
  receiver = [];
  values = [];
}

abbrev db : CanDb Number
db =
    record {
      id = 24;
      dlc = 8;
      name = codes "Tank";
      sender = codes "ECU";
      can_signals = level ∷ [];
      color = record { is_valid = true; red = 0; green = 0; blue = 0; alpha = 0 };
    }
    ∷ []

abbrev dbc_names : List QString
dbc_names = codes "d.dbc" ∷ []

dbc_loaded : Dbc.parse (text_of known) disk.text_file dbc_names ≡ db
unfolding Dbc.parse Dbc.parse_files Dbc.parse_file Dbc.parse_stream Dbc.at_end Dbc.read_lines
    Dbc.read_line Dbc.dispatch Dbc.read_idle Dbc.read_message Dbc.read_in_message Dbc.read_signal
    can_tracer.Can.add_message can_tracer.Can.add_can_signal can_tracer.Can.remove_ext_mask
dbc_loaded = refl

abbrev with_db : Session Number
with_db = record shown {
  dbc_path = joined dbc_names;
  dbc_future = notified dbc_names;
  window = on_load_dbc_file db shown.window;
}

abbrev choosing : Session Number
choosing = record shown { dbc_path = joined dbc_names; dbc_future = running dbc_names }

abbrev parsed : Session Number
parsed = record choosing { dbc_future = Task.finished dbc_names (ok db) }

choosing-IsReached : IsReached choosing
unfolding act can_tracer.Loading.open_dbc_file
choosing-IsReached = next (Action.choose_dbc dbc_names) shown-IsReached tt refl

parsed-IsReached : IsReached parsed
unfolding act can_tracer.Loading.run_dbc
parsed-IsReached = next (Action.dbc_thread disk) choosing-IsReached tt (rw dbc_loaded refl)

with_db-IsReached : IsReached with_db
unfolding act can_tracer.Loading.deliver_dbc can_tracer.Loading.dbc_finished
with_db-IsReached = next Action.dbc_signal parsed-IsReached tt refl

abbrev format : Format Number
format = record {
  integer = λ n. n ∷ [];
  decimals = λ x. [];
  general = λ x. [];
  hex_byte = λ b. b ∷ [];
  hex_id = λ n width. n ∷ [];
}

abbrev first_arg : QString → QString → QString
first_arg pattern value = pattern ++ value

tables_total_example :
    ((row column : ℕ) (m : CanLogMsg Number)
      → get_elem? asc_messages row ≡ some m
      → (failure (display_data format asc_messages db (entry row column))
          ≡ (if column == 6 && ltb 8 m.dlc then some bad_access else none))
        × (with_db.log_future ≡ notified name
            → is_blf
                (text_of known)
                pairs_of-bytes
                byte_stream
                byte_stream-IsStream
                index_of_lobj
                identity
                9
                name
              ≡ false
            → failure (display_data format asc_messages db (entry row column)) ≡ none))
    × (failure (signal_rows db (negsuc 0)) ≡ none)
    × ((i j rows : ℕ)
        → signal_rows db (negsuc 0) ≡ ok rows
        → i < rows
        → failure (signal_data format first_arg (λ t. t) db (negsuc 0) display_role (some i) j)
          ≡ none)
    × ((role : Role) (i j : ℕ) → i < 1 → failure (message_data format db role (some i) j) ≡ none)
unfolding on_load_dbc_file on_load_log_file can_tracer.Window.reset
tables_total_example =
    tables_total (text_of known) pairs_of-bytes byte_stream byte_stream-IsStream index_of_lobj
      identity 9 format first_arg (λ t. t) with_db with_db-IsReached

-- The signal is added to the plots.
abbrev charted : Session Number
charted = record with_db {
  window = record (with_db.window) {
    items = record { msg_id = 24; signal = level } ∷ [];
    widgets =
        record {
          signal = level;
          series = (some (pos 7), some (pos 10)) ∷ (some (pos 7), some (pos 10)) ∷ [];
          min_width = pos 0;
          min_height = 150;
          x_tick_count = pos 0;
          y_tick_count = 5;
        }
        ∷ [];
  };
}

added : step (Event.add_signal 0 (some 0, some 0)) with_db.window ≡ ok charted.window
unfolding step can_tracer.Window.on_add_signal can_tracer.Graph.get_signal_graph
    can_tracer.Graph.sweep can_tracer.Graph.sweep_hit can_tracer.Signal.parse_signal
    can_tracer.Signal.parse_value can_tracer.Signal.gather can_tracer.Signal.cut
    can_tracer.Signal.raw_of can_tracer.Signal.shift_int can_tracer.Signal.with_sign
    can_tracer.Window.add_item can_tracer.Graph.drawn numbers can_tracer.Graph.finish
    can_tracer.Tests.Concrete.add_ℤ can_tracer.Tests.Concrete.sub_ℤ can_tracer.Graph.draw_rest
    on_load_dbc_file on_load_log_file can_tracer.Window.reset opened can_tracer.LogModel.log_changed
added = refl

charted-IsReached : IsReached charted
unfolding act
charted-IsReached =
    next (Action.slot (Event.add_signal 0 (some 0, some 0))) with_db-IsReached tt (rw added refl)

Reached-charts_example :
    IsConsistent charted.window
    × (item : SignalPlotItem Number) × (view : ChartView Number) × (get_elem? charted.window.widgets
          0
        ≡ some view)
    × (plot_data format first_arg charted.window.items display_role (some 0)
        ≡ ok (Variant.text (plot_text format first_arg item.msg_id view.signal)))
    × Draws charted.window.log item view
Reached-charts_example =
    Reached-charts (text_of known) byte_stream index_of_lobj identity 9 format first_arg 0
      charted-IsReached (omega arith)

act_total_example :
    failure (
      act
        (text_of known)
        byte_stream
        index_of_lobj
        identity
        9
        (Action.slot (Event.remove_signal (some 0)))
        charted)
    ≡ none
act_total_example =
    act_total (text_of known) byte_stream index_of_lobj identity 9 charted
      (Action.slot (Event.remove_signal (some 0))) charted-IsReached (omega arith)
