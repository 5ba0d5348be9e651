-- ===== src/Loading.antt =====
-- src/mainwindow.cpp: openFile and openDbcFile, the futures in which the parsers run, and the slots that
-- take their results.
pub mod Reach
pub mod Keeps
pub mod Shown
pub mod Ends
pub mod Safe
pub mod Plots
pub mod Total
pub mod Cancel
use can_tracer.Prelude.{ℕ, Bool, Option, none, some, List, [], ◌∷◌, ◌++◌, if◌then◌else◌}
use mathlib.Core.List.{foldl}
use can_tracer.Prelude.Outcome.{Outcome, ok, ◌>>=◌}
use can_tracer.Qt.{QString, codes, str_eq, Double, Text, DataStream, QByteArray}
use can_tracer.Can.{CanLogMsg, CanDb}
use can_tracer.Dbc
use can_tracer.Log
use can_tracer.Window.{MainWindow, opened, on_load_log_file, on_load_dbc_file}

-- A QFuture and its watcher: the function was given to a thread, it has returned or thrown, or the
-- watcher has also sent finished(). `N` is what the function was started with.
pub data Task (N A : Type 0) : Type 0 where
  not_started : Task N A
  running : N → Task N A
  finished : N → Outcome A → Task N A
  notified : N → Task N A

-- The files, as the parsers open them.
pub record Disk (S : Type 0) : Type 0 where
  pub text_file : QString → Option (List QString)
  pub binary_file : QString → Option S

-- The window with its futures and the three texts that tell of them: those of lineLogPath, lineDbcPath
-- and the status bar.
pub record Session (F : Type 0) : Type 0 where
  pub window : MainWindow F
  pub log_future : Task QString (List (CanLogMsg F))
  pub dbc_future : Task (List QString) (CanDb F)
  pub log_path : QString
  pub dbc_path : QString
  pub status : QString

abbrev pub loading : QString
loading = codes "Loading..."

-- The text of the names that openDbcFile builds.
abbrev pub joined : List QString → QString
joined names = foldl (λ display name. display ++ (name ++ codes ";")) [] names

module _ {F : Type 0} where
  -- `name` is what the dialog gives, empty when it was cancelled. A future that runs is cancelled, which
  -- does not stop its function, and in any case the slot replaces it.
  unfoldable pub open_file : QString → Session F → Session F
  open_file name s =
      if str_eq name []
      then s
      else record s { log_path = name; log_future = running name; status = loading }

  -- `names` is what the dialog gives, empty when it was cancelled.
  unfoldable pub open_dbc_file : List QString → Session F → Session F
  open_dbc_file names s = record s { dbc_path = joined names; dbc_future = running names }

  unfoldable pub on_point_notify : QString → Session F → Session F
  on_point_notify label s = record s { status = label }

module _ {F : Type 0} ⦃d : Double F⦄ where
  unfoldable pub started : Session F
  started = record {
    window = opened;
    log_future = not_started;
    dbc_future = not_started;
    log_path = [];
    dbc_path = [];
    status = [];
  }

  -- onLoadLogFile at the signal finished(): the future rethrows what its function has thrown.
  unfoldable pub log_finished :
      QString → Outcome (List (CanLogMsg F)) → Session F → Outcome (Session F)
  log_finished name result s = result >>= λ log.
      ok (record s {
        status = [];
        window = on_load_log_file log s.window;
        log_future = notified name;
      })

  -- onLoadDbcFile at the signal finished().
  unfoldable pub dbc_finished : List QString → Outcome (CanDb F) → Session F → Outcome (Session F)
  dbc_finished names result s = result >>= λ db.
      ok (record s { window = on_load_dbc_file db s.window; dbc_future = notified names })

  abbrev pub signal_log : Task QString (List (CanLogMsg F)) → Session F → Outcome (Session F)
  signal_log (finished name result) s = log_finished name result s
  signal_log _ s = ok s

  abbrev pub signal_dbc : Task (List QString) (CanDb F) → Session F → Outcome (Session F)
  signal_dbc (finished names result) s = dbc_finished names result s
  signal_dbc _ s = ok s

  -- The event loop delivers finished() of a future at most once.
  unfoldable pub deliver_log : Session F → Outcome (Session F)
  deliver_log s = signal_log s.log_future s

  unfoldable pub deliver_dbc : Session F → Outcome (Session F)
  deliver_dbc s = signal_dbc s.dbc_future s

-- A thread of the pool runs the function of a future.
abbrev pub ran : {N A : Type 0} → (N → Outcome A) → Task N A → Task N A
ran function (running name) = finished name (function name)
ran function t = t

module _ {F : Type 0} ⦃d : Double F⦄ {S : Type 0} (text : Text F) where
  -- The function that openDbcFile runs, on the files as they are then.
  unfoldable pub run_dbc : Disk S → Session F → Session F
  run_dbc disk s = record s {
    dbc_future = ran (λ names. ok (Dbc.parse text disk.text_file names)) s.dbc_future;
  }

module _ {F : Type 0} ⦃d : Double F⦄ {S : Type 0} (text : Text F) (stream : DataStream S)
    (index_of : QByteArray → ℕ → Option ℕ) (uncompress : QByteArray → QByteArray) (fuel : ℕ) where
  abbrev pub load_log : Disk S → QString → Outcome (List (CanLogMsg F))
  load_log disk name =
      Log.parse text stream index_of uncompress fuel disk.text_file disk.binary_file name

  -- The function that openFile runs, on the files as they are then.
  unfoldable pub run_log : Disk S → Session F → Session F
  run_log disk s = record s { log_future = ran (load_log disk) s.log_future }
