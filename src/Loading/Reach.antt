-- ===== src/Loading/Reach.antt =====
-- The orders in which the slots, the dialogs, the threads of the pool and the event loop can take turns.
use can_tracer.Prelude.{ℕ, ◌<◌, ◌≡◌, Option, some, List, length}
use can_tracer.Prelude.Outcome.{Outcome, ok, ◌>>=◌}
use can_tracer.Qt.{QString, Double, Text, DataStream, QByteArray}
use can_tracer.Window.{MainWindow}
use can_tracer.Window.Step.{Event, step}
use can_tracer.Loading.{
  Disk, Session, started, open_file, open_dbc_file, on_point_notify, run_log, run_dbc, deliver_log,
  deliver_dbc,
}

-- A dialog that was closed, a point of a chart under the mouse, a slot, a thread of the pool that has run
-- a parser, and finished() of a future that the event loop delivers.
pub data Action (F S : Type 0) : Type 0 where
  choose_log : QString → Action F S
  choose_dbc : List QString → Action F S
  point_notify : QString → Action F S
  slot : Event F → Action F S
  log_thread dbc_thread : Disk S → Action F S
  log_signal dbc_signal : Action F S

-- What the user's clicks can call: the two slots for a load are called by the futures only, and the row
-- that is clicked exists.
abbrev pub IsClick : {F : Type 0} → MainWindow F → Event F → Type 0
IsClick w (Event.load_log result) = ⊥
IsClick w (Event.load_dbc result) = ⊥
IsClick w (Event.msg_select (some row)) = row < length w.msg_db
IsClick w _ = Unit

abbrev pub CanHappen : {F S : Type 0} → Session F → Action F S → Type 0
CanHappen s (Action.slot e) = IsClick s.window e
CanHappen s _ = Unit

module _ {F : Type 0} {S : Type 0} ⦃d : Double F⦄ (text : Text F) (stream : DataStream S)
    (index_of : QByteArray → ℕ → Option ℕ) (uncompress : QByteArray → QByteArray) (fuel : ℕ) where
  unfoldable pub act : Action F S → Session F → Outcome (Session F)
  act (Action.choose_log name) s = ok (open_file name s)
  act (Action.choose_dbc names) s = ok (open_dbc_file names s)
  act (Action.point_notify label) s = ok (on_point_notify label s)
  act (Action.slot e) s = step e s.window >>= λ w. ok (record s { window = w })
  act (Action.log_thread disk) s = ok (run_log text stream index_of uncompress fuel disk s)
  act (Action.dbc_thread disk) s = ok (run_dbc text disk s)
  act Action.log_signal s = deliver_log s
  act Action.dbc_signal s = deliver_dbc s

  -- What the program can make of the window that it opens.
  pub data Reached : Session F → Type 0 where
    start : Reached started
    next :
        {s s' : Session F} (a : Action F S)
        → Reached s
        → CanHappen s a
        → act a s ≡ ok s'
        → Reached s'
