-- ===== src/Loading/Plots.antt =====
-- The window of a session is one that its slots reach: what holds for them holds whenever files are loaded.
use can_tracer.Prelude.{
  ℕ, ◌<◌, ◌≡◌, some, length, get_elem?, refl, sym, Bool-cases, Option, inl, inr, List, [],
}
use can_tracer.Prelude.Outcome.{
  ok, fault, Ensures, ensured, failed, value_of_Ensures, Outcome-cases,
}
use can_tracer.Qt.{QString, str_eq, Double, Text, DataStream, QByteArray}
use can_tracer.Can.{CanLogMsg, CanDb}
use can_tracer.Qt.Variant.{Variant}
use can_tracer.LogModel.{Format}
use can_tracer.MsgModel.{display_role}
use can_tracer.Window.PlotList.{plot_data, plot_text, AllDraw-at}
use can_tracer.Window.{SignalPlotItem, ChartView}
use can_tracer.Window.Step.{Event, step}
use can_tracer.Window.Reach
use can_tracer.Window.Axes.{IsConsistent}
use can_tracer.Window.Series.{Draws, Reached-IsCharted}
use can_tracer.Loading.{
  Task, not_started, running, finished, notified, Session, started, open_file, open_dbc_file,
  on_point_notify, log_finished, dbc_finished, deliver_log, deliver_dbc, run_dbc, run_log,
  signal_log, signal_dbc,
}
use can_tracer.Loading.Reach.{Action, act, Reached, start, next}

module _ {F : Type 0} {S : Type 0} ⦃d : Double F⦄ (text : Text F) (stream : DataStream S)
    (index_of : QByteArray → ℕ → Option ℕ) (uncompress : QByteArray → QByteArray) (fuel : ℕ) where
  abbrev HasReached : Session F → Type 0
  HasReached s = Reach.Reached s.window

  open_file-HasReached :
      (name : QString) (s : Session F) → HasReached s → HasReached (open_file name s)
  unfolding open_file
  open_file-HasReached name s h = elim (Bool-cases (str_eq name [])) [
    | inl e ↦ rw e h
    | inr e ↦ rw e h
  ]

  signal_log-HasReached :
      (t : Task QString (List (CanLogMsg F))) (s : Session F)
      → HasReached s
      → Ensures HasReached (signal_log t s)
  unfolding log_finished step
  signal_log-HasReached not_started s h = ensured h
  signal_log-HasReached (running name) s h = ensured h
  signal_log-HasReached (finished name (fault e)) s h = failed
  signal_log-HasReached (finished name (ok log)) s h =
      ensured (Reach.next (Event.load_log log) h refl)
  signal_log-HasReached (notified name) s h = ensured h

  signal_dbc-HasReached :
      (t : Task (List QString) (CanDb F)) (s : Session F)
      → HasReached s
      → Ensures HasReached (signal_dbc t s)
  unfolding dbc_finished step
  signal_dbc-HasReached not_started s h = ensured h
  signal_dbc-HasReached (running names) s h = ensured h
  signal_dbc-HasReached (finished names (fault e)) s h = failed
  signal_dbc-HasReached (finished names (ok db)) s h =
      ensured (Reach.next (Event.load_dbc db) h refl)
  signal_dbc-HasReached (notified names) s h = ensured h

  slot-HasReached :
      (e : Event F) (s : Session F)
      → HasReached s
      → Ensures HasReached (act {S = S} text stream index_of uncompress fuel (Action.slot e) s)
  unfolding act
  slot-HasReached e s h = elim (Outcome-cases (step e s.window)) [
    | inl (x, run) ↦ rw run failed
    | inr (w, run) ↦ rw run (ensured (Reach.next e h run))
  ]

  act-HasReached :
      (a : Action F S) (s : Session F)
      → HasReached s
      → Ensures HasReached (act text stream index_of uncompress fuel a s)
  unfolding act open_dbc_file on_point_notify run_log run_dbc deliver_log deliver_dbc
  act-HasReached (Action.choose_log name) s h = ensured (open_file-HasReached name s h)
  act-HasReached (Action.choose_dbc names) s h = ensured h
  act-HasReached (Action.point_notify label) s h = ensured h
  act-HasReached (Action.slot e) s h = slot-HasReached e s h
  act-HasReached (Action.log_thread disk) s h = ensured h
  act-HasReached (Action.dbc_thread disk) s h = ensured h
  act-HasReached Action.log_signal s h = signal_log-HasReached s.log_future s h
  act-HasReached Action.dbc_signal s h = signal_dbc-HasReached s.dbc_future s h

  pub Reached-window :
      {s : Session F} → Reached text stream index_of uncompress fuel s → Reach.Reached s.window
  unfolding started
  Reached-window start = Reach.start
  Reached-window (next {s} {s'} a r c e) =
      let known : Ensures HasReached (ok s') = rw (sym e) (act-HasReached a s (Reached-window r)) in
      value_of_Ensures known

  -- Whatever the order of dialogs, clicks, threads and signals, as long as no slot fails: the sizes and tick
  -- counts of all charts are those that the axes ask for, and the row of each listed plot tells the id and
  -- the signal of the chart beside it, which draws the graph of that signal in the log that is loaded now,
  -- never in an earlier one.
  pub Reached-charts :
      (format : Format F) (arg : QString → QString → QString) (row : ℕ) {s : Session F}
      → Reached text stream index_of uncompress fuel s
      → row < length s.window.items
      → IsConsistent s.window
        × (item : SignalPlotItem F) × (view : ChartView F) × (get_elem? s.window.widgets row
            ≡ some view)
        × (plot_data format arg s.window.items display_role (some row)
            ≡ ok (Variant.text (plot_text format arg item.msg_id view.signal)))
        × Draws s.window.log item view
  unfolding plot_data
  Reached-charts format arg row {s} r lt =
      let reached = Reached-window r in
      let (item, view, found, chart, draws) =
        AllDraw-at s.window.log s.window.items s.window.widgets row (Reached-IsCharted reached)
          lt in
      (
        Reach.Reached-IsConsistent reached,
        item,
        view,
        chart,
        rw (found, draws.same_signal) refl,
        draws,
      )
