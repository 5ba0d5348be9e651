-- ===== src/Loading/Total.antt =====
-- Which actions cannot fail, whatever has happened before.
use can_tracer.Prelude.{ℕ, ◌≡◌, refl, sym, ap, ◌∙◌, Option, none, List}
use can_tracer.Prelude.Outcome.{failure, failure-map}
use can_tracer.Qt.{QString, Double, Text, DataStream, QByteArray}
use can_tracer.Can.{CanLogMsg, CanDb}
use can_tracer.Window.Step.{step}
use can_tracer.Window.Reach.{Reached-IsConsistent}
use can_tracer.Window.Total.{Allowed, step_total}
use can_tracer.Loading.{
  Task, not_started, running, finished, notified, Session, log_finished, dbc_finished, deliver_log,
  deliver_dbc, signal_log, signal_dbc,
}
use can_tracer.Loading.Reach.{Action, act, Reached}
use can_tracer.Loading.Shown.{DbcLoads, Reached-Loads}
use can_tracer.Loading.Plots.{Reached-window}

-- If the function of the future has ended, it has returned.
abbrev pub HasReturned : {N A : Type 0} → Task N A → Type 0
HasReturned (finished name result) = failure result ≡ none
HasReturned _ = Unit

module _ {F : Type 0} {S : Type 0} ⦃d : Double F⦄ where
  -- A slot works on rows that exist and on signals that have a graph, and the parser of the log whose
  -- finished() is delivered has returned.
  abbrev pub IsFine : Session F → Action F S → Type 0
  IsFine s (Action.slot e) = Allowed s.window e
  IsFine s Action.log_signal = HasReturned s.log_future
  IsFine s _ = Unit

module _ {F : Type 0} ⦃d : Double F⦄ where
  signal_log_total :
      (t : Task QString (List (CanLogMsg F))) (s : Session F)
      → HasReturned t
      → failure (signal_log t s) ≡ none
  unfolding log_finished
  signal_log_total not_started s h = refl
  signal_log_total (running name) s h = refl
  signal_log_total (finished name result) s h = failure-map result _ ∙ h
  signal_log_total (notified name) s h = refl

module _ {F : Type 0} {S : Type 0} ⦃d : Double F⦄ (text : Text F) (stream : DataStream S)
    (index_of : QByteArray → ℕ → Option ℕ) (uncompress : QByteArray → QByteArray) (fuel : ℕ) where
  signal_dbc_total :
      (t : Task (List QString) (CanDb F)) (s : Session F)
      → DbcLoads text stream index_of uncompress fuel t s.dbc_path s.window.msg_db
      → failure (signal_dbc t s) ≡ none
  unfolding dbc_finished
  signal_dbc_total not_started s h = refl
  signal_dbc_total (running names) s h = refl
  signal_dbc_total (finished names result) s (p, disk, e) =
      failure-map result _ ∙ ap failure (sym e)
  signal_dbc_total (notified names) s h = refl

  -- In every session that the program can reach, no dialog, thread or signal fails, but the signal of a log
  -- whose parser has failed, and no slot but one that removes, highlights or edits a row that does not
  -- exist, or adds a signal that is not in the database or has no graph.
  pub act_total :
      (s : Session F) (a : Action F S)
      → Reached text stream index_of uncompress fuel s
      → IsFine s a
      → failure (act text stream index_of uncompress fuel a s) ≡ none
  unfolding act deliver_log deliver_dbc
  act_total s (Action.choose_log name) r h = refl
  act_total s (Action.choose_dbc names) r h = refl
  act_total s (Action.point_notify label) r h = refl
  act_total s (Action.slot e) r h =
      let reached = Reached-window text stream index_of uncompress fuel r in
      failure-map (step e s.window) _ ∙ step_total s.window e (Reached-IsConsistent reached) h
  act_total s (Action.log_thread disk) r h = refl
  act_total s (Action.dbc_thread disk) r h = refl
  act_total s Action.log_signal r h = signal_log_total s.log_future s h
  act_total s Action.dbc_signal r h =
      let loads = Reached-Loads text stream index_of uncompress fuel r in
      signal_dbc_total s.dbc_future s loads.dbc
