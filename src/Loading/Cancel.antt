-- ===== src/Loading/Cancel.antt =====
-- What a dialog for files does that is closed without a choice.
use can_tracer.Prelude.{ℕ, ◌≡◌, refl, List, [], ◌∷◌, Option}
use can_tracer.Prelude.Int.{negsuc}
use can_tracer.Prelude.Outcome.{ok}
use can_tracer.Qt.{QString, Double, Text, DataStream, QByteArray}
use can_tracer.Dbc
use can_tracer.Window.{on_load_dbc_file}
use can_tracer.Loading.{
  notified, Disk, Session, joined, open_file, open_dbc_file, dbc_finished, deliver_dbc, run_dbc,
}
use can_tracer.Loading.Reach.{Action, act}
use can_tracer.Loading.Ends.{run}

module _ {F : Type 0} {S : Type 0} ⦃d : Double F⦄ (text : Text F) (stream : DataStream S)
    (index_of : QByteArray → ℕ → Option ℕ) (uncompress : QByteArray → QByteArray) (fuel : ℕ) where
  -- A dialog for database files, the load and its signal give the window the messages of the files that
  -- were chosen, with none selected. A dialog for a log that is closed without a choice changes nothing,
  -- but one for database files leaves the window with no message.
  pub dialogs_closed :
      (names : List QString) (disk : Disk S) (s : Session F)
      → (run text stream index_of uncompress fuel
            (Action.choose_dbc names ∷ Action.dbc_thread disk ∷ Action.dbc_signal ∷ [])
            s
          ≡ ok (record s {
            dbc_path = joined names;
            dbc_future = notified names;
            window = on_load_dbc_file (Dbc.parse text disk.text_file names) s.window;
          }))
        × (run text stream index_of uncompress fuel (Action.choose_log [] ∷ []) s ≡ ok s)
        × (run text stream index_of uncompress fuel
              (Action.choose_dbc [] ∷ Action.dbc_thread disk ∷ Action.dbc_signal ∷ [])
              s
            ≡ ok (record s {
              dbc_path = [];
              dbc_future = notified [];
              window = record (s.window) { msg_db = []; msg_index = negsuc 0 };
            }))
  unfolding act open_file open_dbc_file run_dbc deliver_dbc dbc_finished on_load_dbc_file Dbc.parse
      Dbc.parse_files
  dialogs_closed names disk s = (refl, refl, refl)
