-- ===== src/Loading/Shown.antt =====
-- What the window shows of the files that were opened.
use can_tracer.Prelude.{
  ℕ, ◌≡◌, refl, sym, ap, ◌∙◌, ◌⊎◌, Bool-cases, Option, none, List, [], length, inl, inr,
}
use can_tracer.Prelude.Outcome.{
  ok, fault, Ensures, ensured, failed, value_of_Ensures, Ensures->>=, of_ok,
}
use can_tracer.Qt.{QString, str_eq, Double, Text, DataStream, QByteArray}
use can_tracer.Can.{CanLogMsg, CanDb}
use can_tracer.Dbc
use can_tracer.Window.{MainWindow, opened, on_load_log_file, on_load_dbc_file, reset}
use can_tracer.Loading.{
  Task, not_started, running, finished, notified, Disk, Session, joined, started, open_file,
  open_dbc_file, on_point_notify, log_finished, dbc_finished, deliver_log, deliver_dbc, run_dbc,
  signal_log, signal_dbc, ran, load_log, run_log,
}
use can_tracer.Loading.Reach.{Action, CanHappen, act, Reached, start, next}
use can_tracer.Loading.Keeps.{uncolored, IsSelection, Keeps, step-Keeps}

module _ {F : Type 0} {S : Type 0} ⦃d : Double F⦄ (text : Text F) (stream : DataStream S)
    (index_of : QByteArray → ℕ → Option ℕ) (uncompress : QByteArray → QByteArray) (fuel : ℕ) where
  -- A log that Parser::parse made of a file.
  abbrev pub IsLogOf : QString → List (CanLogMsg F) → Type 0
  IsLogOf name log =
      (disk : Disk S) × (load_log text stream index_of uncompress fuel disk name ≡ ok log)

  -- The messages that DbcParser::parse made of files, but for their colors.
  abbrev pub IsDbOf : List QString → CanDb F → Type 0
  IsDbOf names db =
      (disk : Disk S) × (uncolored db ≡ uncolored (Dbc.parse text disk.text_file names))

  abbrev pub LogLoads : Task QString (List (CanLogMsg F)) → QString → List (CanLogMsg F) → Type 0
  LogLoads not_started path log = (path ≡ []) × (log ≡ [])
  LogLoads (running name) path log = path ≡ name
  LogLoads (finished name result) path log =
      (path ≡ name)
      × (disk : Disk S) × (load_log text stream index_of uncompress fuel disk name ≡ result)
  LogLoads (notified name) path log = (path ≡ name) × IsLogOf name log

  abbrev pub DbcLoads : Task (List QString) (CanDb F) → QString → CanDb F → Type 0
  DbcLoads not_started path db = (path ≡ []) × IsDbOf [] db
  DbcLoads (running names) path db = path ≡ joined names
  DbcLoads (finished names result) path db =
      (path ≡ joined names) × (disk : Disk S) × (ok (Dbc.parse text disk.text_file names) ≡ result)
  DbcLoads (notified names) path db = (path ≡ joined names) × IsDbOf names db

  -- The line of a path names the file of the future; once finished() was sent, the window shows what the
  -- parser made of that file. Before, it shows an earlier file, or nothing.
  pub record Loads (s : Session F) : Type 0 where
    pub log : LogLoads s.log_future s.log_path s.window.log
    pub dbc : DbcLoads s.dbc_future s.dbc_path s.window.msg_db
    pub some_log : (s.window.log ≡ []) ⊎ ((name : QString) × IsLogOf name s.window.log)
    pub some_db : (names : List QString) × IsDbOf names s.window.msg_db
    pub selected : IsSelection s.window.msg_index (length s.window.msg_db)

  no_disk : Disk S
  no_disk = record { text_file = λ name. none; binary_file = λ name. none }

  started-Loads : Loads started
  unfolding started opened Dbc.parse Dbc.parse_files
  started-Loads = record {
    log = (refl, refl);
    dbc = (refl, (no_disk, refl));
    some_log = inl refl;
    some_db = ([], (no_disk, refl));
    selected = tt;
  }

  keeps-LogLoads :
      (t : Task QString (List (CanLogMsg F))) (path : QString) {log log' : List (CanLogMsg F)}
      → log' ≡ log
      → LogLoads t path log
      → LogLoads t path log'
  keeps-LogLoads not_started path e (p, l) = (p, e ∙ l)
  keeps-LogLoads (running name) path e h = h
  keeps-LogLoads (finished name result) path e h = h
  keeps-LogLoads (notified name) path e (p, (disk, l)) = (p, (disk, l ∙ ap ok (sym e)))

  keeps-DbcLoads :
      (t : Task (List QString) (CanDb F)) (path : QString) (db db' : CanDb F)
      → uncolored db' ≡ uncolored db
      → DbcLoads t path db
      → DbcLoads t path db'
  keeps-DbcLoads not_started path db db' e (p, (disk, l)) = (p, (disk, e ∙ l))
  keeps-DbcLoads (running names) path db db' e h = h
  keeps-DbcLoads (finished names result) path db db' e h = h
  keeps-DbcLoads (notified names) path db db' e (p, (disk, l)) = (p, (disk, e ∙ l))

  keeps-some_log :
      {log log' : List (CanLogMsg F)}
      → log' ≡ log
      → (log ≡ []) ⊎ ((name : QString) × IsLogOf name log)
      → (log' ≡ []) ⊎ ((name : QString) × IsLogOf name log')
  keeps-some_log e (inl l) = inl (e ∙ l)
  keeps-some_log e (inr (name, (disk, l))) = inr (name, (disk, l ∙ ap ok (sym e)))

  open_file-Loads : (name : QString) (s : Session F) → Loads s → Loads (open_file name s)
  unfolding open_file
  open_file-Loads name s h = elim (Bool-cases (str_eq name [])) [
    | inl e ↦ rw e h
    | inr e ↦ rw e (record {
      log = refl;
      dbc = h.dbc;
      some_log = h.some_log;
      some_db = h.some_db;
      selected = h.selected;
    })
  ]

  ran-LogLoads :
      (disk : Disk S) (t : Task QString (List (CanLogMsg F))) (path : QString)
      (log : List (CanLogMsg F))
      → LogLoads t path log
      → LogLoads (ran (load_log text stream index_of uncompress fuel disk) t) path log
  ran-LogLoads disk not_started path log h = h
  ran-LogLoads disk (running name) path log h = (h, disk, refl)
  ran-LogLoads disk (finished name result) path log h = h
  ran-LogLoads disk (notified name) path log h = h

  ran-DbcLoads :
      (disk : Disk S) (t : Task (List QString) (CanDb F)) (path : QString) (db : CanDb F)
      → DbcLoads t path db
      → DbcLoads (ran (λ names. ok (Dbc.parse text disk.text_file names)) t) path db
  ran-DbcLoads disk not_started path db h = h
  ran-DbcLoads disk (running names) path db h = (h, disk, refl)
  ran-DbcLoads disk (finished names result) path db h = h
  ran-DbcLoads disk (notified names) path db h = h

  signal_log-Loads :
      (t : Task QString (List (CanLogMsg F))) (s : Session F)
      → LogLoads t s.log_path s.window.log
      → Loads s
      → Ensures Loads (signal_log t s)
  unfolding log_finished on_load_log_file reset
  signal_log-Loads not_started s g h = ensured h
  signal_log-Loads (running name) s g h = ensured h
  signal_log-Loads (finished name (fault e)) s g h = failed
  signal_log-Loads (finished name (ok log)) s g h = ensured (record {
    log = (g.0, (g.1, g.2));
    dbc = h.dbc;
    some_log = inr (name, (g.1, g.2));
    some_db = h.some_db;
    selected = h.selected;
  })
  signal_log-Loads (notified name) s g h = ensured h

  signal_dbc-Loads :
      (t : Task (List QString) (CanDb F)) (s : Session F)
      → DbcLoads t s.dbc_path s.window.msg_db
      → Loads s
      → Ensures Loads (signal_dbc t s)
  unfolding dbc_finished on_load_dbc_file
  signal_dbc-Loads not_started s g h = ensured h
  signal_dbc-Loads (running names) s g h = ensured h
  signal_dbc-Loads (finished names (fault e)) s g h = failed
  signal_dbc-Loads (finished names (ok db)) s (p, disk, e) h =
      let parsed : IsDbOf names db = (disk, ap uncolored (of_ok (sym e))) in
      ensured (record {
        log = h.log;
        dbc = (p, parsed);
        some_log = h.some_log;
        some_db = (names, parsed);
        selected = tt;
      })
  signal_dbc-Loads (notified names) s g h = ensured h

  slot-Loads :
      (s : Session F) (w : MainWindow F)
      → Keeps s.window w
      → Loads s
      → Loads (record s { window = w })
  slot-Loads s w k h = record {
    log = keeps-LogLoads s.log_future s.log_path k.log h.log;
    dbc = keeps-DbcLoads s.dbc_future s.dbc_path s.window.msg_db w.msg_db k.msg_db h.dbc;
    some_log = keeps-some_log k.log h.some_log;
    some_db = (h.some_db.0, (h.some_db.1.0, k.msg_db ∙ h.some_db.1.1));
    selected = k.selected h.selected;
  }

  act-Loads :
      (a : Action F S) (s : Session F)
      → CanHappen s a
      → Loads s
      → Ensures Loads (act text stream index_of uncompress fuel a s)
  unfolding act open_dbc_file on_point_notify run_log run_dbc deliver_log deliver_dbc
  act-Loads (Action.choose_log name) s c h = ensured (open_file-Loads name s h)
  act-Loads (Action.choose_dbc names) s c h = ensured (record {
    log = h.log;
    dbc = refl;
    some_log = h.some_log;
    some_db = h.some_db;
    selected = h.selected;
  })
  act-Loads (Action.point_notify label) s c h = ensured (record {
    log = h.log;
    dbc = h.dbc;
    some_log = h.some_log;
    some_db = h.some_db;
    selected = h.selected;
  })
  act-Loads (Action.slot e) s c h =
      Ensures->>= (step-Keeps e s.window c) (λ w k. ensured (slot-Loads s w k h))
  act-Loads (Action.log_thread disk) s c h = ensured (record {
    log = ran-LogLoads disk s.log_future s.log_path s.window.log h.log;
    dbc = h.dbc;
    some_log = h.some_log;
    some_db = h.some_db;
    selected = h.selected;
  })
  act-Loads (Action.dbc_thread disk) s c h = ensured (record {
    log = h.log;
    dbc = ran-DbcLoads disk s.dbc_future s.dbc_path s.window.msg_db h.dbc;
    some_log = h.some_log;
    some_db = h.some_db;
    selected = h.selected;
  })
  act-Loads Action.log_signal s c h = signal_log-Loads s.log_future s h.log h
  act-Loads Action.dbc_signal s c h = signal_dbc-Loads s.dbc_future s h.dbc h

  -- Whatever the order of dialogs, clicks, threads and signals, as long as no slot fails: the line of a
  -- path names the files that were opened last; once their load has ended, the log is what Parser::parse
  -- made of that file, and the messages are what DbcParser::parse made of those, but for their colors;
  -- before, the window shows an earlier log or none; and the message that is selected exists.
  pub Reached-Loads : {s : Session F} → Reached text stream index_of uncompress fuel s → Loads s
  Reached-Loads start = started-Loads
  Reached-Loads (next {s} {s'} a r c e) =
      let known : Ensures Loads (ok s') = rw (sym e) (act-Loads a s c (Reached-Loads r)) in
      value_of_Ensures known
