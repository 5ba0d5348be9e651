-- ===== src/Loading/Ends.antt =====
-- A load that is started ends, whatever else happens meanwhile.
use can_tracer.Prelude.{ℕ, ◌≤◌, ◌≡◌, refl, sym, ap, ◌∙◌, List, [], ◌∷◌, All, Option, arith}
use can_tracer.Prelude.Outcome.{
  Outcome, ok, fault, Ensures, ensured, failed, ◌>>=◌, Ensures->>=, >>=_assoc, Ensures-mono,
  Ensures-any,
}
use can_tracer.Qt.{QString, Double, Text, DataStream, QByteArray}
use can_tracer.Can.{CanLogMsg, CanDb}
use can_tracer.Window.{on_load_log_file}
use can_tracer.Window.Step.{step}
use can_tracer.Loading.{
  Task, not_started, running, finished, notified, Disk, Session, open_dbc_file, on_point_notify,
  log_finished, dbc_finished, deliver_log, deliver_dbc, run_dbc, load_log, run_log, signal_log,
  signal_dbc, ran,
}
use can_tracer.Loading.Reach.{Action, act}

-- The future was started with n, and its function has returned if 1 ≤ k, and finished() was sent if k is 2.
abbrev pub IsBehind : {N A : Type 0} → ℕ → N → Task N A → Type 0
IsBehind k n not_started = ⊥
IsBehind k n (running m) = (m ≡ n) × (k ≡ 0)
IsBehind k n (finished m result) = (m ≡ n) × (k ≤ 1)
IsBehind k n (notified m) = (m ≡ n) × (k ≤ 2)

-- Any action but the choice of another log.
abbrev pub OpensNoLog : {F S : Type 0} → Action F S → Type 0
OpensNoLog (Action.choose_log name) = ⊥
OpensNoLog _ = Unit

module _ {F : Type 0} ⦃d : Double F⦄ where
  abbrev pub shown_log : QString → List (CanLogMsg F) → Session F → Session F
  shown_log name log s = record s {
    status = [];
    window = on_load_log_file log s.window;
    log_future = notified name;
  }

module _ {F : Type 0} {S : Type 0} ⦃d : Double F⦄ (text : Text F) (stream : DataStream S)
    (index_of : QByteArray → ℕ → Option ℕ) (uncompress : QByteArray → QByteArray) (fuel : ℕ) where
  abbrev pub run : List (Action F S) → Session F → Outcome (Session F)
  run [] s = ok s
  run (a ∷ actions) s = act text stream index_of uncompress fuel a s >>= run actions

  abbrev pub LogIsBehind : ℕ → QString → Session F → Type 0
  LogIsBehind k name s = IsBehind k name s.log_future

  ran-IsBehind :
      {N A : Type 0} (k : ℕ) (n : N) (function : N → Outcome A) (t : Task N A)
      → IsBehind k n t
      → IsBehind k n (ran function t)
  ran-IsBehind k n function not_started h = h
  ran-IsBehind k n function (running m) h = (h.0, omega (arith, h.1))
  ran-IsBehind k n function (finished m result) h = h
  ran-IsBehind k n function (notified m) h = h

  returned-IsBehind :
      {N A : Type 0} (n : N) (function : N → Outcome A) (t : Task N A)
      → IsBehind 0 n t
      → IsBehind 1 n (ran function t)
  returned-IsBehind n function not_started h = h
  returned-IsBehind n function (running m) h = (h.0, omega arith)
  returned-IsBehind n function (finished m result) h = (h.0, omega arith)
  returned-IsBehind n function (notified m) h = (h.0, omega arith)

  signal_log-IsBehind :
      (k : ℕ) (name : QString) (t : Task QString (List (CanLogMsg F))) (s : Session F)
      → s.log_future ≡ t
      → IsBehind k name t
      → Ensures (LogIsBehind k name) (signal_log t s)
  unfolding log_finished
  signal_log-IsBehind k name not_started s e h = ensured (rw e h)
  signal_log-IsBehind k name (running m) s e h = ensured (rw e h)
  signal_log-IsBehind k name (finished m (fault x)) s e h = failed
  signal_log-IsBehind k name (finished m (ok log)) s e h = ensured (h.0, omega (arith, h.1))
  signal_log-IsBehind k name (notified m) s e h = ensured (rw e h)

  sent-IsBehind :
      (name : QString) (t : Task QString (List (CanLogMsg F))) (s : Session F)
      → s.log_future ≡ t
      → IsBehind 1 name t
      → Ensures (λ (s' : Session F). s'.log_future ≡ notified name) (signal_log t s)
  unfolding log_finished
  sent-IsBehind name not_started s e h = elim h [ ]
  sent-IsBehind name (running m) s e h = absurd (omega (arith, h.1))
  sent-IsBehind name (finished m (fault x)) s e h = failed
  sent-IsBehind name (finished m (ok log)) s e h = ensured (ap notified h.0)
  sent-IsBehind name (notified m) s e h = ensured (e ∙ ap notified h.0)

  signal_dbc-log_future :
      (t : Task (List QString) (CanDb F)) (s : Session F)
      → Ensures (λ (s' : Session F). s'.log_future ≡ s.log_future) (signal_dbc t s)
  unfolding dbc_finished
  signal_dbc-log_future not_started s = ensured refl
  signal_dbc-log_future (running names) s = ensured refl
  signal_dbc-log_future (finished names (fault e)) s = failed
  signal_dbc-log_future (finished names (ok db)) s = ensured refl
  signal_dbc-log_future (notified names) s = ensured refl

  -- No action but the choice of a log takes a load back.
  act-IsBehind :
      (k : ℕ) (name : QString) (a : Action F S) (s : Session F)
      → OpensNoLog a
      → LogIsBehind k name s
      → Ensures (LogIsBehind k name) (act text stream index_of uncompress fuel a s)
  unfolding act open_dbc_file on_point_notify run_log run_dbc deliver_log deliver_dbc
  act-IsBehind k name (Action.choose_log other) s c h = elim c [ ]
  act-IsBehind k name (Action.choose_dbc names) s c h = ensured h
  act-IsBehind k name (Action.point_notify label) s c h = ensured h
  act-IsBehind k name (Action.slot e) s c h = Ensures-any (step e s.window) (λ w. ensured h)
  act-IsBehind k name (Action.log_thread disk) s c h =
      ensured (ran-IsBehind k name _ s.log_future h)
  act-IsBehind k name (Action.dbc_thread disk) s c h = ensured h
  act-IsBehind k name Action.log_signal s c h = signal_log-IsBehind k name s.log_future s refl h
  act-IsBehind k name Action.dbc_signal s c h =
      Ensures-mono (λ s' e. rw e h) (signal_dbc-log_future s.dbc_future s)

  run-IsBehind :
      (k : ℕ) (name : QString) (actions : List (Action F S)) (s : Session F)
      → All OpensNoLog actions
      → LogIsBehind k name s
      → Ensures (LogIsBehind k name) (run actions s)
  run-IsBehind k name [] s c h = ensured h
  run-IsBehind k name (a ∷ actions) s c h =
      Ensures->>= (act-IsBehind k name a s c.0 h) (λ s' h'. run-IsBehind k name actions s' c.1 h')

  notified_of :
      (name : QString) (t : Task QString (List (CanLogMsg F)))
      → IsBehind 2 name t
      → t ≡ notified name
  notified_of name not_started h = elim h [ ]
  notified_of name (running m) h = absurd (omega (arith, h.1))
  notified_of name (finished m result) h = absurd (omega (arith, h.1))
  notified_of name (notified m) h = ap notified h.0

  at_once :
      (name : QString) (disk : Disk S) (s : Session F)
      → s.log_future ≡ running name
      → run (Action.log_thread disk ∷ Action.log_signal ∷ []) s ≡ (
          load_log text stream index_of uncompress fuel disk name >>= λ log.
          ok (shown_log name log s))
  unfolding act run_log deliver_log log_finished
  at_once name disk s e = rw e (
      sym (
        >>=_assoc (load_log text stream index_of uncompress fuel disk name)
          (λ log. ok (shown_log name log s)) (run [])))

  -- If a log is being loaded, whatever else happens and in whatever order, as long as no other log is opened
  -- and no slot fails: once the thread has run the parser and then the event loop has had a turn for the
  -- future, the load has ended. Nothing else is needed: when both have a turn at once, the log is shown and
  -- the message of the status bar is cleared, unless the parser fails.
  pub load_ends :
      (name : QString) (disk : Disk S) (before between behind : List (Action F S)) (s : Session F)
      → s.log_future ≡ running name
      → All OpensNoLog before
      → All OpensNoLog between
      → All OpensNoLog behind
      → Ensures
          (λ (s' : Session F). s'.log_future ≡ notified name)
          (run before s
            >>= act text stream index_of uncompress fuel (Action.log_thread disk)
            >>= run between
            >>= act text stream index_of uncompress fuel Action.log_signal
            >>= run behind)
        × (run (Action.log_thread disk ∷ Action.log_signal ∷ []) s ≡ (
            load_log text stream index_of uncompress fuel disk name >>= λ log.
            ok (shown_log name log s)))
  unfolding act run_log deliver_log
  load_ends name disk before between behind s e b m a = (
    Ensures-mono (λ s' h. notified_of name s'.log_future h)
        (Ensures->>=
          (Ensures->>=
            (Ensures->>=
              (Ensures->>= (run-IsBehind 0 name before s b (rw e (refl, refl)))
                (λ s1 h. ensured (returned-IsBehind name _ s1.log_future h)))
              (λ s2 h. run-IsBehind 1 name between s2 m h))
            (λ s3 h.
              Ensures-mono (λ s4 h'. rw h' (refl, omega arith))
                (sent-IsBehind name s3.log_future s3 refl h)))
          (λ s4 h. run-IsBehind 2 name behind s4 a h)),
    at_once name disk s e,
  )
