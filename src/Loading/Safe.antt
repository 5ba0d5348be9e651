-- ===== src/Loading/Safe.antt =====
-- What the parsers promise holds for the log in the window, so that its tables can be shown.
use can_tracer.Prelude.{
  ℕ, ◌<◌, ◌≡◌, refl, sym, ap, ◌∙◌, ◌&&◌, Bool, false, Bool-cases, Option, none, some, Option-cases,
  List, [], ◌∷◌, All, All-get_elem?, length, get_elem?, get_elem?-some, ltb, ◌==◌, if◌then◌else◌,
  inl, inr, arith,
}
use mathlib.Core.Path.{subst}
use can_tracer.Prelude.Int.{ℤ, pos, negsuc}
use can_tracer.Prelude.Outcome.{ok, bad_access, failure, of_ok}
use can_tracer.Qt.{QString, codes, Double, Text, DataStream, QByteArray}
use can_tracer.Can.{CanLogMsg, CanDb, signal_count}
use can_tracer.Can.Logged.{IsData}
use can_tracer.Blf.Messages.{IsStream, IsLogged, parse-IsNumbered}
use can_tracer.Log.{parse_file, parse, get_extension, asc, trc, Driver}
use can_tracer.Log.Lines.{IsFrame, parse_text-frames}
use can_tracer.LogModel.{Format, entry, display_data}
use can_tracer.LogModel.Cells.{display_data-entry}
use can_tracer.MsgModel.{Role, display_role, signal_rows}
use can_tracer.MsgModel.Cells.{message_data}
use can_tracer.SignalModel.{signal_data}
use can_tracer.SignalModel.Cells.{signal_data-row_of}
use can_tracer.Loading.{Disk, Session, notified, load_log}
use can_tracer.Loading.Reach.{Reached}
use can_tracer.Loading.Keeps.{IsSelection}
use can_tracer.Loading.Shown.{LogLoads, Loads, Reached-Loads}

module _ {F : Type 0} {S : Type 0} ⦃d : Double F⦄ (text : Text F)
    (hex : (s : QString) → All (λ b. b < 256) (text.from_hex s)) (stream : DataStream S)
    (bytes : IsStream stream) (index_of : QByteArray → ℕ → Option ℕ)
    (uncompress : QByteArray → QByteArray) (fuel : ℕ) where
  abbrev HasData : CanLogMsg F → Type 0
  HasData m = IsData m.bytes

  abbrev pub is_blf : QString → Bool
  is_blf name = text.same_ci (get_extension text name) (codes "blf")

  -- The payloads have eight bytes, and no dlc is above 8 unless the file is a BLF file.
  abbrev pub IsLog : QString → List (CanLogMsg F) → Type 0
  IsLog name log = All HasData log × (is_blf name ≡ false → All IsFrame log)

  All-mono :
      (P Q : CanLogMsg F → Type 0) (ms : List (CanLogMsg F))
      → ((m : CanLogMsg F) → P m → Q m)
      → All P ms
      → All Q ms
  All-mono P Q [] go h = tt
  All-mono P Q (m ∷ ms) go h = (go m h.0, All-mono P Q ms go h.1)

  parse_file-IsFrame :
      (disk : Disk S) (driver : Driver) (name : QString) (log : List (CanLogMsg F))
      → parse_file text stream index_of uncompress fuel disk.text_file disk.binary_file driver name
        ≡ ok log
      → All IsFrame log
  unfolding parse_file
  parse_file-IsFrame disk driver name log = elim (Option-cases (disk.text_file name)) [
    | inl e ↦ rw (e, parse_file) (λ run. cc)
    | inr (lines, e) ↦ rw (e, parse_file) (λ run. parse_text-frames text hex driver lines log run)
  ]

  frames-IsLog : (name : QString) (log : List (CanLogMsg F)) → All IsFrame log → IsLog name log
  frames-IsLog name log h = (All-mono IsFrame HasData log (λ m f. f.payload) h, λ other. h)

  load_log-IsLog :
      (disk : Disk S) (name : QString) (log : List (CanLogMsg F))
      → load_log text stream index_of uncompress fuel disk name ≡ ok log
      → IsLog name log
  unfolding parse
  load_log-IsLog disk name log =
      let ext = get_extension text name in
      elim (Bool-cases (text.same_ci ext (codes "asc"))) [
        | inl e ↦ rw e (λ run. frames-IsLog name log (parse_file-IsFrame disk (asc 0) name log run))
        | inr e ↦ rw e (elim (Bool-cases (text.same_ci ext (codes "trc"))) [
          | inl e' ↦ rw e' (λ run. frames-IsLog name log (parse_file-IsFrame disk trc name log run))
          | inr e' ↦ rw e' (elim (Bool-cases (is_blf name)) [
            | inl e'' ↦ rw e'' (λ run. (
              All-mono IsLogged HasData log (λ m l. l.payload)
                  (parse-IsNumbered stream bytes index_of uncompress fuel (disk.binary_file name)
                    log run).1,
              λ other. cc,
            ))
            | inr e'' ↦ rw e'' (λ run. cc)
          ])
        ])
      ]

  payload_of :
      (s : Session F) (row : ℕ) (m : CanLogMsg F)
      → Loads text stream index_of uncompress fuel s
      → get_elem? s.window.log row ≡ some m
      → IsData m.bytes
  payload_of s row m h e = elim h.some_log [
    | inl none_shown ↦ absurd (
        let found : get_elem? [] row ≡ some m =
          ap (λ log. get_elem? log row) (sym none_shown) ∙ e in
        cc)
    | inr (name, loaded) ↦
        All-get_elem? HasData s.window.log row
          (load_log-IsLog loaded.0 name s.window.log loaded.1).0 e
  ]

  log-IsFrame :
      (s : Session F) (row : ℕ) (m : CanLogMsg F)
      → Loads text stream index_of uncompress fuel s
      → get_elem? s.window.log row ≡ some m
      → s.log_future ≡ notified s.log_path
      → is_blf s.log_path ≡ false
      → IsFrame m
  log-IsFrame s row m h e sent other =
      let ended : LogLoads text stream index_of uncompress fuel (notified s.log_path) s.log_path
          s.window.log =
        subst (λ t. LogLoads text stream index_of uncompress fuel t s.log_path s.window.log) sent
          h.log in
      All-get_elem? IsFrame s.window.log row
        ((load_log-IsLog ended.1.0 s.log_path s.window.log ended.1.1).1 other) e

  selection_total :
      (db : CanDb F) (index : ℤ)
      → IsSelection index (length db)
      → failure (signal_rows db index) ≡ none
  unfolding signal_rows
  selection_total db (negsuc n) h = refl
  selection_total db (pos row) h = rw ((get_elem?-some db row h).1) refl

  module _ (format : Format F) (arg : QString → QString → QString)
      (trimmed : QString → QString) where
    signal_cells :
        (db : CanDb F) (index : ℤ) (row column rows : ℕ)
        → IsSelection index (length db)
        → signal_rows db index ≡ ok rows
        → row < rows
        → failure (signal_data format arg trimmed db index display_role (some row) column) ≡ none
    unfolding signal_rows signal_count
    signal_cells db (negsuc n) row column rows h e lt = absurd (omega (arith, of_ok e, lt))
    signal_cells db (pos k) row column rows h e lt =
        let (msg, found) = get_elem?-some db k h in
        let size : length msg.can_signals ≡ rows = of_ok (rw found at e) in
        let inside : row < length msg.can_signals = omega (arith, size, lt) in
        let shown = signal_data-row_of format arg trimmed db k msg row column found inside in
        ap failure shown.3

    message_cells :
        (db : CanDb F) (role : Role) (row column : ℕ)
        → row < length db
        → failure (message_data format db role (some row) column) ≡ none
    unfolding message_data
    message_cells db role row column lt = rw ((get_elem?-some db row lt).1) refl

    -- In whatever order the loads, clicks and signals came, if fromHex and the stream give bytes: each cell
    -- of an entry in the table of the log is shown, but for the data of an entry with a dlc above 8, and
    -- that is not in the log of a file that is not a BLF file, once its load has ended; and every cell in
    -- the rows of the tables of the messages and of the signals is shown, as is the number of these rows.
    pub tables_total :
        (s : Session F)
        → Reached text stream index_of uncompress fuel s
        → ((row column : ℕ) (m : CanLogMsg F)
            → get_elem? s.window.log row ≡ some m
            → (failure (display_data format s.window.log s.window.msg_db (entry row column))
                ≡ (if column == 6 && ltb 8 m.dlc then some bad_access else none))
              × (s.log_future ≡ notified s.log_path
                  → is_blf s.log_path ≡ false
                  → failure (display_data format s.window.log s.window.msg_db (entry row column))
                    ≡ none))
          × (failure (signal_rows s.window.msg_db s.window.msg_index) ≡ none)
          × ((i j rows : ℕ)
              → signal_rows s.window.msg_db s.window.msg_index ≡ ok rows
              → i < rows
              → failure (
                  signal_data format arg trimmed s.window.msg_db s.window.msg_index display_role
                    (some i)
                    j)
                ≡ none)
          × ((role : Role) (i j : ℕ)
              → i < length s.window.msg_db
              → failure (message_data format s.window.msg_db role (some i) j) ≡ none)
    tables_total s r =
        let loads = Reached-Loads text stream index_of uncompress fuel r in
        (
          (λ row column m e.
              let payload : IsData m.bytes = payload_of s row m loads e in
              let shown =
                display_data-entry format s.window.log s.window.msg_db row column m e payload in
              (
                shown,
                (λ sent other.
                    let frame : IsFrame m = log-IsFrame s row m loads e sent other in
                    shown ∙ ground (arith, frame.dlc_le)),
              )),
          selection_total s.window.msg_db s.window.msg_index loads.selected,
          (λ i j rows. signal_cells s.window.msg_db s.window.msg_index i j rows loads.selected),
          (λ role i j. message_cells s.window.msg_db role i j),
        )
