-- ===== src/LogModel.antt =====
-- src/canlogmodel.cpp: the table of log entries, with the signals of each entry below it.
pub mod Cells
pub mod Highlights
use can_tracer.Prelude.{
  ℕ, zero, suc, Bool, true, false, ◌&&◌, Option, none, some, List, [], ◌∷◌, ◌++◌, ltb, leb, ◌==◌,
  if◌then◌else◌, length, get_elem?,
}
use can_tracer.Prelude.Outcome.{Outcome, ok, fault, bad_access, out_of_range, or_fault, ◌>>=◌}
use can_tracer.Qt.{QString, Double, QColor}
use can_tracer.Can.{
  CanLogMsg, CanSignal, CanMessage, CanDb, find_message, signal_count, display, format_id,
}
use can_tracer.Signal.{parse_signal}

abbrev pub column_count : ℕ
column_count = 7

-- A QModelIndex: not valid, that of an entry of the log, or that of a signal below the entry to which
-- its internal pointer leads, by the index of the entry.
pub data LogIndex : Type 0 where
  invalid : LogIndex
  entry : ℕ → ℕ → LogIndex
  below : ℕ → ℕ → ℕ → LogIndex

-- How Qt writes numbers: an integer, a double with four decimals, a double, two digits of a byte with a
-- blank before them, and an id.
pub record Format (F : Type 0) : Type 0 where
  pub integer : ℕ → QString
  pub decimals : F → QString
  pub general : F → QString
  pub hex_byte : ℕ → QString
  pub hex_id : ℕ → ℕ → QString

-- The two hashes, as functions that give `false` for a missing key.
pub record Highlighted : Type 0 where
  pub row_list : ℕ → Bool
  pub id_list : ℕ → Bool

pub data Background : Type 0 where
  yellow green : Background
  message_color : QColor → Background

unfoldable pub log_changed : Highlighted → Highlighted
log_changed h = record { row_list = λ row. false; id_list = λ id. false }

abbrev pub insert : ℕ → Bool → (ℕ → Bool) → ℕ → Bool
insert key value map k = if k == key then value else map k

module _ {F : Type 0} (buffer : List (CanLogMsg F)) where
  abbrev pub row_of : LogIndex → Option ℕ
  row_of invalid = none
  row_of (entry row column) = some row
  row_of (below row column owner) = some row

  unfoldable pub set_highlight_msg : LogIndex → Bool → Highlighted → Highlighted
  set_highlight_msg index status h = elim (row_of index) [
    | none ↦ h
    | some row ↦ record h { row_list = insert row status h.row_list }
  ]

  unfoldable pub set_highlight_id : LogIndex → Bool → Highlighted → Outcome Highlighted
  set_highlight_id index status h = elim (row_of index) [
    | none ↦ ok h
    | some row ↦ or_fault out_of_range (get_elem? buffer row) >>= λ msg.
        ok (record h { id_list = insert msg.id status h.id_list })
  ]

  unfoldable pub is_msg_highlight : LogIndex → Highlighted → Bool
  is_msg_highlight index h = elim (row_of index) [ none ↦ false | some row ↦ h.row_list row ]

  unfoldable pub is_id_highlight : LogIndex → Highlighted → Outcome Bool
  is_id_highlight index h = elim (row_of index) [
    | none ↦ ok false
    | some row ↦ or_fault out_of_range (get_elem? buffer row) >>= λ msg. ok (h.id_list msg.id)
  ]

module _ {F : Type 0} ⦃d : Double F⦄ (format : Format F) (buffer : List (CanLogMsg F))
    (db : CanDb F) where
  abbrev signals_of : Option (CanMessage F) → ℕ
  signals_of none = 0
  signals_of (some msg) = signal_count msg

  unfoldable pub row_count : LogIndex → Outcome ℕ
  row_count invalid = ok (length buffer)
  row_count (entry row column) = or_fault out_of_range (get_elem? buffer row) >>= λ log.
      ok (signals_of (find_message db log.id))
  row_count (below row column owner) = ok 0

  -- Behind hasIndex, which compares with rowCount and columnCount.
  abbrev index_below : ℕ → ℕ → ℕ → CanLogMsg F → LogIndex
  index_below row column owner log = elim (find_message db log.id) [
    | none ↦ invalid
    | some msg ↦ if ltb row (signal_count msg) then below row column owner else invalid
  ]

  unfoldable pub index : ℕ → ℕ → LogIndex → Outcome LogIndex
  index row column parent = row_count parent >>= λ rows.
      if ltb row rows && ltb column column_count
      then elim parent [
        | invalid ↦ ok (entry row column)
        | entry p c ↦
            or_fault out_of_range (get_elem? buffer p) >>= λ log. ok (index_below row column p log)
        | below p c owner ↦
            or_fault out_of_range (get_elem? buffer p) >>= λ log. ok (index_below row column p log)
      ]
      else ok invalid

  -- The loop over the data of an entry: `item.data[i]` for i below the dlc.
  unfoldable pub data_text : ℕ → List ℕ → Outcome QString
  data_text zero bytes = ok []
  data_text (suc n) [] = fault bad_access
  data_text (suc n) (b ∷ bs) = do rest ← data_text n bs; ok (format.hex_byte b ++ rest)

  abbrev name_of : Option (CanMessage F) → QString
  name_of none = []
  name_of (some msg) = msg.name

  unfoldable pub entry_text : ℕ → CanLogMsg F → Outcome (Option QString)
  entry_text column item =
      if column == 0
      then ok (some (format.integer item.number))
      else if column == 1
      then ok (some (format.decimals item.time))
      else if column == 2
      then ok (some (format.integer item.channel))
      else if column == 3
      then ok (some (format_id format.hex_id item.id))
      else if column == 4
      then ok (some (format.integer item.dlc))
      else if column == 5
      then ok (some (name_of (find_message db item.id)))
      else if column == 6
      then (data_text item.dlc item.bytes >>= λ text. ok (some text))
      else ok none

  unfoldable pub signal_text : ℕ → CanSignal F → CanLogMsg F → Outcome (Option QString)
  signal_text column signal item =
      if column == 0
      then ok (some signal.name)
      else if column == 1
      then ok (some signal.unit)
      else if column == 2
      then (parse_signal signal item.bytes item.dlc >>= λ value. ok (some (format.general value)))
      else if column == 3
      then (parse_signal signal item.bytes item.dlc >>= λ value.
          ok (some (display format.general signal value)))
      else ok (some [])

  unfoldable pub display_row_data : LogIndex → Outcome (Option QString)
  display_row_data invalid = ok none
  display_row_data (entry row column) =
      or_fault out_of_range (get_elem? buffer row) >>= λ item. entry_text column item
  display_row_data (below row column owner) = do
    item ← or_fault bad_access (get_elem? buffer owner)
    msg ← or_fault bad_access (find_message db item.id)
    signal ← or_fault out_of_range (get_elem? msg.can_signals row)
    signal_text column signal item

  -- data() in the role of the text: the row of an index is compared with the size of the log also for
  -- the index of a signal.
  unfoldable pub display_data : LogIndex → Outcome (Option QString)
  display_data index = elim (row_of buffer index) [
    | none ↦ ok none
    | some row ↦ if leb (length buffer) row then ok none else display_row_data index
  ]

  -- data() in the role of the background.
  unfoldable pub background : Highlighted → LogIndex → Option Background
  background h index = elim (row_of buffer index) [
    | none ↦ none
    | some row ↦ elim (get_elem? buffer row) [
      | none ↦ none
      | some msg ↦
          if h.row_list row
          then some yellow
          else if h.id_list msg.id
          then some green
          else elim (find_message db msg.id) [ none ↦ none | some m ↦ some (message_color m.color) ]
    ]
  ]
