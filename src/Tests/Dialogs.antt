-- ===== src/Tests/Dialogs.antt =====
-- Dialogs, menus and editors, with a box that keeps its items and its index.
use can_tracer.Prelude.{
  ℕ, zero, suc, ◌<◌, ◌≡◌, refl, ap, ◌∙◌, true, false, Option, none, some, List, [], ◌∷◌, ◌++◌,
  arith, length, get_elem?, ◌==◌, if◌then◌else◌,
}
use can_tracer.Prelude.Int.{pos}
use can_tracer.Prelude.Outcome.{ok, fault, out_of_range, failure, ◌>>=◌}
use can_tracer.Qt.{QString, QColor, codes, Double}
use can_tracer.Qt.ComboBox.{ComboBox, IsComboBox, Item, first_with, data_at}
use can_tracer.Can.{CanLogMsg, CanSignal, CanMessage, CanDb, rx}
use can_tracer.Graph.{get_signal_graph, drawn}
use can_tracer.Window.{MainWindow, on_add_signal, add_item, with_axes, new_view}
use can_tracer.ColorEditor.{default_color, set_color, color, create_editor}
use can_tracer.ColorEditor.Kept.{is_named, color-set_color}
use can_tracer.Dialog.{
  SignalSelectDialog, open_dialog, on_msg_index_changed, pick_message, get_result_index,
}
use can_tracer.Dialog.Added.{on_add_signal-chosen}
use can_tracer.Dialog.Shown.{Shown, opened, message, IsShowing, Shown-IsShowing}
use can_tracer.Tests.Concrete.{Number, whole_numbers}

instance numbers : Double Number
numbers = whole_numbers

abbrev Box : Type 0
Box = List Item × Option ℕ

abbrev index_after : Box → Option ℕ
index_after (items, some i) = some i
index_after ([], none) = some 0
index_after (item ∷ items, none) = none

abbrev colored : ℕ → QColor → List Item → List Item
colored i color [] = []
colored zero color (item ∷ items) = (item.0, some color) ∷ items
colored (suc i) color (item ∷ items) = item ∷ colored i color items

abbrev box : ComboBox Box
box = record {
  new_box = ([], none);
  insert_item = λ i text b. (b.0 ++ (text, none) ∷ [], index_after b);
  set_item_data = λ i color b. (colored i color b.0, b.1);
  clear = λ b. ([], none);
  set_current_index = λ i b. (b.0, i);
  current_index = λ b. b.1;
  find_data = λ color b. first_with color b.0;
  item_data = λ i b. data_at i b.0;
}

abbrev items_of : Box → List Item
items_of b = b.0

first_of_empty : (b : Box) → items_of b ≡ [] → b.1 ≡ none → index_after b ≡ some 0
first_of_empty ([], none) e u = refl
first_of_empty (item ∷ items, none) e u = cc
first_of_empty (items, some i) e u = cc

kept_index : (b : Box) (i : ℕ) → b.1 ≡ some i → index_after b ≡ some i
kept_index (items, none) i e = cc
kept_index (items, some j) i e = e

colored_last :
    (before : List Item) (text : QString) (color : QColor)
    → colored (length before) color (before ++ (text, none) ∷ [])
      ≡ before ++ (text, some color) ∷ []
colored_last [] text color = refl
colored_last (item ∷ before) text color = ap (λ rest. item ∷ rest) (colored_last before text color)

box-IsComboBox : IsComboBox box items_of
box-IsComboBox = record {
  new_items = refl;
  new_index = refl;
  inserted = λ text b. refl;
  first_index = λ text b. first_of_empty b;
  later_index = λ text b. kept_index b;
  data_set = λ before text color b e.
      ap (colored (length before) color) e ∙ colored_last before text color;
  cleared = λ b. refl;
  cleared_index = λ b. refl;
  selected = λ i b. refl;
  selected_index = λ i b lt. refl;
  selected_none = λ b. refl;
  found = λ color b. refl;
  data_of = λ i b. refl;
}

abbrev red : QColor
red = record { is_valid = true; red = 255; green = 0; blue = 0; alpha = 255 }

abbrev blue : QColor
blue = record { is_valid = true; red = 0; green = 0; blue = 255; alpha = 255 }

abbrev names : List (QString × QColor)
names = (codes "blue", blue) ∷ (codes "red", red) ∷ []

color-set_color_example :
    (color box (set_color box red (create_editor box names))
      ≡ (if is_named red names then red else default_color))
    × ((i : ℕ) (name : QString) (picked : QColor)
        → get_elem? names i ≡ some (name, picked)
        → color box (box.set_current_index (some i) (set_color box red (create_editor box names)))
          ≡ picked)
color-set_color_example = color-set_color box items_of box-IsComboBox names red

abbrev pub a_signal : QString → CanSignal Number
a_signal name = record {
  start_bit = 0;
  len = 8;
  is_big_endian = false;
  is_signed = true;
  scale = some (pos 2);
  offset = some (pos 0);
  min = some (pos 0);
  max = some (pos 100);
  name = name;
  unit = codes "l";
  receiver = [];
  values = (some (pos 1), codes "low") ∷ [];
}

abbrev pub a_message : ℕ → QString → List (CanSignal Number) → CanMessage Number
a_message id name ss = record {
  id = id;
  dlc = 8;
  name = name;
  sender = [];
  can_signals = ss;
  color = record { is_valid = true; red = 0; green = 0; blue = 0; alpha = 0 };
}

abbrev pub db : CanDb Number
db =
    a_message 5 (codes "Door") []
    ∷ a_message 24 (codes "Tank") (a_signal (codes "Level") ∷ a_signal (codes "Rate") ∷ [])
    ∷ []

abbrev message_box : ℕ → Box
message_box row = ((codes "Door", none) ∷ (codes "Tank", none) ∷ [], some row)

abbrev dialog : SignalSelectDialog Box
dialog = record { cmb_message = message_box 0; cmb_signal = ([], none) }

abbrev tank_dialog : SignalSelectDialog Box
tank_dialog = record {
  cmb_message = message_box 1;
  cmb_signal = ((codes "Level", none) ∷ (codes "Rate", none) ∷ [], some 0);
}

dialog-Shown : Shown box items_of box-IsComboBox db dialog
unfolding open_dialog on_msg_index_changed
dialog-Shown = opened refl

tank_dialog-Shown : Shown box items_of box-IsComboBox db tank_dialog
unfolding pick_message on_msg_index_changed
tank_dialog-Shown = message 1 dialog-Shown (omega arith) refl

Shown-IsShowing_example :
    ((row : ℕ) × IsShowing box items_of box-IsComboBox db row tank_dialog)
    × ((i : ℕ) → i < 2 → failure (pick_message box db i tank_dialog) ≡ none)
    × (failure (open_dialog box db) ≡ none)
Shown-IsShowing_example =
    Shown-IsShowing box items_of box-IsComboBox db (omega arith) tank_dialog tank_dialog-Shown

abbrev pub entry_at : ℕ → CanLogMsg Number
entry_at id = record {
  number = 0;
  id = id;
  time = some (pos 3);
  channel = 0;
  dlc = 8;
  dir = rx;
  bytes = 7 ∷ 0 ∷ 0 ∷ 0 ∷ 0 ∷ 0 ∷ 0 ∷ 0 ∷ [];
}

abbrev pub window : MainWindow Number
window = record {
  msg_db = db;
  log = entry_at 24 ∷ entry_at 5 ∷ entry_at 24 ∷ [];
  items = [];
  widgets = [];
  msg_index = pos 1;
  highlighted = record { row_list = λ row. row == 1; id_list = λ id. false };
  filters = (3, codes "18") ∷ [];
  time = some (pos 5);
  min_chart_size = 150;
  y_tick = 5;
  tick_per_sec = some (pos 0);
  width_per_sec = 10;
}

on_add_signal-chosen_example :
    (row : ℕ) × (msg : CanMessage Number) × (get_elem? db row ≡ some msg)
    × (box.current_index tank_dialog.cmb_message ≡ some row)
    × (0 < length msg.can_signals
        → (col : ℕ) × (signal : CanSignal Number) × (box.current_index tank_dialog.cmb_signal
            ≡ some col)
          × (get_elem? msg.can_signals col ≡ some signal)
          × (on_add_signal 0 (get_result_index box tank_dialog) window ≡ (
              get_signal_graph signal msg.id 0 window.log >>= λ points.
              ok (
                add_item msg.id signal
                  (with_axes window (new_view signal (drawn points)))
                  window))))
    × (msg.can_signals ≡ []
        → on_add_signal 0 (get_result_index box tank_dialog) window ≡ fault out_of_range)
on_add_signal-chosen_example =
    on_add_signal-chosen box items_of box-IsComboBox 0 window tank_dialog (omega arith)
      tank_dialog-Shown
