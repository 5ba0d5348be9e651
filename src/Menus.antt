-- ===== src/Menus.antt =====
-- src/mainwindow.cpp: the context menus of the log, of its header and of the list of plots.
pub mod Toggled
pub mod Offered
use can_tracer.Prelude.{
  ℕ, Bool, true, false, not, ◌%◌, ◌^◌, ◌-◌, Option, none, some, List, [], ◌∷◌, ◌++◌, ◌==◌,
  if◌then◌else◌,
}
use can_tracer.Prelude.Int.{ℤ}
use can_tracer.Prelude.Outcome.{Outcome, ok, ◌>>=◌}
use can_tracer.Qt.{QString, codes, to_unsigned}
use can_tracer.Can.{message_count}
use can_tracer.LogModel.{LogIndex, invalid, entry, below, is_msg_highlight, is_id_highlight}
use can_tracer.Filter.{get_filter_text}
use can_tracer.Window.{MainWindow, on_filter}
use can_tracer.Window.Step.{Event}

-- The slot that an action calls: setHighlightMsg, setHighlightId, onAddSignal or onRemoveSignal.
pub data MenuAction : Type 0 where
  set_msg set_id : LogIndex → Bool → MenuAction
  add remove : Option ℕ → MenuAction

abbrev pub Menu : Type 0
Menu = List (QString × MenuAction)

abbrev pub is_valid : Option ℕ → Bool
is_valid none = false
is_valid (some row) = true

abbrev pub msg_entry : LogIndex → Bool → QString × MenuAction
msg_entry index highlighted =
    if highlighted
    then (codes "Unhighlight this message", MenuAction.set_msg index false)
    else (codes "Highlight this message", MenuAction.set_msg index true)

abbrev pub id_entry : LogIndex → Bool → QString × MenuAction
id_entry index highlighted =
    if highlighted
    then (codes "Unhighlight this id", MenuAction.set_id index false)
    else (codes "Highlight this id", MenuAction.set_id index true)

-- The slot behind an action; `pair` is what the dialog then gives.
abbrev pub slot_of : {F : Type 0} → ℕ → Option ℕ × Option ℕ → MenuAction → Event F
slot_of past_end pair (MenuAction.set_msg index status) = Event.highlight_msg index status
slot_of past_end pair (MenuAction.set_id index status) = Event.highlight_id index status
slot_of past_end pair (MenuAction.add index) = Event.add_signal past_end pair
slot_of past_end pair (MenuAction.remove index) = Event.remove_signal index

module _ {F : Type 0} where
  -- The menu at the index under the mouse, which is empty, and not shown, for an index that is not valid or
  -- has a parent. The index of the log stands for that of the proxy.
  unfoldable pub on_context_menu : LogIndex → MainWindow F → Outcome Menu
  on_context_menu invalid w = ok []
  on_context_menu (below row column owner) w = ok []
  on_context_menu (entry row column) w =
      let index = entry row column in
      is_id_highlight w.log index w.highlighted >>= λ id.
      ok (msg_entry index (is_msg_highlight w.log index w.highlighted) ∷ id_entry index id ∷ [])

  -- The column is an int, -1 outside of all columns, which is cut to a uint8_t at both calls. The
  -- text that the dialog starts with, and the window behind it; its answer is `none` if it is cancelled.
  unfoldable pub on_header_context_menu : ℤ → Option QString → MainWindow F → QString × MainWindow F
  on_header_context_menu index answer w =
      let column = to_unsigned 8 index in
      (
        get_filter_text column w.filters,
        elim answer [ none ↦ w | some text ↦ on_filter column text w ],
      )

  unfoldable pub on_signal_plot_menu : Option ℕ → MainWindow F → Menu
  on_signal_plot_menu index w =
      if message_count w.msg_db == 0
      then []
      else (if is_valid index then (codes "Remove signal", MenuAction.remove index) ∷ [] else [])
        ++ (codes "Add signal", MenuAction.add index) ∷ []
