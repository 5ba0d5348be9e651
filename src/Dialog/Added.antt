-- ===== src/Dialog/Added.antt =====
-- What onAddSignal does with the choice of the dialog.
use can_tracer.Prelude.{
  ℕ, ◌<◌, ◌≡◌, refl, ap, Option, none, some, List, [], length, get_elem?, get_elem?-some, arith,
}
use can_tracer.Prelude.Outcome.{ok, fault, out_of_range, ◌>>=◌}
use can_tracer.Qt.{Double}
use can_tracer.Qt.ComboBox.{ComboBox, IsComboBox, Item}
use can_tracer.Can.{CanMessage, CanSignal}
use can_tracer.Graph.{get_signal_graph, drawn}
use can_tracer.Window.{MainWindow, on_add_signal, add_item, with_axes, new_view}
use can_tracer.Dialog.{SignalSelectDialog, get_result_index}
use can_tracer.Dialog.Shown.{IsChoice, Shown, Shown-IsShowing}

chosen_col :
    {F : Type 0} (choice : Option ℕ) (ss : List (CanSignal F))
    → IsChoice choice ss
    → 0 < length ss
    → (col : ℕ) × (signal : CanSignal F) × (choice ≡ some col) × (get_elem? ss col ≡ some signal)
chosen_col none ss h lt = absurd (omega (arith, lt, ap length h))
chosen_col (some j) ss h lt = let signal = get_elem?-some ss j h in (j, signal.0, refl, signal.1)

no_choice :
    {F : Type 0} (choice : Option ℕ) (ss : List (CanSignal F))
    → IsChoice choice ss
    → ss ≡ []
    → choice ≡ none
no_choice none ss h e = refl
no_choice (some j) ss h e = absurd (omega (arith, h, ap length e))

module _ {F : Type 0} {B : Type 0} ⦃d : Double F⦄ (box : ComboBox B) (items : B → List Item)
    (laws : IsComboBox box items) where
  -- If the database has messages, whatever was picked in the dialog: the message that is shown is in the
  -- database, and if it has signals, one of them is chosen, and its graph is added to the plots, or
  -- onAddSignal fails as the graph does; if it has none, onAddSignal fails, and does so even if the dialog
  -- was cancelled.
  pub on_add_signal-chosen :
      (past_end : ℕ) (w : MainWindow F) (s : SignalSelectDialog B)
      → 0 < length w.msg_db
      → Shown box items laws w.msg_db s
      → (row : ℕ) × (msg : CanMessage F) × (get_elem? w.msg_db row ≡ some msg)
        × (box.current_index s.cmb_message ≡ some row)
        × (0 < length msg.can_signals
            → (col : ℕ) × (signal : CanSignal F) × (box.current_index s.cmb_signal ≡ some col)
              × (get_elem? msg.can_signals col ≡ some signal)
              × (on_add_signal past_end (get_result_index box s) w ≡ (
                  get_signal_graph signal msg.id past_end w.log >>= λ points.
                  ok (add_item msg.id signal (with_axes w (new_view signal (drawn points))) w))))
        × (msg.can_signals ≡ []
            → on_add_signal past_end (get_result_index box s) w ≡ fault out_of_range)
  unfolding on_add_signal get_result_index
  on_add_signal-chosen past_end w s some_message h =
      let (row, showing) = (Shown-IsShowing box items laws w.msg_db some_message s h).0 in
      (
        row,
        showing.msg,
        showing.has_msg,
        showing.message_index,
        (λ some_signal.
            let (col, signal, picked, found) =
              chosen_col (box.current_index s.cmb_signal) showing.msg.can_signals
                showing.signal_index some_signal in
            (
              col,
              signal,
              picked,
              found,
              rw (showing.message_index, showing.has_msg, picked, found) refl,
            )),
        (λ no_signal.
            let unpicked =
              no_choice (box.current_index s.cmb_signal) showing.msg.can_signals
                showing.signal_index no_signal in
            rw (showing.message_index, showing.has_msg, unpicked) refl),
      )
