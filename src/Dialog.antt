-- ===== src/Dialog.antt =====
-- src/signalselectdialog.cpp: the dialog that asks for a signal, by a box of messages and a box of the
-- signals of the message that is chosen.
pub mod Shown
pub mod Added
use can_tracer.Prelude.{
  ℕ, zero, suc, ◌+◌, Bool, true, false, ◌==◌, Option, none, some, List, [], ◌∷◌, if◌then◌else◌,
  get_elem?,
}
use can_tracer.Prelude.Outcome.{Outcome, ok, out_of_range, or_fault, ◌>>=◌}
use can_tracer.Can.{CanMessage, CanSignal, CanDb}
use can_tracer.Qt.ComboBox.{ComboBox}

pub record SignalSelectDialog (B : Type 0) : Type 0 where
  pub cmb_message : B
  pub cmb_signal : B

abbrev pub same_index : Option ℕ → Option ℕ → Bool
same_index none none = true
same_index none (some j) = false
same_index (some i) none = false
same_index (some i) (some j) = i == j

module _ {F : Type 0} {B : Type 0} (box : ComboBox B) where
  abbrev pub insert_signals : ℕ → List (CanSignal F) → B → B
  insert_signals i [] b = b
  insert_signals i (s ∷ ss) b = insert_signals (i + 1) ss (box.insert_item i s.name b)

  module _ (db : CanDb F) where
    -- CanDb::at is a checked access, which the index -1 does not pass.
    unfoldable pub on_msg_index_changed :
        Option ℕ → SignalSelectDialog B → Outcome (SignalSelectDialog B)
    on_msg_index_changed index s = do
      row ← or_fault out_of_range index
      msg ← or_fault out_of_range (get_elem? db row)
      ok (record s { cmb_signal = insert_signals 0 msg.can_signals (box.clear s.cmb_signal) })

    -- The box of messages sends currentIndexChanged when its index is another than before.
    abbrev pub with_messages : B → SignalSelectDialog B → Outcome (SignalSelectDialog B)
    with_messages b s =
        let index = box.current_index b in
        if same_index (box.current_index s.cmb_message) index
        then ok (record s { cmb_message = b })
        else on_msg_index_changed index (record s { cmb_message = b })

    abbrev pub insert_messages :
        ℕ → List (CanMessage F) → SignalSelectDialog B → Outcome (SignalSelectDialog B)
    insert_messages i [] s = ok s
    insert_messages i (m ∷ ms) s =
        with_messages (box.insert_item i m.name s.cmb_message) s >>= insert_messages (i + 1) ms

    -- The constructor.
    unfoldable pub open_dialog : Outcome (SignalSelectDialog B)
    open_dialog =
        insert_messages 0 db (record { cmb_message = box.new_box; cmb_signal = box.new_box })

    -- The user picks an item.
    unfoldable pub pick_message : ℕ → SignalSelectDialog B → Outcome (SignalSelectDialog B)
    pick_message i s = with_messages (box.set_current_index (some i) s.cmb_message) s

    unfoldable pub pick_signal : ℕ → SignalSelectDialog B → SignalSelectDialog B
    pick_signal j s = record s { cmb_signal = box.set_current_index (some j) s.cmb_signal }

module _ {B : Type 0} (box : ComboBox B) where
  unfoldable pub get_result_index : SignalSelectDialog B → Option ℕ × Option ℕ
  get_result_index s = (box.current_index s.cmb_message, box.current_index s.cmb_signal)
