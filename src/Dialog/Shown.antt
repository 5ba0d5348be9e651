-- ===== src/Dialog/Shown.antt =====
-- The boxes show the messages and the signals of the message that is chosen.
use can_tracer.Prelude.{
  ℕ, ◌+◌, ◌<◌, ◌≡◌, refl, sym, ap, ◌∙◌, true, Bool-cases, ◌==◌, ==_iff, Option, none, some, List,
  [], ◌∷◌, ◌++◌, map, length, length-append, length-map, get_elem?, get_elem?-some, inl, inr, arith,
}
use mathlib.Core.Path.{subst}
use mathlib.Core.List.{append_assoc, append-nil}
use can_tracer.Prelude.Outcome.{ok, failure, of_ok}
use can_tracer.Can.{CanMessage, CanSignal, CanDb}
use can_tracer.Qt.{QString}
use can_tracer.Qt.ComboBox.{ComboBox, IsComboBox, Item}
use can_tracer.Dialog.{
  SignalSelectDialog, same_index, insert_signals, on_msg_index_changed, with_messages,
  insert_messages, open_dialog, pick_message, pick_signal,
}

same_index_self : (i : ℕ) → same_index (some i) (some i) ≡ true
same_index_self i = ground arith

module _ {F : Type 0} where
  abbrev pub signal_item : CanSignal F → Item
  signal_item s = (s.name, none)

  abbrev pub signal_items : List (CanSignal F) → List Item
  signal_items ss = map signal_item ss

  abbrev pub message_item : CanMessage F → Item
  message_item m = (m.name, none)

  abbrev pub message_items : CanDb F → List Item
  message_items ms = map message_item ms

  -- No signal is chosen only where there is none.
  abbrev pub IsChoice : Option ℕ → List (CanSignal F) → Type 0
  IsChoice none ss = ss ≡ []
  IsChoice (some j) ss = j < length ss

module _ {B : Type 0} (box : ComboBox B) (items : B → List Item) (laws : IsComboBox box items) where
  open box use {insert_item, current_index}

  -- An item that is appended, and the index at which the next one is.
  appended :
      (name : QString) (i : ℕ) (b : B)
      → i ≡ length (items b)
      → (items (insert_item i name b) ≡ items b ++ (name, none) ∷ [])
        × (i + 1 ≡ length (items (insert_item i name b)))
  appended name i b e =
      let put : items (insert_item i name b) ≡ items b ++ (name, none) ∷ [] =
        rw e (laws.inserted name b) in
      (put, rw (put, length-append (items b) ((name, none) ∷ [])) (omega (arith, e)))

  appended_first :
      (name : QString) (i : ℕ) (b : B)
      → i ≡ length (items b)
      → items b ≡ []
      → current_index b ≡ none
      → current_index (insert_item i name b) ≡ some 0
  appended_first name i b e empty unset = rw e (laws.first_index name b empty unset)

module _ {F : Type 0} {B : Type 0} (box : ComboBox B) (items : B → List Item)
    (laws : IsComboBox box items) where
  open box use {insert_item, current_index}

  insert_signals-items :
      (ss : List (CanSignal F)) (i : ℕ) (b : B)
      → i ≡ length (items b)
      → items (insert_signals box i ss b) ≡ items b ++ signal_items ss
  insert_signals-items [] i b e = sym (append-nil (items b))
  insert_signals-items (s ∷ ss) i b e =
      let (put, size) = appended box items laws s.name i b e in
      insert_signals-items ss (i + 1) (insert_item i s.name b) size
      ∙ rw (put, append_assoc (items b) ((s.name, none) ∷ []) (signal_items ss)) refl

  insert_signals-index :
      (ss : List (CanSignal F)) (i c : ℕ) (b : B)
      → i ≡ length (items b)
      → current_index b ≡ some c
      → current_index (insert_signals box i ss b) ≡ some c
  insert_signals-index [] i c b e h = h
  insert_signals-index (s ∷ ss) i c b e h =
      insert_signals-index ss (i + 1) c (insert_item i s.name b)
        (appended box items laws s.name i b e).1 (rw e (laws.later_index s.name b c h))

  -- The box of signals behind onMsgIndexChanged.
  filled-items :
      (ss : List (CanSignal F)) (b : B)
      → items (insert_signals box 0 ss (box.clear b)) ≡ signal_items ss
  filled-items ss b =
      let size : 0 ≡ length (items (box.clear b)) = rw (laws.cleared b) refl in
      insert_signals-items ss 0 (box.clear b) size ∙ rw (laws.cleared b) refl

  filled-IsChoice :
      (ss : List (CanSignal F)) (b : B)
      → IsChoice (current_index (insert_signals box 0 ss (box.clear b))) ss
  filled-IsChoice [] b = rw (laws.cleared_index b) refl
  filled-IsChoice (s ∷ ss) b =
      let size : 0 ≡ length (items (box.clear b)) = rw (laws.cleared b) refl in
      let index =
        insert_signals-index ss 1 0 (insert_item 0 s.name (box.clear b))
          (appended box items laws s.name 0 (box.clear b) size).1
          (appended_first box items laws s.name 0 (box.clear b) size (laws.cleared b)
            (laws.cleared_index b)) in
      rw index (omega arith)

  module _ (db : CanDb F) where
    -- The message `row` is chosen: its signals are in the other box.
    pub record IsShowing (row : ℕ) (s : SignalSelectDialog B) : Type 0 where
      pub msg : CanMessage F
      pub has_msg : get_elem? db row ≡ some msg
      pub message_index : current_index s.cmb_message ≡ some row
      pub messages : items s.cmb_message ≡ message_items db
      pub listed : items s.cmb_signal ≡ signal_items msg.can_signals
      pub signal_index : IsChoice (current_index s.cmb_signal) msg.can_signals

    pub data Shown : SignalSelectDialog B → Type 0 where
      opened : {s : SignalSelectDialog B} → open_dialog box db ≡ ok s → Shown s
      message :
          {s s' : SignalSelectDialog B} (i : ℕ)
          → Shown s
          → i < length (items s.cmb_message)
          → pick_message box db i s ≡ ok s'
          → Shown s'
      signal :
          {s : SignalSelectDialog B} (j : ℕ)
          → Shown s
          → j < length (items s.cmb_signal)
          → Shown (pick_signal box db j s)

    -- A box of messages whose index has become `row`.
    changed-IsShowing :
        (row : ℕ) (msg : CanMessage F) (s : SignalSelectDialog B)
        → get_elem? db row ≡ some msg
        → current_index s.cmb_message ≡ some row
        → items s.cmb_message ≡ message_items db
        → (s' : SignalSelectDialog B) × (on_msg_index_changed box db (some row) s ≡ ok s')
          × IsShowing row s'
    unfolding on_msg_index_changed
    changed-IsShowing row msg s e c m = rw e (
      _,
      refl,
      record {
        msg = msg;
        has_msg = e;
        message_index = c;
        messages = m;
        listed = filled-items msg.can_signals s.cmb_signal;
        signal_index = filled-IsChoice msg.can_signals s.cmb_signal;
      },
    )

    pick_message-IsShowing :
        (row i : ℕ) (s : SignalSelectDialog B)
        → IsShowing row s
        → i < length (items s.cmb_message)
        → (s' : SignalSelectDialog B) × (pick_message box db i s ≡ ok s') × IsShowing i s'
    unfolding pick_message
    pick_message-IsShowing row i s h lt =
        let now = laws.selected_index i s.cmb_message lt in
        let kept : items (box.set_current_index (some i) s.cmb_message) ≡ message_items db =
          laws.selected (some i) s.cmb_message ∙ h.messages in
        elim (Bool-cases (row == i)) [
          | inl same ↦
              let same_row : row ≡ i = (==_iff row i).0 same in
              rw (now, h.message_index, same)
                (
                  _,
                  refl,
                  record {
                    msg = h.msg;
                    has_msg = rw (sym same_row) h.has_msg;
                    message_index = now;
                    messages = kept;
                    listed = h.listed;
                    signal_index = h.signal_index;
                  },
                )
          | inr other ↦
              let size : i < length db = rw (sym (length-map message_item db), sym h.messages) lt in
              let msg = get_elem?-some db i size in
              rw (now, h.message_index, other) (changed-IsShowing i msg.0 _ msg.1 now kept)
        ]

    -- The messages behind the first one leave the index, and the box of signals.
    later_messages :
        (ms : List (CanMessage F)) (i c : ℕ) (s : SignalSelectDialog B)
        → i ≡ length (items s.cmb_message)
        → current_index s.cmb_message ≡ some c
        → (b : B) × (insert_messages box db i ms s ≡ ok (record s { cmb_message = b }))
          × (current_index b ≡ some c)
          × (items b ≡ items s.cmb_message ++ message_items ms)
    later_messages [] i c s e h = (s.cmb_message, refl, h, sym (append-nil (items s.cmb_message)))
    later_messages (m ∷ ms) i c s e h =
        let put = appended box items laws m.name i s.cmb_message e in
        let kept : current_index (insert_item i m.name s.cmb_message) ≡ some c =
          rw e (laws.later_index m.name s.cmb_message c h) in
        let rest =
          later_messages ms (i + 1) c
            (record s { cmb_message = insert_item i m.name s.cmb_message }) put.1 kept in
        rw (kept, h, same_index_self c)
          (
            rest.0,
            rest.1,
            rest.2,
            rest.3
                ∙ rw
                    (
                      put.0,
                      append_assoc (items s.cmb_message) ((m.name, none) ∷ []) (message_items ms),
                    )
                    refl,
          )

    with_first :
        (m : CanMessage F)
        → get_elem? db 0 ≡ some m
        → (s : SignalSelectDialog B) × (with_messages box db
              (insert_item 0 m.name box.new_box)
              (record { cmb_message = box.new_box; cmb_signal = box.new_box })
            ≡ ok s)
          × (current_index s.cmb_message ≡ some 0)
          × (items s.cmb_message ≡ (m.name, none) ∷ [])
          × (items s.cmb_signal ≡ signal_items m.can_signals)
          × IsChoice (current_index s.cmb_signal) m.can_signals
    unfolding on_msg_index_changed
    with_first m e =
        let size : 0 ≡ length (items box.new_box) = rw laws.new_items refl in
        let first =
          appended_first box items laws m.name 0 box.new_box size laws.new_items laws.new_index in
        let put = appended box items laws m.name 0 box.new_box size in
        rw (first, laws.new_index, e)
          (
            _,
            refl,
            first,
            put.0 ∙ ap (λ before. before ++ (m.name, none) ∷ []) laws.new_items,
            filled-items m.can_signals box.new_box,
            filled-IsChoice m.can_signals box.new_box,
          )

  -- A dialog over a database that has messages opens, with the first message chosen.
  pub open_dialog_total :
      (db : CanDb F)
      → 0 < length db
      → (s : SignalSelectDialog B) × (open_dialog box db ≡ ok s) × IsShowing db 0 s
  unfolding open_dialog
  open_dialog_total [] h = absurd (omega (arith, h))
  open_dialog_total (m ∷ ms) h =
      let first = with_first (m ∷ ms) m refl in
      let size : 1 ≡ length (items (first.0).cmb_message) = rw first.3 refl in
      let rest = later_messages (m ∷ ms) ms 1 0 first.0 size first.2 in
      rw (first.1, rest.1)
        (
          _,
          refl,
          record {
            msg = m;
            has_msg = refl;
            message_index = rest.2;
            messages = rest.3 ∙ ap (λ before. before ++ message_items ms) first.3;
            listed = first.4;
            signal_index = first.5;
          },
        )

  module _ (db : CanDb F) (some_message : 0 < length db) where
    pick_signal-IsShowing :
        (row j : ℕ) (s : SignalSelectDialog B)
        → IsShowing db row s
        → j < length (items s.cmb_signal)
        → IsShowing db row (pick_signal box db j s)
    unfolding pick_signal
    pick_signal-IsShowing row j s h lt = record {
      msg = h.msg;
      has_msg = h.has_msg;
      message_index = h.message_index;
      messages = h.messages;
      listed = laws.selected (some j) s.cmb_signal ∙ h.listed;
      signal_index =
          let size : j < length (h.msg.can_signals) =
            rw (sym (length-map signal_item h.msg.can_signals), sym h.listed) lt in
          rw (laws.selected_index j s.cmb_signal lt) size;
    }

    -- Over a database that has messages, whatever is picked in the two boxes: a message is chosen, the box
    -- of messages lists all messages, the other one the signals of that message and no other, and one of
    -- these is chosen unless there is none. Neither to open the dialog nor to pick a message fails.
    pub Shown-IsShowing :
        (s : SignalSelectDialog B)
        → Shown db s
        → ((row : ℕ) × IsShowing db row s)
          × ((i : ℕ) → i < length (items s.cmb_message) → failure (pick_message box db i s) ≡ none)
          × (failure (open_dialog box db) ≡ none)
    Shown-IsShowing s h =
        let showing = chosen h in
        let opens = open_dialog_total db some_message in
        (
          showing,
          (λ i lt.
              let picked = pick_message-IsShowing db showing.0 i s showing.1 lt in
              rw picked.1 refl),
          rw opens.1 refl,
        )
      where
        chosen : {s : SignalSelectDialog B} → Shown db s → (row : ℕ) × IsShowing db row s
        chosen (opened {s} e) =
            let opens = open_dialog_total db some_message in
            (0, subst (IsShowing db 0) (of_ok (sym opens.1 ∙ e)) opens.2)
        chosen (message {s} {s'} i h lt e) =
            let before = chosen h in
            let picked = pick_message-IsShowing db before.0 i s before.1 lt in
            (i, subst (IsShowing db i) (of_ok (sym picked.1 ∙ e)) picked.2)
        chosen (signal {s} j h lt) =
            let before = chosen h in (before.0, pick_signal-IsShowing before.0 j s before.1 lt)
