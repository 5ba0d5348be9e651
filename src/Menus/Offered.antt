-- ===== src/Menus/Offered.antt =====
-- What the menu of the plots and the dialog of the header can do.
use can_tracer.Prelude.{
  ℕ, zero, suc, List, ◌<◌, ◌≡◌, ◌≢◌, ◌%◌, ◌^◌, refl, sym, ap, ◌∙◌, Bool, false, ◌&&◌, Bool-cases,
  Option, none, some, [], ◌∷◌, ◌==◌, length, ltb, All, arith, inl, inr, get_elem?, true, ◌≤◌,
}
use can_tracer.Prelude.Int.{pos, negsuc}
use can_tracer.Prelude.Outcome.{Outcome, ok, failure, of_ok, ◌>>=◌}
use can_tracer.Qt.{QString, Double}
use can_tracer.Can.{message_count, CanLogMsg}
use can_tracer.Filter.{filter_accepts_row}
use can_tracer.Filter.Rows.{passes, others_accept, filter_accepts_row-set_filter}
use can_tracer.Can.Logged.{IsData}
use can_tracer.LogModel.Cells.{display_data-entry}
use can_tracer.LogModel.{Format, invalid, index, row_count, display_data}
use can_tracer.Window.{MainWindow, on_filter}
use can_tracer.Window.Step.{Event, step}
use can_tracer.Window.Axes.{IsConsistent}
use can_tracer.Window.Total.{step_total}
use can_tracer.Menus.{MenuAction, slot_of, on_signal_plot_menu, on_header_context_menu}

-- QVariant::toString: the text of a QVariant without a value is empty.
abbrev pub to_text : Option QString → QString
to_text none = []
to_text (some text) = text

lt_length {ℓ} :
    {A : Type ℓ} (xs : List A) (i : ℕ) {a : A} → get_elem? xs i ≡ some a → ltb i (length xs) ≡ true
lt_length [] i e = cc
lt_length (x ∷ xs) zero e = ground arith
lt_length (x ∷ xs) (suc i) e = ground (arith, lt_length xs i e)

module _ {F : Type 0} ⦃d : Double F⦄ where
  -- The row under the mouse is one of the list of plots.
  abbrev pub IsPlot : Option ℕ → MainWindow F → Type 0
  IsPlot none w = Unit
  IsPlot (some row) w = row < length w.items

  abbrev pub IsSafe : MainWindow F → MenuAction → Type 0
  IsSafe w (MenuAction.add index) = 0 < length w.msg_db
  IsSafe w (MenuAction.remove index) =
      (row : ℕ) × (index ≡ some row)
      × (row < length w.items)
      × ((past_end : ℕ) (pair : Option ℕ × Option ℕ)
          → failure (step (slot_of past_end pair (MenuAction.remove index)) w) ≡ none)
  IsSafe w _ = ⊥

  -- In a consistent window, the menu of the plots offers only to remove a plot that the list has, in which the
  -- slot does not fail, and to add a signal where the database has messages, which the dialog for it needs. It
  -- offers nothing over an empty database, not even to remove.
  pub on_signal_plot_menu-IsSafe :
      (index : Option ℕ) (w : MainWindow F)
      → IsConsistent w
      → IsPlot index w
      → All (λ (item : QString × MenuAction). IsSafe w item.1) (on_signal_plot_menu index w)
        × (w.msg_db ≡ [] → on_signal_plot_menu index w ≡ [])
  unfolding on_signal_plot_menu message_count
  on_signal_plot_menu-IsSafe none w h p = (
    elim (Bool-cases (length w.msg_db == 0)) [
      | inl empty ↦ rw empty tt
      | inr filled ↦ rw filled (ground (arith, filled), tt)
    ],
    (λ empty. rw empty refl),
  )
  on_signal_plot_menu-IsSafe (some row) w h p = (
    elim (Bool-cases (length w.msg_db == 0)) [
      | inl empty ↦ rw empty tt
      | inr filled ↦ rw filled (
        (row, refl, p, (λ past_end pair. step_total w (Event.remove_signal (some row)) h p)),
        (ground (arith, filled), tt),
      )
    ],
    (λ empty. rw empty refl),
  )

  module _ (format : Format F) where
    -- What the filter asks the table of the log for.
    abbrev pub cell_data : MainWindow F → ℕ → ℕ → Outcome (Option QString)
    cell_data w row column =
        index format w.log w.msg_db row column invalid >>= display_data format w.log w.msg_db

    -- Every cell of the row is read without a fault, and `cell` gives its text.
    abbrev pub IsRead : (ℕ → ℕ → QString) → MainWindow F → ℕ → Type 0
    IsRead cell w row =
        (column : ℕ)
        → (shown : Option QString) × (cell_data w row column ≡ ok shown)
          × (cell row column ≡ to_text shown)

    no_cell : (row : ℕ) (w : MainWindow F) → cell_data w row 255 ≡ ok none
    unfolding index row_count display_data
    no_cell row w = elim (Bool-cases (ltb row (length w.log))) [
      | inl e ↦ rw e refl
      | inr e ↦ rw e refl
    ]

    outside :
        (cell : ℕ → ℕ → QString) (row : ℕ) (w : MainWindow F)
        → IsRead cell w row
        → cell row 255 ≡ []
    outside cell row w read =
        let (shown, run, text) = read 255 in
        let empty : shown ≡ none = of_ok (sym run ∙ no_cell row w) in text ∙ ap to_text empty

    -- The cells of an entry that has all the bytes of its dlc are read.
    pub cell_data_total :
        (row column : ℕ) (m : CanLogMsg F) (w : MainWindow F)
        → get_elem? w.log row ≡ some m
        → IsData m.bytes
        → m.dlc ≤ 8
        → failure (cell_data w row column) ≡ none
    unfolding index row_count
    cell_data_total row column m w e payload small =
        let inside : ltb row (length w.log) ≡ true = lt_length w.log row e in
        elim (Bool-cases (ltb column 7)) [
          | inl lt ↦
              rw (inside, lt)
                (display_data-entry format w.log w.msg_db row column m e payload
                  ∙ ground (arith, small))
          | inr ge ↦ rw (inside, ge) (unfold display_data in refl)
        ]

  module _ (format : Format F) (contains : QString → QString → Bool) where
    abbrev pub is_shown : (ℕ → ℕ → QString) → ℕ → MainWindow F → Bool
    is_shown cell row w = filter_accepts_row contains cell false row w.filters

    unmatched :
        (cell : ℕ → ℕ → QString) (row : ℕ) (expression : QString) (w : MainWindow F)
        → IsRead format cell w row
        → expression ≢ []
        → contains expression [] ≡ false
        → passes contains cell expression row 255 ≡ false
    unmatched cell row [] w read filled e = absurd (filled refl)
    unmatched cell row (c ∷ cs) w read filled e = rw (outside format cell row w read) e

    -- Behind the dialog of the header over a column, an entry all of whose cells are read without a fault is
    -- shown exactly if its cell in that column matches the expression, or the expression is empty, and the
    -- filters of the other columns accept it. Right of all columns the expression is kept for the column 255,
    -- whose cells are empty: unless it matches the empty text, no such entry is shown any more. A dialog that
    -- is cancelled changes nothing.
    pub on_header_context_menu-shown :
        (cell : ℕ → ℕ → QString) (row column : ℕ) (expression : QString) (w : MainWindow F)
        → IsRead format cell w row
        → column < 256
        → (is_shown cell row (on_header_context_menu (pos column) (some expression) w).1 ≡ (
            passes contains cell expression row column
            && others_accept contains cell column row w.filters))
          × (expression ≢ []
              → contains expression [] ≡ false
              → is_shown cell row (on_header_context_menu (negsuc 0) (some expression) w).1 ≡ false)
          × ((on_header_context_menu (pos column) none w).1 ≡ w)
    unfolding on_header_context_menu on_filter
    on_header_context_menu-shown cell row column expression w read lt =
        let same : column % 2 ^ 8 ≡ column = omega (arith, lt) in
        (
          rw same
              (filter_accepts_row-set_filter contains cell false row column expression w.filters),
          (λ filled e.
              filter_accepts_row-set_filter contains cell false row 255 expression w.filters
              ∙ rw (unmatched cell row expression w read filled e) refl),
          refl,
        )
