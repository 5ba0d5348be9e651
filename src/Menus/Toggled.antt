-- ===== src/Menus/Toggled.antt =====
-- The menu of the log offers what undoes it.
use can_tracer.Prelude.{
  ℕ, ◌≡◌, refl, Bool, not, Option, some, [], ◌∷◌, ◌==◌, if◌then◌else◌, Bool-cases, inl, inr,
  get_elem?,
}
use can_tracer.Prelude.Outcome.{Outcome, ok, ◌>>=◌}
use can_tracer.Qt.{Double}
use can_tracer.Can.{CanLogMsg}
use can_tracer.LogModel.{
  LogIndex, entry, is_msg_highlight, is_id_highlight, set_highlight_msg, set_highlight_id,
}
use can_tracer.Window.{MainWindow, on_highlight_msg, on_highlight_id}
use can_tracer.Window.Step.{step}
use can_tracer.Menus.{Menu, msg_entry, id_entry, slot_of, on_context_menu}

abbrev pub log_menu : LogIndex → Bool → Bool → Menu
log_menu index msg id = msg_entry index msg ∷ id_entry index id ∷ []

module _ {F : Type 0} ⦃d : Double F⦄ where
  abbrev pub menu_at : ℕ → ℕ → MainWindow F → Outcome Menu
  menu_at row column w = on_context_menu (entry row column) w

  -- At an entry of the log, the menu offers to set the two highlights that are not set and to take back
  -- those that are; to choose an action does not fail, and the menu at any entry then shows the changed
  -- highlight, of the same message or of all messages with the id, and the other one as it was.
  pub on_context_menu-toggled :
      (past_end : ℕ) (pair : Option ℕ × Option ℕ) (row column other c : ℕ) (m n : CanLogMsg F)
      (w : MainWindow F)
      → get_elem? w.log row ≡ some m
      → get_elem? w.log other ≡ some n
      → let h = w.highlighted in
        let index = entry row column in
        let msg = h.row_list row in
        let id = h.id_list m.id in
        (menu_at row column w ≡ ok (log_menu index msg id))
        × ((step (slot_of past_end pair (msg_entry index msg).1) w >>= menu_at other c)
            ≡ ok (
                log_menu
                  (entry other c)
                  (if other == row then not msg else h.row_list other)
                  (h.id_list n.id)))
        × ((step (slot_of past_end pair (id_entry index id).1) w >>= menu_at other c)
            ≡ ok (
                log_menu
                  (entry other c)
                  (h.row_list other)
                  (if n.id == m.id then not id else h.id_list n.id)))
  unfolding step on_context_menu on_highlight_msg on_highlight_id set_highlight_msg set_highlight_id
      is_msg_highlight is_id_highlight
  on_context_menu-toggled past_end pair row column other c m n w e f = (
    rw e refl,
    elim (Bool-cases (w.highlighted.row_list row)) [
      | inl set ↦ rw (set, f) refl
      | inr unset ↦ rw (unset, f) refl
    ],
    elim (Bool-cases (w.highlighted.id_list m.id)) [
      | inl set ↦ rw (set, e, f) refl
      | inr unset ↦ rw (unset, e, f) refl
    ],
  )
