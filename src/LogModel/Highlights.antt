-- ===== src/LogModel/Highlights.antt =====
-- The colors of the entries after one of them is highlighted by its id.
use can_tracer.Prelude.{ℕ, ◌≡◌, refl, true, some, List, ◌==◌, if◌then◌else◌, get_elem?, arith}
use can_tracer.Prelude.Outcome.{ok}
use can_tracer.Qt.{Double}
use can_tracer.Can.{CanLogMsg, CanDb}
use can_tracer.LogModel.{
  entry, Format, Highlighted, yellow, green, insert, set_highlight_id, is_id_highlight, background,
}

module _ {F : Type 0} ⦃d : Double F⦄ (format : Format F) (buffer : List (CanLogMsg F))
    (db : CanDb F) where
  -- Highlighting the id of an entry makes every entry of that id green which is not highlighted itself;
  -- all others keep their color, and the entry answers that its id is highlighted.
  pub background-set_highlight_id :
      (row column other c : ℕ) (m n : CanLogMsg F) (h : Highlighted)
      → get_elem? buffer row ≡ some m
      → get_elem? buffer other ≡ some n
      → (h' : Highlighted) × (set_highlight_id buffer (entry row column) true h ≡ ok h')
        × (is_id_highlight buffer (entry row column) h' ≡ ok true)
        × (background format buffer db h' (entry other c) ≡ (
            if h.row_list other
            then some yellow
            else if n.id == m.id
            then some green
            else background format buffer db h (entry other c)))
  unfolding set_highlight_id is_id_highlight background
  background-set_highlight_id row column other c m n h e f = (
    record h { id_list = insert m.id true h.id_list },
    rw e refl,
    rw e (ground arith),
    rw (f, background) (ground arith),
  )
