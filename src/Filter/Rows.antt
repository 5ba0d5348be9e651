-- ===== src/Filter/Rows.antt =====
-- Which rows the filters show.
use can_tracer.Prelude.{
  ℕ, ◌≡◌, refl, Bool, true, false, ◌&&◌, ◌||◌, [], ◌∷◌, arith, ◌==◌, if◌then◌else◌,
}
use can_tracer.Qt.{QString}
use can_tracer.Filter.{
  Filters, remove_key, set_filter, get_filter_text, accepts, filter_accepts_row,
}

get_filter_text-remove_key :
    (column other : ℕ) (fs : Filters)
    → get_filter_text other (remove_key column fs)
      ≡ (if column == other then [] else get_filter_text other fs)
unfolding get_filter_text remove_key
get_filter_text-remove_key column other [] = ground arith
get_filter_text-remove_key column other (f ∷ fs) =
    ground (arith, get_filter_text-remove_key column other fs)

-- The filter that was set for a column is the one that is shown for it, and the other columns keep
-- theirs. An empty expression takes the filter away.
pub get_filter_text-set_filter :
    (column other : ℕ) (expression : QString) (fs : Filters)
    → get_filter_text other (set_filter column expression fs)
      ≡ (if column == other then expression else get_filter_text other fs)
unfolding get_filter_text set_filter
get_filter_text-set_filter column other [] fs = get_filter_text-remove_key column other fs
get_filter_text-set_filter column other (c ∷ cs) fs =
    ground (arith, get_filter_text-remove_key column other fs)

module _ (contains : QString → QString → Bool) (cell : ℕ → ℕ → QString) where
  abbrev pub passes : QString → ℕ → ℕ → Bool
  passes [] row column = true
  passes (c ∷ cs) row column = contains (c ∷ cs) (cell row column)

  -- The filters of all columns but one accept the row.
  abbrev pub others_accept : ℕ → ℕ → Filters → Bool
  others_accept column row [] = true
  others_accept column row (f ∷ fs) =
      (f.0 == column || contains f.1 (cell row f.0)) && others_accept column row fs

  accepts-remove_key :
      (column row : ℕ) (fs : Filters)
      → accepts contains cell row (remove_key column fs) ≡ others_accept column row fs
  unfolding accepts remove_key
  accepts-remove_key column row [] = refl
  accepts-remove_key column row (f ∷ fs) = ground (arith, accepts-remove_key column row fs)

  -- After a filter is set for a column, a row of the log is shown exactly if its cell in the column
  -- matches the expression, or the expression is empty, and the filters of the other columns accept it;
  -- the rows below an entry are always shown.
  pub filter_accepts_row-set_filter :
      (has_parent : Bool) (row column : ℕ) (expression : QString) (fs : Filters)
      → filter_accepts_row contains cell has_parent row (set_filter column expression fs)
        ≡ (has_parent || (passes expression row column && others_accept column row fs))
  unfolding filter_accepts_row set_filter accepts
  filter_accepts_row-set_filter true row column expression fs = refl
  filter_accepts_row-set_filter false row column [] fs = accepts-remove_key column row fs
  filter_accepts_row-set_filter false row column (c ∷ cs) fs =
      ground (arith, accepts-remove_key column row fs)
