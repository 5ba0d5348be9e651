-- ===== src/Filter.antt =====
-- src/customproxymodel.cpp: the regular expressions by which the rows of the log are filtered.
pub mod Rows
pub mod Header
use can_tracer.Prelude.{ℕ, Bool, true, false, not, ◌&&◌, List, [], ◌∷◌, ◌==◌, if◌then◌else◌}
use can_tracer.Qt.{QString}

-- The hash `regex`: each column at most once, with the pattern of its expression.
abbrev pub Filters : Type 0
Filters = List (ℕ × QString)

-- QHash::remove.
unfoldable pub remove_key : ℕ → Filters → Filters
remove_key column [] = []
remove_key column (f ∷ fs) =
    let rest = remove_key column fs in if f.0 == column then rest else f ∷ rest

unfoldable pub set_filter : ℕ → QString → Filters → Filters
set_filter column [] fs = remove_key column fs
set_filter column (c ∷ cs) fs = (column, c ∷ cs) ∷ remove_key column fs

unfoldable pub get_filter_text : ℕ → Filters → QString
get_filter_text column [] = []
get_filter_text column (f ∷ fs) =
    let rest = get_filter_text column fs in if f.0 == column then f.1 else rest

-- `contains pattern text` is QString::contains with the expression, and `cell` is the text of the
-- source model in a row and a column.
module _ (contains : QString → QString → Bool) (cell : ℕ → ℕ → QString) where
  -- The loop over the hash. Its order does not matter to the result.
  unfoldable pub accepts : ℕ → Filters → Bool
  accepts row [] = true
  accepts row (f ∷ fs) =
      let rest = accepts row fs in if not (contains f.1 (cell row f.0)) then false else rest

  unfoldable pub filter_accepts_row : Bool → ℕ → Filters → Bool
  filter_accepts_row has_parent row fs = if has_parent then true else accepts row fs
