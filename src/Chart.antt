-- ===== src/Chart.antt =====
-- src/customqchartview.cpp: the point of a chart that the mouse shows, and the search for it.
pub mod Search
pub mod Mouse
pub mod Ordered
use can_tracer.Prelude.{
  ℕ, zero, suc, ◌+◌, ◌-◌, ◌/◌, Bool, true, false, Option, none, some, List, [], ◌∷◌, ◌==◌,
  if◌then◌else◌, length, get_elem?,
}
use can_tracer.Prelude.Int.{ℤ, sub_ℕ, pos, negsuc}
use can_tracer.Prelude.Outcome.{Outcome, ok, fault, bad_access, out_of_fuel, or_fault, ◌>>=◌}
use can_tracer.Qt.{QString, codes, Double}
use can_tracer.Can.{CanSignal, display}
use can_tracer.Graph.{Point}

module _ {F : Type 0} ⦃d : Double F⦄ (series : List (Point F)) (x : F) where
  -- The loop, with the local variables `first` and `count`. QLineSeries::at is a checked access.
  unfoldable pub search : ℕ → ℕ → ℕ → Outcome ℕ
  search fuel first zero = ok first
  search zero first (suc c) = fault out_of_fuel
  search (suc fuel) first (suc c) =
      let step = suc c / 2 in
      let it = first + step in
      or_fault bad_access (get_elem? series it) >>= λ p. elim (d.lt p.0 x) [
        | true ↦ search fuel (suc it) (suc c - (step + 1))
        | false ↦ search fuel first step
      ]

  -- Behind the loop `count` is 0. The loop runs at most once for each point.
  unfoldable pub start_search_index : Outcome ℤ
  start_search_index = search (length series) 0 (length series) >>= λ first.
      ok (if first == 0 then sub_ℕ 0 1 else pos first)

-- The members `index`, `prevIndex` and `line`, which is `none` when it is hidden.
pub record Pointer (F : Type 0) : Type 0 where
  pub index : ℤ
  pub prev_index : ℤ
  pub line : Option F

module _ {F : Type 0} where
  -- QLineSeries::at
  abbrev pub point_at : List (Point F) → ℤ → Outcome (Point F)
  point_at series (negsuc n) = fault bad_access
  point_at series (pos n) = or_fault bad_access (get_elem? series n)

  unfoldable pub leave_event : Pointer F → Pointer F
  leave_event pointer = record { index = negsuc 0; prev_index = negsuc 0; line = none }

-- `arg` is QString::arg, and `show` writes a double as it does.
module _ {F : Type 0} ⦃d : Double F⦄ (arg : QString → QString → QString) (show : F → QString)
    (signal : CanSignal F) (title : QString) where
  abbrev pub point_label : F → Point F → QString
  point_label x point =
      arg (arg (arg (codes "%3: %1, %2") (show x)) (display show signal point.1)) title

  -- The mouse stands inside the chart or not, at `place` of its item, which is the value `x`. The text is
  -- that of the signal pointNotify.
  unfoldable pub mouse_move_event :
      List (Point F) → Bool → F → F → Pointer F → Outcome (Pointer F × Option QString)
  mouse_move_event series inside place x pointer =
      if inside
      then (start_search_index series x >>= λ index. point_at series index >>= λ point. ok (
        record { index = index; prev_index = index; line = some place },
        some (point_label x point),
      ))
      else ok (pointer, none)
