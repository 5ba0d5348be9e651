-- ===== src/Window/PlotList.antt =====
-- src/signalplotlistmodel.cpp: the texts of the list of plots.
use can_tracer.Prelude.{
  ℕ, suc, zero, ◌≡◌, ◌<◌, refl, Option, none, some, List, [], ◌∷◌, length, get_elem?, arith,
  if◌then◌else◌,
}
use can_tracer.Prelude.Outcome.{Outcome, ok, out_of_range, or_fault, ◌>>=◌}
use can_tracer.Qt.{QString, codes, Double}
use can_tracer.Qt.Variant.{Variant, no_value, text}
use can_tracer.Can.{CanLogMsg, CanSignal, format_id}
use can_tracer.MsgModel.{Role}
use can_tracer.MsgModel.Cells.{is_display}
use can_tracer.LogModel.{Format}
use can_tracer.Window.{SignalPlotItem, ChartView}
use can_tracer.Window.Series.{Draws, AllDraw}

-- `arg` is QString::arg.
module _ {F : Type 0} (format : Format F) (arg : QString → QString → QString) where
  abbrev pub plot_text : ℕ → CanSignal F → QString
  plot_text id signal = arg (arg (codes "%2 - %1") (format_id format.hex_id id)) signal.name

  -- SignalPlotListModel::data
  unfoldable pub plot_data : List (SignalPlotItem F) → Role → Option ℕ → Outcome Variant
  plot_data items role none = ok no_value
  plot_data items role (some row) =
      if is_display role
      then (or_fault out_of_range (get_elem? items row) >>= λ item.
          ok (text (plot_text item.msg_id item.signal)))
      else ok no_value

module _ {F : Type 0} ⦃d : Double F⦄ where
  -- A row of the list is that of an item and of the chart that draws it.
  pub AllDraw-at :
      (log : List (CanLogMsg F)) (is : List (SignalPlotItem F)) (vs : List (ChartView F)) (row : ℕ)
      → AllDraw log is vs
      → row < length is
      → (item : SignalPlotItem F) × (view : ChartView F) × (get_elem? is row ≡ some item)
        × (get_elem? vs row ≡ some view)
        × Draws log item view
  AllDraw-at log [] vs row h lt = absurd (omega (arith, lt))
  AllDraw-at log (i ∷ is) [] row h lt = elim h [ ]
  AllDraw-at log (i ∷ is) (v ∷ vs) zero h lt = (i, v, refl, refl, h.0)
  AllDraw-at log (i ∷ is) (v ∷ vs) (suc row) h lt = AllDraw-at log is vs row h.1 (omega (arith, lt))
