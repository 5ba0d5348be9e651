-- ===== src/Tests/Plots.antt =====
-- The pointers of the list of plots.
use can_tracer.Prelude.{ℕ, length, Option, ◌<◌, none, ◌≡◌, refl, [], ◌∷◌, some, get_elem?, arith}
use can_tracer.Prelude.Int.{pos}
use can_tracer.Prelude.Outcome.{failure, ok, bad_access, or_fault}
use can_tracer.Qt.{codes, Double}
use can_tracer.Can.{CanSignal}
use can_tracer.Window
use can_tracer.Window.{ChartView, MainWindow}
use can_tracer.PlotStore.{SignalPlotListModel, add_item, remove_item, reset, destroy, get_chart_at}
use can_tracer.PlotStore.Owned.{Represents, Agrees, IsFresh, with_chart, operations-Represents}
use can_tracer.Tests.Concrete.{Number, whole_numbers}
use can_tracer.Tests.Dialogs.{a_signal, window}

instance numbers : Double Number
numbers = whole_numbers

abbrev rate : CanSignal Number
rate = a_signal (codes "Rate")

abbrev chart : ChartView Number
chart = record {
  signal = rate;
  series = [];
  min_width = pos 50;
  min_height = 150;
  x_tick_count = pos 0;
  y_tick_count = 5;
}

abbrev plotted : MainWindow Number
plotted = record window {
  items = record { msg_id = 24; signal = rate } ∷ record { msg_id = 5; signal = rate } ∷ [];
  widgets = chart ∷ chart ∷ [];
}

abbrev stored : SignalPlotListModel Number
stored = record {
  items = plotted.items;
  widgets = 4096 ∷ 1024 ∷ [];
  live = (4096, chart) ∷ (1024, chart) ∷ [];
}

stored-Represents : Represents stored plotted
stored-Represents = record {
  items = refl;
  owned = refl;
  distinct = (((λ e. omega (arith, e)), tt), (tt, tt));
  shown = refl;
}

operations-Represents_example :
    ((id a : ℕ) (signal : CanSignal Number) (view : ChartView Number)
      → IsFresh a stored.widgets
      → Represents
          (add_item id signal a (with_chart a view stored))
          (Window.add_item id signal view plotted))
    × ((index : Option ℕ) → Agrees (remove_item index stored) (Window.remove_item index plotted))
    × ((row : ℕ)
        → row < 2
        → length plotted.items ≡ length plotted.widgets
        → failure (remove_item (some row) stored) ≡ none)
    × ((m' : SignalPlotListModel Number) × (reset stored ≡ ok m')
        × (m'.live ≡ [])
        × Represents m' (Window.reset plotted))
    × (destroy stored ≡ ok [])
    × ((row : ℕ) → get_chart_at row stored ≡ or_fault bad_access (get_elem? plotted.widgets row))
operations-Represents_example = operations-Represents stored plotted stored-Represents
