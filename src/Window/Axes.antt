-- ===== src/Window/Axes.antt =====
-- The charts follow the axes: what holds between the slots of the window.
use can_tracer.Prelude.{◌%◌, ◌≤◌, ◌≡◌, refl, sym, ap, ◌∙◌, List, [], ◌∷◌, length, map, All}
use can_tracer.Prelude.Outcome.{ok, Ensures, ensured}
use can_tracer.Qt.{Double}
use can_tracer.Can.{CanSignal}
use can_tracer.Window.{
  SignalPlotItem, ChartView, MainWindow, with_axes, update_views, update_chart_axis,
}

module _ {F : Type 0} where
  abbrev pub item_signals : List (SignalPlotItem F) → List (CanSignal F)
  item_signals items = map (λ (item : SignalPlotItem F). item.signal) items

  abbrev pub view_signals : List (ChartView F) → List (CanSignal F)
  view_signals views = map (λ (view : ChartView F). view.signal) views

module _ {F : Type 0} ⦃d : Double F⦄ where
  abbrev pub Shows : MainWindow F → ChartView F → Type 0
  Shows w view = with_axes w view ≡ view

  -- The list of plots and the charts are the same signals in the same order, every chart has the sizes
  -- and tick counts of the axes, and no axis is degenerate.
  pub record IsConsistent (w : MainWindow F) : Type 0 where
    pub paired : item_signals w.items ≡ view_signals w.widgets
    pub shown : All (Shows w) w.widgets
    pub some_y_tick : 1 ≤ w.y_tick
    pub some_width : 1 ≤ w.width_per_sec
    pub some_height : 5 ≤ w.min_chart_size
    pub stepped : w.min_chart_size % 5 ≡ 0

  abbrev tail_of : List (CanSignal F) → List (CanSignal F)
  tail_of [] = []
  tail_of (s ∷ ss) = ss

  -- On as many items as charts, updateChartAxis gives every chart the axes, and does not fail.
  pub update_views_lem :
      (w : MainWindow F) (items : List (SignalPlotItem F)) (views : List (ChartView F))
      → item_signals items ≡ view_signals views
      → update_views w (length items) views ≡ ok (map (with_axes w) views)
  unfolding update_views
  update_views_lem w [] [] e = refl
  update_views_lem w [] (v ∷ vs) e = cc
  update_views_lem w (i ∷ is) [] e = cc
  update_views_lem w (i ∷ is) (v ∷ vs) e = rw (update_views_lem w is vs (ap tail_of e)) refl

  pub view_signals-with_axes :
      (w : MainWindow F) (views : List (ChartView F))
      → view_signals (map (with_axes w) views) ≡ view_signals views
  view_signals-with_axes w [] = refl
  view_signals-with_axes w (v ∷ vs) = ap (λ vs. v.signal ∷ vs) (view_signals-with_axes w vs)

  pub All-with_axes :
      (w : MainWindow F) (views : List (ChartView F)) → All (Shows w) (map (with_axes w) views)
  All-with_axes w [] = tt
  All-with_axes w (v ∷ vs) = (refl, All-with_axes w vs)

  pub update_chart_axis_lem :
      (w : MainWindow F)
      → item_signals w.items ≡ view_signals w.widgets
      → update_chart_axis w ≡ ok (record w { widgets = map (with_axes w) w.widgets })
  unfolding update_chart_axis
  update_chart_axis_lem w e = rw (update_views_lem w w.items w.widgets e) refl

  map-with_axes_id :
      (w : MainWindow F) (views : List (ChartView F))
      → All (Shows w) views
      → map (with_axes w) views ≡ views
  map-with_axes_id w [] shown = refl
  map-with_axes_id w (v ∷ vs) shown = rw (shown.0, map-with_axes_id w vs shown.1) refl

  -- A slot ends with updateChartAxis, which makes the charts follow the axes.
  pub update_chart_axis-IsConsistent :
      (w : MainWindow F)
      → item_signals w.items ≡ view_signals w.widgets
      → 1 ≤ w.y_tick
      → 1 ≤ w.width_per_sec
      → 5 ≤ w.min_chart_size
      → w.min_chart_size % 5 ≡ 0
      → Ensures IsConsistent (update_chart_axis w)
  update_chart_axis-IsConsistent w e y x h m = rw (update_chart_axis_lem w e) (
      ensured (record {
        paired = e ∙ sym (view_signals-with_axes w w.widgets);
        shown = All-with_axes w w.widgets;
        some_y_tick = y;
        some_width = x;
        some_height = h;
        stepped = m;
      }))

  map-with_axes_twice :
      (w u : MainWindow F) (views : List (ChartView F))
      → map (with_axes w) (map (with_axes u) views) ≡ map (with_axes w) views
  map-with_axes_twice w u [] = refl
  map-with_axes_twice w u (v ∷ vs) = ap (λ vs. with_axes w v ∷ vs) (map-with_axes_twice w u vs)

  -- Axes that are as before make the charts as before.
  pub update_chart_axis_back :
      (w u : MainWindow F)
      → IsConsistent w
      → update_chart_axis (record w { widgets = map (with_axes u) w.widgets }) ≡ ok w
  update_chart_axis_back w u h =
      rw
        (
          update_chart_axis_lem (record w { widgets = map (with_axes u) w.widgets })
              (h.paired ∙ sym (view_signals-with_axes u w.widgets)),
          map-with_axes_twice w u w.widgets,
          map-with_axes_id w w.widgets h.shown,
        )
        refl
