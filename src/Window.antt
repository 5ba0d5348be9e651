-- ===== src/Window.antt =====
-- src/mainwindow.cpp with src/signalplotlistmodel.cpp: the state behind the window, and its slots.
pub mod Step
pub mod Removed
pub mod Axes
pub mod Reach
pub mod Total
pub mod Undo
pub mod Series
pub mod PlotList
use can_tracer.Prelude.{
  ℕ, zero, suc, ◌+◌, ◌-◌, Bool, not, true, false, Option, none, some, List, [], ◌∷◌, ◌++◌,
  if◌then◌else◌, ltb, length, get_elem?,
}
use can_tracer.Prelude.Int.{ℤ, pos, negsuc}
use can_tracer.Prelude.Outcome.{Outcome, ok, fault, bad_access, out_of_range, or_fault, ◌>>=◌}
use can_tracer.Qt.{Double, QString, QColor}
use can_tracer.LogModel.{LogIndex, Highlighted, log_changed, set_highlight_msg, set_highlight_id}
use can_tracer.Filter.{Filters, set_filter}
use can_tracer.MsgModel.{edit_role, set_data}
use can_tracer.Can.{CanLogMsg, CanSignal, CanDb}
use can_tracer.Graph.{Point, get_signal_graph, drawn}

abbrev pub min_chart_size_step : ℕ
min_chart_size_step = 5

abbrev pub default_min_chart_size : ℕ
default_min_chart_size = 150

abbrev pub default_y_tick : ℕ
default_y_tick = 5

abbrev pub default_width_per_sec : ℕ
default_width_per_sec = 10

-- QList::remove.
abbrev pub remove_at {ℓ} : {A : Type ℓ} → ℕ → List A → List A
remove_at i [] = []
remove_at zero (x ∷ xs) = xs
remove_at (suc i) (x ∷ xs) = x ∷ remove_at i xs

pub record SignalPlotItem (F : Type 0) : Type 0 where
  pub msg_id : ℕ
  pub signal : CanSignal F

-- A CustomQChartView with its chart: the series, and the sizes and tick counts that it was last given.
pub record ChartView (F : Type 0) : Type 0 where
  pub signal : CanSignal F
  pub series : List (Point F)
  pub min_width : ℤ
  pub min_height : ℕ
  pub x_tick_count : ℤ
  pub y_tick_count : ℕ

-- The sizes are positive ints, of which no overflow is modelled: a slot moves one by at most 5.
-- `items` and `widgets` are those of plotModel, `msg_index` is that of signalModel, `highlighted` are
-- the hashes of model, and `filters` that of proxyModel.
pub record MainWindow (F : Type 0) : Type 0 where
  pub msg_db : CanDb F
  pub log : List (CanLogMsg F)
  pub items : List (SignalPlotItem F)
  pub widgets : List (ChartView F)
  pub msg_index : ℤ
  pub highlighted : Highlighted
  pub filters : Filters
  pub time : F
  pub min_chart_size : ℕ
  pub y_tick : ℕ
  pub tick_per_sec : F
  pub width_per_sec : ℕ

module _ {F : Type 0} ⦃d : Double F⦄ where
  abbrev pub tick_per_sec_step : F
  tick_per_sec_step = d.decimal 1 2

  abbrev default_tick_per_sec : F
  default_tick_per_sec = d.decimal 1 1

  unfoldable pub opened : MainWindow F
  opened = record {
    msg_db = [];
    log = [];
    items = [];
    widgets = [];
    msg_index = negsuc 0;
    highlighted = record { row_list = λ row. false; id_list = λ id. false };
    filters = [];
    time = d.of_int (pos 0);
    min_chart_size = default_min_chart_size;
    y_tick = default_y_tick;
    tick_per_sec = default_tick_per_sec;
    width_per_sec = default_width_per_sec;
  }

  -- SignalPlotListModel
  unfoldable pub add_item : ℕ → CanSignal F → ChartView F → MainWindow F → MainWindow F
  add_item msg_id signal widget w = record w {
    items = w.items ++ (record { msg_id = msg_id; signal = signal } ∷ []);
    widgets = w.widgets ++ (widget ∷ []);
  }

  -- An index is `none` if it is not valid, and else its row. QList::remove and at check the row.
  unfoldable pub remove_item : Option ℕ → MainWindow F → Outcome (MainWindow F)
  remove_item none w = ok w
  remove_item (some row) w = do
    item ← or_fault bad_access (get_elem? w.items row)
    widget ← or_fault bad_access (get_elem? w.widgets row)
    ok (record w { items = remove_at row w.items; widgets = remove_at row w.widgets })

  unfoldable pub reset : MainWindow F → MainWindow F
  reset w = record w { items = []; widgets = [] }

  -- What updateChartAxis and onAddSignal give a chart.
  abbrev pub with_axes : MainWindow F → ChartView F → ChartView F
  with_axes w view = record view {
    min_width = d.to_int (d.mul w.time (d.of_int (pos w.width_per_sec)));
    min_height = w.min_chart_size;
    x_tick_count = d.to_int (d.mul w.time w.tick_per_sec);
    y_tick_count = w.y_tick;
  }

  -- The loop runs over the rows, whose number is that of the items.
  unfoldable pub update_views : MainWindow F → ℕ → List (ChartView F) → Outcome (List (ChartView F))
  update_views w zero views = ok views
  update_views w (suc n) [] = fault bad_access
  update_views w (suc n) (view ∷ views) = do
    views' ← update_views w n views
    ok (with_axes w view ∷ views')

  unfoldable pub update_chart_axis : MainWindow F → Outcome (MainWindow F)
  update_chart_axis w = do
    views ← update_views w (length w.items) w.widgets
    ok (record w { widgets = views })

  unfoldable pub on_add_x_tick : MainWindow F → Outcome (MainWindow F)
  on_add_x_tick w =
      update_chart_axis (record w { tick_per_sec = d.add w.tick_per_sec tick_per_sec_step })

  unfoldable pub on_rem_x_tick : MainWindow F → Outcome (MainWindow F)
  on_rem_x_tick w = update_chart_axis (
      if d.lt tick_per_sec_step w.tick_per_sec
      then record w { tick_per_sec = d.sub w.tick_per_sec tick_per_sec_step }
      else w)

  unfoldable pub on_add_y_tick : MainWindow F → Outcome (MainWindow F)
  on_add_y_tick w = update_chart_axis (record w { y_tick = w.y_tick + 1 })

  unfoldable pub on_rem_y_tick : MainWindow F → Outcome (MainWindow F)
  on_rem_y_tick w =
      update_chart_axis (if ltb 1 w.y_tick then record w { y_tick = w.y_tick - 1 } else w)

  unfoldable pub on_zoom_in_x : MainWindow F → Outcome (MainWindow F)
  on_zoom_in_x w = update_chart_axis (record w { width_per_sec = w.width_per_sec + 1 })

  unfoldable pub on_zoom_out_x : MainWindow F → Outcome (MainWindow F)
  on_zoom_out_x w =
      update_chart_axis
        (if ltb 1 w.width_per_sec then record w { width_per_sec = w.width_per_sec - 1 } else w)

  unfoldable pub on_zoom_in_y : MainWindow F → Outcome (MainWindow F)
  on_zoom_in_y w =
      update_chart_axis (record w { min_chart_size = w.min_chart_size + min_chart_size_step })

  unfoldable pub on_zoom_out_y : MainWindow F → Outcome (MainWindow F)
  on_zoom_out_y w = update_chart_axis (
      if ltb min_chart_size_step w.min_chart_size
      then record w { min_chart_size = w.min_chart_size - min_chart_size_step }
      else w)

  unfoldable pub on_reset_all_axis : MainWindow F → Outcome (MainWindow F)
  on_reset_all_axis w = update_chart_axis (record w {
    min_chart_size = default_min_chart_size;
    y_tick = default_y_tick;
    tick_per_sec = default_tick_per_sec;
    width_per_sec = default_width_per_sec;
  })

  -- `result` is what the parser of the log found.
  abbrev pub time_of : List (CanLogMsg F) → F → F
  time_of [] time = time
  time_of (first ∷ rest) time = d.abs (d.sub first.time (last_time first rest))
    where
      last_time : CanLogMsg F → List (CanLogMsg F) → F
      last_time m [] = m.time
      last_time m (m' ∷ ms) = last_time m' ms

  unfoldable pub on_load_log_file : List (CanLogMsg F) → MainWindow F → MainWindow F
  on_load_log_file result w =
      let w' = reset (record w { log = result; highlighted = log_changed w.highlighted }) in
      record w' { time = time_of result w.time }

  unfoldable pub on_load_dbc_file : CanDb F → MainWindow F → MainWindow F
  on_load_dbc_file result w = record w { msg_db = result; msg_index = negsuc 0 }

  unfoldable pub on_msg_select : Option ℕ → MainWindow F → MainWindow F
  on_msg_select none w = w
  on_msg_select (some row) w = record w { msg_index = pos row }

  -- A chart before it is given sizes and tick counts.
  abbrev pub new_view : CanSignal F → List (Point F) → ChartView F
  new_view signal series = record {
    signal = signal;
    series = series;
    min_width = pos 0;
    min_height = 0;
    x_tick_count = pos 0;
    y_tick_count = 0;
  }

  -- `pair` is what the dialog gives, which is read whether it was accepted or not; a box with no entry
  -- gives -1, here `none`.
  unfoldable pub on_add_signal : ℕ → Option ℕ × Option ℕ → MainWindow F → Outcome (MainWindow F)
  on_add_signal past_end (i, j) w = do
    row ← or_fault out_of_range i
    msg ← or_fault out_of_range (get_elem? w.msg_db row)
    col ← or_fault out_of_range j
    signal ← or_fault out_of_range (get_elem? msg.can_signals col)
    points ← get_signal_graph signal msg.id past_end w.log
    ok (add_item msg.id signal (with_axes w (new_view signal (drawn points))) w)

  unfoldable pub on_remove_signal : Option ℕ → MainWindow F → Outcome (MainWindow F)
  on_remove_signal index w = remove_item index w

module _ {F : Type 0} where
  -- The actions of the two context menus of the log, and the editor of the color of a message.
  unfoldable pub on_highlight_msg : LogIndex → Bool → MainWindow F → MainWindow F
  on_highlight_msg index status w = record w {
    highlighted = set_highlight_msg w.log index status w.highlighted;
  }

  unfoldable pub on_highlight_id : LogIndex → Bool → MainWindow F → Outcome (MainWindow F)
  on_highlight_id index status w = do
    h ← set_highlight_id w.log index status w.highlighted
    ok (record w { highlighted = h })

  unfoldable pub on_filter : ℕ → QString → MainWindow F → MainWindow F
  on_filter column expression w = record w { filters = set_filter column expression w.filters }

  unfoldable pub on_edit_color : Option ℕ → QColor → MainWindow F → Outcome (MainWindow F)
  on_edit_color index value w = do
    (db, result) ← set_data w.msg_db index value edit_role
    ok (record w { msg_db = db })
