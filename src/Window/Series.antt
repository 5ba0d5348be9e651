-- ===== src/Window/Series.antt =====
-- The charts show the log that is loaded.
use can_tracer.Prelude.{
  ℕ, zero, suc, ◌≡◌, refl, sym, Bool, true, false, Option, none, some, inl, inr, List, [], ◌∷◌,
  ◌++◌, get_elem?, if◌then◌else◌, ◌-◌, length,
}
use can_tracer.Prelude.Outcome.{
  ok, out_of_range, bad_access, or_fault, Ensures, ensured, failed, Ensures-any, Ensures->>=,
  Outcome-cases, value_of_Ensures,
}
use can_tracer.Qt.{Double}
use can_tracer.Can.{CanLogMsg}
use can_tracer.Graph.{Point, get_signal_graph, drawn}
use can_tracer.LogModel.{set_highlight_id}
use can_tracer.MsgModel.{set_data, edit_role}
use can_tracer.Window.{
  SignalPlotItem, ChartView, MainWindow, opened, with_axes, remove_at, add_item, remove_item, reset,
  update_views, update_chart_axis, on_add_x_tick, on_rem_x_tick, on_add_y_tick, on_rem_y_tick,
  on_zoom_in_x, on_zoom_out_x, on_zoom_in_y, on_zoom_out_y, on_reset_all_axis, on_load_log_file,
  on_load_dbc_file, on_msg_select, on_add_signal, on_remove_signal, on_highlight_msg,
  on_highlight_id, on_filter, on_edit_color, tick_per_sec_step,
}
use can_tracer.Window.Step.{Event, step}
use can_tracer.Window.Reach.{Reached, start, next}

module _ {F : Type 0} ⦃d : Double F⦄ where
  -- The chart draws the graph of the item's signal in the log.
  pub record Draws (log : List (CanLogMsg F)) (item : SignalPlotItem F) (view : ChartView F)
      : Type 0 where
    pub past_end : ℕ
    pub points : List (Point F)
    pub graph : get_signal_graph item.signal item.msg_id past_end log ≡ ok points
    pub series : view.series ≡ drawn points
    pub same_signal : view.signal ≡ item.signal

  abbrev pub AllDraw : List (CanLogMsg F) → List (SignalPlotItem F) → List (ChartView F) → Type 0
  AllDraw log [] [] = Unit
  AllDraw log [] (v ∷ vs) = ⊥
  AllDraw log (i ∷ is) [] = ⊥
  AllDraw log (i ∷ is) (v ∷ vs) = Draws log i v × AllDraw log is vs

  abbrev pub IsCharted : MainWindow F → Type 0
  IsCharted w = AllDraw w.log w.items w.widgets

  Draws-with_axes :
      (w : MainWindow F) (log : List (CanLogMsg F)) (i : SignalPlotItem F) (v : ChartView F)
      → Draws log i v
      → Draws log i (with_axes w v)
  Draws-with_axes w log i v h = record {
    past_end = h.past_end;
    points = h.points;
    graph = h.graph;
    series = h.series;
    same_signal = h.same_signal;
  }

  AllDraw-update :
      (w : MainWindow F) (log : List (CanLogMsg F)) (is : List (SignalPlotItem F))
      (vs : List (ChartView F))
      → AllDraw log is vs
      → Ensures (AllDraw log is) (update_views w (length is) vs)
  unfolding update_views
  AllDraw-update w log [] [] h = ensured h
  AllDraw-update w log [] (v ∷ vs) h = elim h [ ]
  AllDraw-update w log (i ∷ is) [] h = elim h [ ]
  AllDraw-update w log (i ∷ is) (v ∷ vs) h =
      Ensures->>= (AllDraw-update w log is vs h.1)
        (λ vs' h'. ensured (Draws-with_axes w log i v h.0, h'))

  AllDraw-append :
      (log : List (CanLogMsg F)) (is : List (SignalPlotItem F)) (vs : List (ChartView F))
      (i : SignalPlotItem F) (v : ChartView F)
      → AllDraw log is vs
      → Draws log i v
      → AllDraw log (is ++ i ∷ []) (vs ++ v ∷ [])
  AllDraw-append log [] [] i v h g = (g, tt)
  AllDraw-append log [] (v' ∷ vs) i v h g = elim h [ ]
  AllDraw-append log (i' ∷ is) [] i v h g = elim h [ ]
  AllDraw-append log (i' ∷ is) (v' ∷ vs) i v h g = (h.0, AllDraw-append log is vs i v h.1 g)

  AllDraw-remove_at :
      (log : List (CanLogMsg F)) (row : ℕ) (is : List (SignalPlotItem F)) (vs : List (ChartView F))
      → AllDraw log is vs
      → AllDraw log (remove_at row is) (remove_at row vs)
  AllDraw-remove_at log row [] [] h = tt
  AllDraw-remove_at log row [] (v ∷ vs) h = elim h [ ]
  AllDraw-remove_at log row (i ∷ is) [] h = elim h [ ]
  AllDraw-remove_at log zero (i ∷ is) (v ∷ vs) h = h.1
  AllDraw-remove_at log (suc row) (i ∷ is) (v ∷ vs) h = (h.0, AllDraw-remove_at log row is vs h.1)

  update_chart_axis-IsCharted :
      (w : MainWindow F) → IsCharted w → Ensures IsCharted (update_chart_axis w)
  unfolding update_chart_axis
  update_chart_axis-IsCharted w h =
      Ensures->>= (AllDraw-update w w.log w.items w.widgets h) (λ views h'. ensured h')

  guarded-IsCharted :
      (c : Bool) (w u : MainWindow F)
      → IsCharted w
      → IsCharted u
      → Ensures IsCharted (update_chart_axis (if c then u else w))
  guarded-IsCharted true w u h g = update_chart_axis-IsCharted u g
  guarded-IsCharted false w u h g = update_chart_axis-IsCharted w h

  on_add_signal-IsCharted :
      (past_end : ℕ) (pair : Option ℕ × Option ℕ) (w : MainWindow F)
      → IsCharted w
      → Ensures IsCharted (on_add_signal past_end pair w)
  unfolding on_add_signal add_item
  on_add_signal-IsCharted past_end (i, j) w h = Ensures-any (or_fault out_of_range i) (λ row.
      Ensures-any (or_fault out_of_range (get_elem? w.msg_db row)) (λ msg.
        Ensures-any (or_fault out_of_range j) (λ col.
          Ensures-any (or_fault out_of_range (get_elem? msg.can_signals col)) (λ signal.
            elim (Outcome-cases (get_signal_graph signal msg.id past_end w.log)) [
              | inl (e, g) ↦ rw g failed
              | inr (points, g) ↦ rw g (
                  ensured (
                    AllDraw-append w.log w.items w.widgets _ _ h (record {
                      past_end = past_end;
                      points = points;
                      graph = g;
                      series = refl;
                      same_signal = refl;
                    })))
            ]))))

  step-IsCharted : (e : Event F) (w : MainWindow F) → IsCharted w → Ensures IsCharted (step e w)
  unfolding step on_load_log_file on_load_dbc_file on_msg_select on_remove_signal remove_item
      on_highlight_msg on_highlight_id on_filter on_edit_color reset on_add_x_tick on_rem_x_tick
      on_add_y_tick on_rem_y_tick on_zoom_in_x on_zoom_out_x on_zoom_in_y on_zoom_out_y
      on_reset_all_axis
  step-IsCharted (Event.load_log result) w h = ensured tt
  step-IsCharted (Event.load_dbc result) w h = ensured h
  step-IsCharted (Event.msg_select none) w h = ensured h
  step-IsCharted (Event.msg_select (some row)) w h = ensured h
  step-IsCharted (Event.add_signal past_end pair) w h = on_add_signal-IsCharted past_end pair w h
  step-IsCharted (Event.remove_signal none) w h = ensured h
  step-IsCharted (Event.remove_signal (some row)) w h =
      Ensures-any (or_fault bad_access (get_elem? w.items row)) (λ item.
        Ensures-any (or_fault bad_access (get_elem? w.widgets row))
          (λ widget. ensured (AllDraw-remove_at w.log row w.items w.widgets h)))
  step-IsCharted (Event.highlight_msg index status) w h = ensured h
  step-IsCharted (Event.highlight_id index status) w h =
      Ensures-any (set_highlight_id w.log index status w.highlighted) (λ k. ensured h)
  step-IsCharted (Event.filter column expression) w h = ensured h
  step-IsCharted (Event.edit_color index value) w h =
      Ensures-any (set_data w.msg_db index value edit_role) (λ r. ensured h)
  step-IsCharted Event.add_x_tick w h = update_chart_axis-IsCharted _ h
  step-IsCharted Event.add_y_tick w h = update_chart_axis-IsCharted _ h
  step-IsCharted Event.rem_x_tick w h =
      guarded-IsCharted _ w (record w { tick_per_sec = d.sub w.tick_per_sec tick_per_sec_step }) h h
  step-IsCharted Event.rem_y_tick w h =
      guarded-IsCharted _ w (record w { y_tick = w.y_tick - 1 }) h h
  step-IsCharted Event.zoom_in_x w h = update_chart_axis-IsCharted _ h
  step-IsCharted Event.zoom_in_y w h = update_chart_axis-IsCharted _ h
  step-IsCharted Event.zoom_out_x w h =
      guarded-IsCharted _ w (record w { width_per_sec = w.width_per_sec - 1 }) h h
  step-IsCharted Event.zoom_out_y w h =
      guarded-IsCharted _ w (record w { min_chart_size = w.min_chart_size - 5 }) h h
  step-IsCharted Event.reset_all_axis w h = update_chart_axis-IsCharted _ h

  -- However the slots are called, as long as none fails: the listed plots and the charts are as many, and
  -- each chart draws the graph of the plot's signal in the log that is loaded now, never in an earlier one.
  pub Reached-IsCharted : {w : MainWindow F} → Reached w → IsCharted w
  unfolding opened
  Reached-IsCharted start = tt
  Reached-IsCharted (next {w} {w'} e r h) =
      let known : Ensures IsCharted (ok w') =
        rw (sym h) (step-IsCharted e w (Reached-IsCharted r)) in
      value_of_Ensures known
