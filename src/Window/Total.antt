-- ===== src/Window/Total.antt =====
-- Which slots cannot fail.
use can_tracer.Prelude.{
  ℕ, ◌<◌, ◌≡◌, refl, Option, none, some, List, ltb, length, get_elem?, get_elem?-some, length-map,
  arith, Bool-cases, inl, inr, ap, sym, ◌∙◌,
}
use can_tracer.Prelude.Outcome.{ok, failure}
use can_tracer.Qt.{Double}
use can_tracer.Can.{CanMessage, CanSignal}
use can_tracer.Graph.{Point, get_signal_graph}
use can_tracer.LogModel.{LogIndex, set_highlight_id}
use can_tracer.MsgModel.{set_data}
use can_tracer.Window.Step.{Event, step}
use can_tracer.Window.{
  on_highlight_id, on_edit_color, SignalPlotItem, ChartView, MainWindow, update_chart_axis,
  remove_item, on_add_x_tick, on_rem_x_tick, on_add_y_tick, on_rem_y_tick, on_zoom_in_x,
  on_zoom_out_x, on_zoom_in_y, on_zoom_out_y, on_reset_all_axis, on_add_signal, on_remove_signal,
  tick_per_sec_step,
}
use can_tracer.Window.Axes.{IsConsistent, item_signals, view_signals, update_chart_axis_lem}

module _ {F : Type 0} ⦃d : Double F⦄ where
  -- The boxes of the dialog name a signal, whose graph can be computed.
  pub record IsReady (past_end : ℕ) (pair : Option ℕ × Option ℕ) (w : MainWindow F) : Type 0 where
    pub row : ℕ
    pub col : ℕ
    pub msg : CanMessage F
    pub signal : CanSignal F
    pub points : List (Point F)
    pub chosen : pair ≡ (some row, some col)
    pub has_msg : get_elem? w.msg_db row ≡ some msg
    pub has_signal : get_elem? msg.can_signals col ≡ some signal
    pub has_points : get_signal_graph signal msg.id past_end w.log ≡ ok points

  -- A row that is to be removed, highlighted or edited exists, and a signal that is to be added is ready.
  abbrev pub Allowed : MainWindow F → Event F → Type 0
  Allowed w (Event.add_signal past_end pair) = IsReady past_end pair w
  Allowed w (Event.remove_signal (some row)) = row < length w.items
  Allowed w (Event.highlight_id (LogIndex.entry row column) status) = row < length w.log
  Allowed w (Event.highlight_id (LogIndex.below row column owner) status) = row < length w.log
  Allowed w (Event.edit_color (some row) value) = row < length w.msg_db
  Allowed w _ = Unit

  update_total :
      (w : MainWindow F)
      → item_signals w.items ≡ view_signals w.widgets
      → failure (update_chart_axis w) ≡ none
  update_total w e = rw (update_chart_axis_lem w e) refl

  length_of_paired :
      (items : List (SignalPlotItem F)) (views : List (ChartView F))
      → item_signals items ≡ view_signals views
      → length items ≡ length views
  length_of_paired items views e =
      sym (length-map (λ (item : SignalPlotItem F). item.signal) items)
      ∙ ap length e
      ∙ length-map (λ (view : ChartView F). view.signal) views

  remove_total :
      (row : ℕ) (w : MainWindow F)
      → IsConsistent w
      → row < length w.items
      → failure (remove_item (some row) w) ≡ none
  unfolding remove_item
  remove_total row w h lt =
      let item = get_elem?-some w.items row lt in
      let e = length_of_paired w.items w.widgets h.paired in
      let view = get_elem?-some w.widgets row (omega (arith, e, lt)) in rw (item.1, view.1) refl

  -- In a consistent window a slot fails only where it removes, highlights or edits a row that does not
  -- exist, or adds a signal that is not in the database or has no graph: all other calls give a window.
  pub step_total :
      (w : MainWindow F) (e : Event F) → IsConsistent w → Allowed w e → failure (step e w) ≡ none
  unfolding step remove_item on_add_x_tick on_rem_x_tick on_add_y_tick on_rem_y_tick on_zoom_in_x
      on_zoom_out_x on_zoom_in_y on_zoom_out_y on_reset_all_axis on_remove_signal on_add_signal
      on_highlight_id set_highlight_id on_edit_color set_data
  step_total w (Event.load_log result) h a = refl
  step_total w (Event.load_dbc result) h a = refl
  step_total w (Event.msg_select index) h a = refl
  step_total w (Event.add_signal past_end pair) h a =
      rw (a.chosen, a.has_msg, a.has_signal, a.has_points) refl
  step_total w (Event.remove_signal none) h a = refl
  step_total w (Event.remove_signal (some row)) h a = remove_total row w h a
  step_total w (Event.highlight_msg index status) h a = refl
  step_total w (Event.highlight_id LogIndex.invalid status) h a = refl
  step_total w (Event.highlight_id (LogIndex.entry row column) status) h a =
      rw ((get_elem?-some w.log row a).1) refl
  step_total w (Event.highlight_id (LogIndex.below row column owner) status) h a =
      rw ((get_elem?-some w.log row a).1) refl
  step_total w (Event.filter column expression) h a = refl
  step_total w (Event.edit_color none value) h a = refl
  step_total w (Event.edit_color (some row) value) h a = rw ((get_elem?-some w.msg_db row a).1) refl
  step_total w Event.add_x_tick h a =
      update_total (record w { tick_per_sec = d.add w.tick_per_sec tick_per_sec_step }) h.paired
  step_total w Event.add_y_tick h a = update_total _ h.paired
  step_total w Event.rem_x_tick h a = elim (Bool-cases (d.lt tick_per_sec_step w.tick_per_sec)) [
    | inl e ↦ rw e (update_total _ h.paired)
    | inr e ↦ rw e (update_total w h.paired)
  ]
  step_total w Event.rem_y_tick h a = elim (Bool-cases (ltb 1 w.y_tick)) [
    | inl e ↦ rw e (update_total _ h.paired)
    | inr e ↦ rw e (update_total w h.paired)
  ]
  step_total w Event.zoom_in_x h a = update_total _ h.paired
  step_total w Event.zoom_in_y h a = update_total _ h.paired
  step_total w Event.zoom_out_x h a = elim (Bool-cases (ltb 1 w.width_per_sec)) [
    | inl e ↦ rw e (update_total _ h.paired)
    | inr e ↦ rw e (update_total w h.paired)
  ]
  step_total w Event.zoom_out_y h a = elim (Bool-cases (ltb 5 w.min_chart_size)) [
    | inl e ↦ rw e (update_total _ h.paired)
    | inr e ↦ rw e (update_total w h.paired)
  ]
  step_total w Event.reset_all_axis h a = update_total _ h.paired
