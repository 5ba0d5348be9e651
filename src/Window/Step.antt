-- ===== src/Window/Step.antt =====
-- The slots of src/mainwindow.h as the steps of the window.
use can_tracer.Prelude.{ℕ, Bool, Option, List}
use can_tracer.Prelude.Outcome.{Outcome, ok}
use can_tracer.Qt.{Double, QString, QColor}
use can_tracer.LogModel.{LogIndex}
use can_tracer.Can.{CanLogMsg, CanDb}
use can_tracer.Window.{
  MainWindow, on_add_x_tick, on_rem_x_tick, on_add_y_tick, on_rem_y_tick, on_zoom_in_x,
  on_zoom_out_x, on_zoom_in_y, on_zoom_out_y, on_reset_all_axis, on_load_log_file, on_load_dbc_file,
  on_msg_select, on_add_signal, on_remove_signal, on_highlight_msg, on_highlight_id, on_filter,
  on_edit_color,
}

-- The slots, with what they are called with or ask for.
pub data Event (F : Type 0) : Type 0 where
  load_log : List (CanLogMsg F) → Event F
  load_dbc : CanDb F → Event F
  msg_select : Option ℕ → Event F
  add_signal : ℕ → Option ℕ × Option ℕ → Event F
  remove_signal : Option ℕ → Event F
  highlight_msg highlight_id : LogIndex → Bool → Event F
  filter : ℕ → QString → Event F
  edit_color : Option ℕ → QColor → Event F
  add_x_tick add_y_tick rem_x_tick rem_y_tick : Event F
  zoom_in_x zoom_in_y zoom_out_x zoom_out_y : Event F
  reset_all_axis : Event F

module _ {F : Type 0} ⦃d : Double F⦄ where
  unfoldable pub step : Event F → MainWindow F → Outcome (MainWindow F)
  step (load_log result) w = ok (on_load_log_file result w)
  step (load_dbc result) w = ok (on_load_dbc_file result w)
  step (msg_select index) w = ok (on_msg_select index w)
  step (add_signal past_end pair) w = on_add_signal past_end pair w
  step (remove_signal index) w = on_remove_signal index w
  step (highlight_msg index status) w = ok (on_highlight_msg index status w)
  step (highlight_id index status) w = on_highlight_id index status w
  step (filter column expression) w = ok (on_filter column expression w)
  step (edit_color index value) w = on_edit_color index value w
  step add_x_tick w = on_add_x_tick w
  step add_y_tick w = on_add_y_tick w
  step rem_x_tick w = on_rem_x_tick w
  step rem_y_tick w = on_rem_y_tick w
  step zoom_in_x w = on_zoom_in_x w
  step zoom_in_y w = on_zoom_in_y w
  step zoom_out_x w = on_zoom_out_x w
  step zoom_out_y w = on_zoom_out_y w
  step reset_all_axis w = on_reset_all_axis w
