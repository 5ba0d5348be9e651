-- ===== src/Window/Undo.antt =====
-- The buttons that change an axis, each followed by the one that goes back.
use can_tracer.Prelude.{◌+◌, ◌-◌, ◌≡◌, ℕ, true, ltb, arith, ◌≤◌}
use can_tracer.Prelude.Outcome.{ok, ◌>>=◌}
use can_tracer.Qt.{Double}
use can_tracer.Window.{
  MainWindow, on_add_y_tick, on_rem_y_tick, on_zoom_in_x, on_zoom_out_x, on_zoom_in_y,
  on_zoom_out_y,
}
use can_tracer.Window.Axes.{IsConsistent, update_chart_axis_lem, update_chart_axis_back}

above : (n k : ℕ) → 1 ≤ n → ltb k (n + k) ≡ true
above n k h = ground (arith, h)

back : (n k : ℕ) → n + k - k ≡ n
back n k = omega arith

module _ {F : Type 0} ⦃d : Double F⦄ where
  -- In a consistent window, removing a y tick behind adding one, and zooming out behind zooming in on
  -- either axis, gives the window as it was, charts included.
  pub undone :
      (w : MainWindow F)
      → IsConsistent w
      → ((on_add_y_tick w >>= on_rem_y_tick) ≡ ok w)
        × ((on_zoom_in_x w >>= on_zoom_out_x) ≡ ok w)
        × ((on_zoom_in_y w >>= on_zoom_out_y) ≡ ok w)
  unfolding on_add_y_tick on_rem_y_tick on_zoom_in_x on_zoom_out_x on_zoom_in_y on_zoom_out_y
  undone w h =
      let y = record w { y_tick = w.y_tick + 1 } in
      let x = record w { width_per_sec = w.width_per_sec + 1 } in
      let z = record w { min_chart_size = w.min_chart_size + 5 } in
      (
        rw (update_chart_axis_lem y h.paired, above w.y_tick 1 h.some_y_tick, back w.y_tick 1)
            (update_chart_axis_back w y h),
        rw
            (
              update_chart_axis_lem x h.paired,
              above w.width_per_sec 1 h.some_width,
              back w.width_per_sec 1,
            )
            (update_chart_axis_back w x h),
        rw
            (
              update_chart_axis_lem z h.paired,
              above w.min_chart_size 5 (omega (arith, h.some_height)),
              back w.min_chart_size 5,
            )
            (update_chart_axis_back w z h),
      )
