-- ===== src/Window/Reach.antt =====
-- The window after any sequence of slots.
use mathlib.Core.List.{map-append}
use can_tracer.Graph.{get_signal_graph, drawn}
use can_tracer.Prelude.{
  ℕ, ◌+◌, ◌-◌, ◌≡◌, refl, sym, ap, ◌∙◌, Option, none, some, List, [], ◌∷◌, ◌++◌, ltb, get_elem?,
  All-append, arith, Bool-cases, inl, inr,
}
use can_tracer.Prelude.Outcome.{
  ok, Ensures, ensured, Ensures-any, value_of_Ensures, or_fault, out_of_range, bad_access,
}
use can_tracer.Qt.{Double}
use can_tracer.Can.{CanSignal}
use can_tracer.LogModel.{set_highlight_id}
use can_tracer.MsgModel.{edit_role, set_data}
use can_tracer.Window.Removed.{All-remove_at, map-remove_at}
use can_tracer.Window.Step.{Event, step}
use can_tracer.Window.{
  on_highlight_msg, on_highlight_id, on_filter, on_edit_color, opened, SignalPlotItem, ChartView,
  MainWindow, remove_at, with_axes, add_item, remove_item, reset, on_add_x_tick, on_rem_x_tick,
  on_add_y_tick, on_rem_y_tick, on_zoom_in_x, on_zoom_out_x, on_zoom_in_y, on_zoom_out_y,
  on_reset_all_axis, on_load_log_file, on_load_dbc_file, on_msg_select, on_add_signal,
  on_remove_signal, tick_per_sec_step, new_view,
}
use can_tracer.Window.Axes.{
  IsConsistent, Shows, item_signals, view_signals, update_chart_axis-IsConsistent,
}

module _ {F : Type 0} ⦃d : Double F⦄ where
  item_signals-append :
      (items : List (SignalPlotItem F)) (views : List (ChartView F)) (n : ℕ) (v : ChartView F)
      → item_signals items ≡ view_signals views
      → item_signals (items ++ (record { msg_id = n; signal = v.signal } ∷ []))
        ≡ view_signals (views ++ (v ∷ []))
  item_signals-append items views n v e =
      map-append (λ (i : SignalPlotItem F). i.signal) items
        (record { msg_id = n; signal = v.signal } ∷ [])
      ∙ ap (λ ss. ss ++ (v.signal ∷ [])) e
      ∙ sym (map-append (λ (c : ChartView F). c.signal) views (v ∷ []))

  opened-IsConsistent : IsConsistent (opened {F = F})
  unfolding opened
  opened-IsConsistent = record {
    paired = refl;
    shown = tt;
    some_y_tick = omega arith;
    some_width = omega arith;
    some_height = omega arith;
    stepped = omega arith;
  }

  add_item-IsConsistent :
      (id : ℕ) (signal : CanSignal F) (view : ChartView F) (w : MainWindow F)
      → IsConsistent w
      → view.signal ≡ signal
      → Ensures IsConsistent (ok (add_item id signal (with_axes w view) w))
  unfolding add_item
  add_item-IsConsistent id signal view w h e = ensured (record {
    paired = rw (sym e) (item_signals-append w.items w.widgets id (with_axes w view) h.paired);
    shown = All-append (Shows w) w.widgets (with_axes w view ∷ []) h.shown (refl, tt);
    some_y_tick = h.some_y_tick;
    some_width = h.some_width;
    some_height = h.some_height;
    stepped = h.stepped;
  })

  on_add_signal-IsConsistent :
      (past_end : ℕ) (pair : Option ℕ × Option ℕ) (w : MainWindow F)
      → IsConsistent w
      → Ensures IsConsistent (on_add_signal past_end pair w)
  unfolding on_add_signal
  on_add_signal-IsConsistent past_end (i, j) w h = Ensures-any (or_fault out_of_range i) (λ row.
      Ensures-any (or_fault out_of_range (get_elem? w.msg_db row)) (λ msg.
        Ensures-any (or_fault out_of_range j) (λ col.
          Ensures-any (or_fault out_of_range (get_elem? msg.can_signals col)) (λ signal.
            Ensures-any (get_signal_graph signal msg.id past_end w.log) (λ points.
              add_item-IsConsistent msg.id signal (new_view signal (drawn points)) w h refl)))))

  remove_item-IsConsistent :
      (index : Option ℕ) (w : MainWindow F)
      → IsConsistent w
      → Ensures IsConsistent (remove_item index w)
  unfolding remove_item
  remove_item-IsConsistent none w h = ensured h
  remove_item-IsConsistent (some row) w h =
      Ensures-any (or_fault bad_access (get_elem? w.items row)) (λ item.
        Ensures-any (or_fault bad_access (get_elem? w.widgets row)) (λ widget. ensured (record {
          paired =
              map-remove_at (λ (item : SignalPlotItem F). item.signal) row w.items
              ∙ ap (remove_at row) h.paired
              ∙ sym (map-remove_at (λ (view : ChartView F). view.signal) row w.widgets);
          shown = All-remove_at (Shows w) row w.widgets h.shown;
          some_y_tick = h.some_y_tick;
          some_width = h.some_width;
          some_height = h.some_height;
          stepped = h.stepped;
        })))

  -- A slot that does not fail leaves the window consistent.
  pub step-IsConsistent :
      (e : Event F) (w : MainWindow F) → IsConsistent w → Ensures IsConsistent (step e w)
  unfolding step on_add_x_tick on_rem_x_tick on_add_y_tick on_rem_y_tick on_zoom_in_x on_zoom_out_x
      on_zoom_in_y on_zoom_out_y on_reset_all_axis on_load_log_file on_load_dbc_file on_msg_select
      on_remove_signal on_highlight_msg on_highlight_id on_filter on_edit_color reset
  step-IsConsistent (Event.load_log result) w h = ensured (record {
    paired = refl;
    shown = tt;
    some_y_tick = h.some_y_tick;
    some_width = h.some_width;
    some_height = h.some_height;
    stepped = h.stepped;
  })
  step-IsConsistent (Event.load_dbc result) w h = ensured (record {
    paired = h.paired;
    shown = h.shown;
    some_y_tick = h.some_y_tick;
    some_width = h.some_width;
    some_height = h.some_height;
    stepped = h.stepped;
  })
  step-IsConsistent (Event.msg_select none) w h = ensured h
  step-IsConsistent (Event.msg_select (some row)) w h = ensured (record {
    paired = h.paired;
    shown = h.shown;
    some_y_tick = h.some_y_tick;
    some_width = h.some_width;
    some_height = h.some_height;
    stepped = h.stepped;
  })
  step-IsConsistent (Event.add_signal past_end pair) w h =
      on_add_signal-IsConsistent past_end pair w h
  step-IsConsistent (Event.remove_signal index) w h = remove_item-IsConsistent index w h
  step-IsConsistent (Event.highlight_msg index status) w h = ensured (record {
    paired = h.paired;
    shown = h.shown;
    some_y_tick = h.some_y_tick;
    some_width = h.some_width;
    some_height = h.some_height;
    stepped = h.stepped;
  })
  step-IsConsistent (Event.highlight_id index status) w h =
      Ensures-any (set_highlight_id w.log index status w.highlighted) (λ k. ensured (record {
        paired = h.paired;
        shown = h.shown;
        some_y_tick = h.some_y_tick;
        some_width = h.some_width;
        some_height = h.some_height;
        stepped = h.stepped;
      }))
  step-IsConsistent (Event.filter column expression) w h = ensured (record {
    paired = h.paired;
    shown = h.shown;
    some_y_tick = h.some_y_tick;
    some_width = h.some_width;
    some_height = h.some_height;
    stepped = h.stepped;
  })
  step-IsConsistent (Event.edit_color index value) w h =
      Ensures-any (set_data w.msg_db index value edit_role) (λ r. ensured (record {
        paired = h.paired;
        shown = h.shown;
        some_y_tick = h.some_y_tick;
        some_width = h.some_width;
        some_height = h.some_height;
        stepped = h.stepped;
      }))
  step-IsConsistent Event.add_x_tick w h =
      update_chart_axis-IsConsistent
        (record w { tick_per_sec = d.add w.tick_per_sec tick_per_sec_step }) h.paired
        (omega (arith, h.some_y_tick)) (omega (arith, h.some_width)) (omega (arith, h.some_height))
        (omega (arith, h.stepped))
  step-IsConsistent Event.add_y_tick w h =
      update_chart_axis-IsConsistent (record w { y_tick = w.y_tick + 1 }) h.paired
        (omega (arith, h.some_y_tick)) (omega (arith, h.some_width)) (omega (arith, h.some_height))
        (omega (arith, h.stepped))
  step-IsConsistent Event.rem_x_tick w h =
      elim (Bool-cases (d.lt tick_per_sec_step w.tick_per_sec)) [
        | inl e ↦ rw e (
            update_chart_axis-IsConsistent
              (record w { tick_per_sec = d.sub w.tick_per_sec tick_per_sec_step }) h.paired
              (ground (arith, h.some_y_tick)) (ground (arith, h.some_width))
              (ground (arith, h.some_height, h.stepped)) (ground (arith, h.some_height, h.stepped)))
        | inr e ↦ rw e (
            update_chart_axis-IsConsistent (w) h.paired (omega (arith, h.some_y_tick))
              (omega (arith, h.some_width)) (omega (arith, h.some_height))
              (omega (arith, h.stepped)))
      ]
  step-IsConsistent Event.rem_y_tick w h = elim (Bool-cases (ltb 1 w.y_tick)) [
    | inl e ↦ rw e (
        update_chart_axis-IsConsistent (record w { y_tick = w.y_tick - 1 }) h.paired
          (ground (arith, h.some_y_tick)) (ground (arith, h.some_width))
          (ground (arith, h.some_height, h.stepped)) (ground (arith, h.some_height, h.stepped)))
    | inr e ↦ rw e (
        update_chart_axis-IsConsistent (w) h.paired (omega (arith, h.some_y_tick))
          (omega (arith, h.some_width)) (omega (arith, h.some_height)) (omega (arith, h.stepped)))
  ]
  step-IsConsistent Event.zoom_in_x w h =
      update_chart_axis-IsConsistent (record w { width_per_sec = w.width_per_sec + 1 }) h.paired
        (omega (arith, h.some_y_tick)) (omega (arith, h.some_width)) (omega (arith, h.some_height))
        (omega (arith, h.stepped))
  step-IsConsistent Event.zoom_in_y w h =
      update_chart_axis-IsConsistent (record w { min_chart_size = w.min_chart_size + 5 }) h.paired
        (omega (arith, h.some_y_tick)) (omega (arith, h.some_width)) (omega (arith, h.some_height))
        (omega (arith, h.stepped))
  step-IsConsistent Event.zoom_out_x w h = elim (Bool-cases (ltb 1 w.width_per_sec)) [
    | inl e ↦ rw e (
        update_chart_axis-IsConsistent (record w { width_per_sec = w.width_per_sec - 1 }) h.paired
          (ground (arith, h.some_y_tick)) (ground (arith, h.some_width))
          (ground (arith, h.some_height, h.stepped)) (ground (arith, h.some_height, h.stepped)))
    | inr e ↦ rw e (
        update_chart_axis-IsConsistent (w) h.paired (omega (arith, h.some_y_tick))
          (omega (arith, h.some_width)) (omega (arith, h.some_height)) (omega (arith, h.stepped)))
  ]
  step-IsConsistent Event.zoom_out_y w h = elim (Bool-cases (ltb 5 w.min_chart_size)) [
    | inl e ↦ rw e (
        update_chart_axis-IsConsistent (record w { min_chart_size = w.min_chart_size - 5 }) h.paired
          (ground (arith, h.some_y_tick)) (ground (arith, h.some_width))
          (ground (arith, h.some_height, h.stepped)) (ground (arith, h.some_height, h.stepped)))
    | inr e ↦ rw e (
        update_chart_axis-IsConsistent (w) h.paired (omega (arith, h.some_y_tick))
          (omega (arith, h.some_width)) (omega (arith, h.some_height)) (omega (arith, h.stepped)))
  ]
  step-IsConsistent Event.reset_all_axis w h =
      update_chart_axis-IsConsistent _ h.paired (omega arith) (omega arith) (omega arith)
        (omega arith)

  -- What slots make of the window that the program opens.
  pub data Reached : MainWindow F → Type 0 where
    start : Reached opened
    next : {w w' : MainWindow F} (e : Event F) → Reached w → step e w ≡ ok w' → Reached w'

  -- However the slots are called, as long as none fails: the plots that are listed are the signals of the
  -- charts, in the same order, every chart has the size and the tick counts that the axes ask for, and
  -- there is at least one tick on the y axis, a width of 1 for a second and a height of 5.
  pub Reached-IsConsistent : {w : MainWindow F} → Reached w → IsConsistent w
  Reached-IsConsistent start = opened-IsConsistent
  Reached-IsConsistent (next {w} {w'} e r h) =
      let known : Ensures IsConsistent (ok w') =
        rw (sym h) (step-IsConsistent e w (Reached-IsConsistent r)) in
      value_of_Ensures known
