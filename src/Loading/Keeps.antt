-- ===== src/Loading/Keeps.antt =====
-- The slots that the user calls keep the log and the messages.
use can_tracer.Prelude.{
  ℕ, zero, suc, ◌<◌, ◌+◌, ◌-◌, if◌then◌else◌, ◌≡◌, refl, ap, Bool, true, false, none, some, List,
  [], ◌∷◌, map, length, Option-cases, inl, inr, ltb, get_elem?,
}
use can_tracer.Prelude.Int.{ℤ, pos, negsuc}
use can_tracer.Graph.{get_signal_graph}
use can_tracer.LogModel.{set_highlight_id}
use can_tracer.Prelude.Outcome.{
  out_of_range, bad_access, or_fault, Ensures, ensured, failed, Ensures-any,
}
use can_tracer.Qt.{QColor, Double}
use can_tracer.Can.{CanMessage, CanDb, modify, find_message_mut, set_color}
use can_tracer.MsgModel.{set_data}
use can_tracer.Window.{
  MainWindow, update_chart_axis, on_add_x_tick, on_rem_x_tick, on_add_y_tick, on_rem_y_tick,
  on_zoom_in_x, on_zoom_out_x, on_zoom_in_y, on_zoom_out_y, on_reset_all_axis, on_msg_select,
  on_add_signal, on_remove_signal, on_highlight_msg, on_highlight_id, on_filter, on_edit_color,
  remove_item, add_item, tick_per_sec_step,
}
use can_tracer.Window.Step.{Event, step}
use can_tracer.Loading.Reach.{IsClick}

abbrev no_color : QColor
no_color = record { is_valid = true; red = 0; green = 0; blue = 0; alpha = 0 }

-- No message is selected, or one that the database has.
abbrev pub IsSelection : ℤ → ℕ → Type 0
IsSelection (negsuc n) size = Unit
IsSelection (pos row) size = row < size

length-modify : {A : Type 0} (i : ℕ) (f : A → A) (xs : List A) → length (modify i f xs) ≡ length xs
length-modify i f [] = refl
length-modify zero f (x ∷ xs) = refl
length-modify (suc i) f (x ∷ xs) = ap suc (length-modify i f xs)

module _ {F : Type 0} where
  -- The messages of a database but for their colors, which the user can edit.
  abbrev pub uncolored : CanDb F → CanDb F
  uncolored db = map (λ (m : CanMessage F). record m { color = no_color }) db

  modify-uncolored :
      (i : ℕ) (color : QColor) (db : CanDb F)
      → uncolored (modify i (λ m. record m { color = color }) db) ≡ uncolored db
  modify-uncolored i color [] = refl
  modify-uncolored zero color (m ∷ ms) = refl
  modify-uncolored (suc i) color (m ∷ ms) =
      ap (λ rest. record m { color = no_color } ∷ rest) (modify-uncolored i color ms)

  set_color-uncolored :
      (db : CanDb F) (id : ℕ) (color : QColor) → uncolored (set_color db id color) ≡ uncolored db
  unfolding set_color
  set_color-uncolored db id color = elim (Option-cases (find_message_mut db id)) [
    | inl e ↦ rw (e, set_color) refl
    | inr (i, e) ↦ rw (e, set_color) (modify-uncolored i color db)
  ]

  -- The two windows show the same log, and the same messages but for their colors.
  pub record Keeps (w w' : MainWindow F) : Type 0 where
    pub log : w'.log ≡ w.log
    pub msg_db : uncolored w'.msg_db ≡ uncolored w.msg_db
    pub selected :
        IsSelection w.msg_index (length w.msg_db) → IsSelection w'.msg_index (length w'.msg_db)

  abbrev Keeps_self : (w : MainWindow F) → Keeps w w
  Keeps_self w = record { log = refl; msg_db = refl; selected = λ h. h }

  set_color-length :
      (db : CanDb F) (id : ℕ) (color : QColor) → length (set_color db id color) ≡ length db
  unfolding set_color
  set_color-length db id color = elim (Option-cases (find_message_mut db id)) [
    | inl e ↦ rw (e, set_color) refl
    | inr (i, e) ↦ rw (e, set_color) (length-modify i (λ m. record m { color = color }) db)
  ]

module _ {F : Type 0} ⦃d : Double F⦄ where
  update_chart_axis-Keeps :
      (w u : MainWindow F) → Keeps w u → Ensures (Keeps w) (update_chart_axis u)
  unfolding update_chart_axis
  update_chart_axis-Keeps w u h =
      Ensures-any _
        (λ views. ensured (record { log = h.log; msg_db = h.msg_db; selected = h.selected }))

  guarded-Keeps :
      (c : Bool) (w u : MainWindow F)
      → Keeps w u
      → Ensures (Keeps w) (update_chart_axis (if c then u else w))
  guarded-Keeps true w u h = update_chart_axis-Keeps w u h
  guarded-Keeps false w u h = update_chart_axis-Keeps w w (Keeps_self w)

  -- Of the slots, only those of the futures change the log, and only those and the editor of colors the
  -- database.
  pub step-Keeps : (e : Event F) (w : MainWindow F) → IsClick w e → Ensures (Keeps w) (step e w)
  unfolding step on_msg_select on_remove_signal on_highlight_msg on_highlight_id on_filter
      on_edit_color on_add_signal add_item remove_item set_data on_add_x_tick on_rem_x_tick
      on_add_y_tick on_rem_y_tick on_zoom_in_x on_zoom_out_x on_zoom_in_y on_zoom_out_y
      on_reset_all_axis
  step-Keeps (Event.load_log result) w c = elim c [ ]
  step-Keeps (Event.load_dbc result) w c = elim c [ ]
  step-Keeps (Event.msg_select none) w c = ensured (Keeps_self w)
  step-Keeps (Event.msg_select (some row)) w c =
      ensured (record { log = refl; msg_db = refl; selected = λ h. c })
  step-Keeps (Event.add_signal past_end (i, j)) w c = Ensures-any (or_fault out_of_range i) (λ row.
      Ensures-any (or_fault out_of_range (get_elem? w.msg_db row)) (λ msg.
        Ensures-any (or_fault out_of_range j) (λ col.
          Ensures-any (or_fault out_of_range (get_elem? msg.can_signals col)) (λ signal.
            Ensures-any (get_signal_graph signal msg.id past_end w.log)
              (λ points. ensured (record { log = refl; msg_db = refl; selected = λ h. h }))))))
  step-Keeps (Event.remove_signal none) w c = ensured (Keeps_self w)
  step-Keeps (Event.remove_signal (some row)) w c =
      Ensures-any (or_fault bad_access (get_elem? w.items row)) (λ item.
        Ensures-any (or_fault bad_access (get_elem? w.widgets row))
          (λ widget. ensured (record { log = refl; msg_db = refl; selected = λ h. h })))
  step-Keeps (Event.highlight_msg index status) w c =
      ensured (record { log = refl; msg_db = refl; selected = λ h. h })
  step-Keeps (Event.highlight_id index status) w c =
      Ensures-any (set_highlight_id w.log index status w.highlighted)
        (λ h. ensured (record { log = refl; msg_db = refl; selected = λ h. h }))
  step-Keeps (Event.filter column expression) w c =
      ensured (record { log = refl; msg_db = refl; selected = λ h. h })
  step-Keeps (Event.edit_color none value) w c = ensured (Keeps_self w)
  step-Keeps (Event.edit_color (some row) value) w c =
      elim (Option-cases (get_elem? w.msg_db row)) [
        | inl e ↦ rw e failed
        | inr (msg, e) ↦ rw e (
            ensured (record {
              log = refl;
              msg_db = set_color-uncolored w.msg_db msg.id value;
              selected = λ h. rw (set_color-length w.msg_db msg.id value) h;
            }))
      ]
  step-Keeps Event.add_x_tick w c =
      update_chart_axis-Keeps w (record w { tick_per_sec = d.add w.tick_per_sec tick_per_sec_step })
        (record { log = refl; msg_db = refl; selected = λ h. h })
  step-Keeps Event.add_y_tick w c =
      update_chart_axis-Keeps w (record w { y_tick = w.y_tick + 1 })
        (record { log = refl; msg_db = refl; selected = λ h. h })
  step-Keeps Event.rem_x_tick w c =
      guarded-Keeps (d.lt tick_per_sec_step w.tick_per_sec) w
        (record w { tick_per_sec = d.sub w.tick_per_sec tick_per_sec_step })
        (record { log = refl; msg_db = refl; selected = λ h. h })
  step-Keeps Event.rem_y_tick w c =
      guarded-Keeps (ltb 1 w.y_tick) w (record w { y_tick = w.y_tick - 1 })
        (record { log = refl; msg_db = refl; selected = λ h. h })
  step-Keeps Event.zoom_in_x w c =
      update_chart_axis-Keeps w (record w { width_per_sec = w.width_per_sec + 1 })
        (record { log = refl; msg_db = refl; selected = λ h. h })
  step-Keeps Event.zoom_in_y w c =
      update_chart_axis-Keeps w (record w { min_chart_size = w.min_chart_size + 5 })
        (record { log = refl; msg_db = refl; selected = λ h. h })
  step-Keeps Event.zoom_out_x w c =
      guarded-Keeps (ltb 1 w.width_per_sec) w (record w { width_per_sec = w.width_per_sec - 1 })
        (record { log = refl; msg_db = refl; selected = λ h. h })
  step-Keeps Event.zoom_out_y w c =
      guarded-Keeps (ltb 5 w.min_chart_size) w (record w { min_chart_size = w.min_chart_size - 5 })
        (record { log = refl; msg_db = refl; selected = λ h. h })
  step-Keeps Event.reset_all_axis w c =
      update_chart_axis-Keeps w _ (record { log = refl; msg_db = refl; selected = λ h. h })
