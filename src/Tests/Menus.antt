-- ===== src/Tests/Menus.antt =====
-- Menus, headers, cells and the mouse over a chart.
use can_tracer.Prelude.{
  ℕ, zero, suc, ◌<◌, ◌≡◌, ◌≢◌, refl, ap, Option, ◌&&◌, ◌||◌, true, false, not, none, some, List, [],
  ◌∷◌, ◌++◌, arith, get_elem?, ◌==◌, if◌then◌else◌, All,
}
use can_tracer.Prelude.Int.{pos, negsuc, ◌+ℤ◌}
use can_tracer.Prelude.Outcome.{Outcome, fault, ok_of_failure, ok, bad_access, failure, ◌>>=◌}
use can_tracer.Qt.{QString, codes, str_eq, Double}
use can_tracer.Qt.Variant.{text, horizontal}
use can_tracer.Can.{CanSignal}
use can_tracer.Can.Logged.{IsData}
use can_tracer.LogModel.{Format, entry}
use can_tracer.Graph.{Point}
use can_tracer.Chart.{Pointer, point_label, mouse_move_event, leave_event}
use can_tracer.Chart.Search.{Ascends}
use can_tracer.Chart.Mouse.{mouse_move_event_lem}
use can_tracer.Filter.Rows.{passes, others_accept}
use can_tracer.MsgModel.{display_role, signal_rows}
use can_tracer.SignalModel.{signal_data, signal_header}
use can_tracer.SignalModel.Cells.{row_of, cell_in, title_in, signal_data-row_of}
use can_tracer.Window.{MainWindow}
use can_tracer.Window.Step.{step}
use can_tracer.Window.Axes.{IsConsistent}
use can_tracer.Menus.{
  MenuAction, msg_entry, id_entry, slot_of, on_signal_plot_menu, on_header_context_menu,
}
use can_tracer.Menus.Toggled.{log_menu, menu_at, on_context_menu-toggled}
use can_tracer.Menus.Offered.{
  to_text, IsSafe, IsRead, cell_data, cell_data_total, is_shown, on_signal_plot_menu-IsSafe,
  on_header_context_menu-shown,
}
use can_tracer.Delegate.{Rect, painted}
use can_tracer.Delegate.Tiles.{Touches, moved, move_and_widening, painted-Touches}
use can_tracer.Tests.Concrete.{Number, whole_numbers}
use can_tracer.Tests.Dialogs.{a_signal, a_message, entry_at, db, window}

instance numbers : Double Number
numbers = whole_numbers

abbrev format : Format Number
format = record {
  integer = λ n. n ∷ [];
  decimals = λ x. [];
  general = λ x. [];
  hex_byte = λ b. b ∷ [];
  hex_id = λ n width. n ∷ [];
}

abbrev join : QString → QString → QString
join pattern value = pattern ++ value

on_context_menu-toggled_example :
    (menu_at 0 0 window ≡ ok (log_menu (entry 0 0) false false))
    × ((step (slot_of 0 (none, none) (msg_entry (entry 0 0) false).1) window >>= menu_at 2 3)
        ≡ ok (log_menu (entry 2 3) (if 2 == 0 then not false else false) false))
    × ((step (slot_of 0 (none, none) (id_entry (entry 0 0) false).1) window >>= menu_at 2 3)
        ≡ ok (log_menu (entry 2 3) false (if 24 == 24 then not false else false)))
on_context_menu-toggled_example =
    on_context_menu-toggled 0 (none, none) 0 0 2 3 (entry_at 24) (entry_at 24) window refl refl

-- The window with one plot.
abbrev plotted : MainWindow Number
plotted = record window {
  items = record { msg_id = 24; signal = a_signal (codes "Rate") } ∷ [];
  widgets =
      record {
        signal = a_signal (codes "Rate");
        series = [];
        min_width = pos 50;
        min_height = 150;
        x_tick_count = pos 0;
        y_tick_count = 5;
      }
      ∷ [];
}

plotted-IsConsistent : IsConsistent plotted
unfolding numbers
plotted-IsConsistent = record {
  paired = refl;
  shown = (refl, tt);
  some_y_tick = omega arith;
  some_width = omega arith;
  some_height = omega arith;
  stepped = omega arith;
}

on_signal_plot_menu-IsSafe_example :
    All
      (λ (item : QString × MenuAction). IsSafe plotted item.1)
      (on_signal_plot_menu (some 0) plotted)
    × (db ≡ [] → on_signal_plot_menu (some 0) plotted ≡ [])
on_signal_plot_menu-IsSafe_example =
    on_signal_plot_menu-IsSafe (some 0) plotted plotted-IsConsistent (omega arith)

entry-IsData : IsData ((entry_at 24).bytes)
entry-IsData = record {
  size = refl;
  bytes = (
    omega arith,
    (
      omega arith,
      (omega arith, (omega arith, (omega arith, (omega arith, (omega arith, (omega arith, tt)))))),
    ),
  );
}

abbrev shown_text : Outcome (Option QString) → QString
shown_text (ok shown) = to_text shown
shown_text (fault x) = codes "?"

abbrev cells : ℕ → ℕ → QString
cells row column = shown_text (cell_data format window row column)

cells-IsRead : IsRead format cells window 0
cells-IsRead column =
    let (shown, run) =
      ok_of_failure (cell_data format window 0 column)
        (cell_data_total format 0 column (entry_at 24) window refl entry-IsData (omega arith)) in
    (shown, run, ap shown_text run)

on_header_context_menu-shown_example :
    (is_shown format str_eq cells 0 (on_header_context_menu (pos 5) (some (codes "Tank")) window).1
      ≡ (passes str_eq cells (codes "Tank") 0 5 && others_accept str_eq cells 5 0 window.filters))
    × (codes "Tank" ≢ []
        → str_eq (codes "Tank") [] ≡ false
        → is_shown format str_eq cells 0
            (on_header_context_menu (negsuc 0) (some (codes "Tank")) window).1
          ≡ false)
    × ((on_header_context_menu (pos 5) none window).1 ≡ window)
on_header_context_menu-shown_example =
    on_header_context_menu-shown format str_eq cells 0 5 (codes "Tank") window cells-IsRead
      (omega arith)

abbrev tank : CanSignal Number
tank = a_signal (codes "Rate")

signal_data-row_of_example :
    (signal_rows db (pos 1) ≡ ok 2)
    × (signal : CanSignal Number) × (get_elem? (a_signal (codes "Level") ∷ tank ∷ []) 1
        ≡ some signal)
    × (signal_data format join (λ t. t) db (pos 1) display_role (some 1) 3
        ≡ ok (
            text (cell_in format join (λ t. t) (get_elem? (row_of format join (λ t. t) signal) 3))))
    × (signal_header (pos 3) horizontal display_role
        ≡ ok (title_in format join (λ t. t) (get_elem? (row_of format join (λ t. t) signal) 3)))
signal_data-row_of_example =
    signal_data-row_of format join (λ t. t) db 1
      (a_message 24 (codes "Tank") (a_signal (codes "Level") ∷ tank ∷ [])) 1 3 refl (omega arith)

abbrev series : List (Point Number)
series = (some (pos 1), some (pos 7)) ∷ (some (pos 6), some (pos 9)) ∷ []

series-Ascends : Ascends (some (pos 4)) series
unfolding numbers
series-Ascends zero j le e = refl
series-Ascends (suc i) zero le e = ground arith
series-Ascends (suc i) (suc zero) le e = ground arith
series-Ascends (suc i) (suc (suc j)) le e = ground arith

abbrev away : Pointer Number
away = record { index = negsuc 0; prev_index = negsuc 0; line = none }

mouse_move_event_lem_example :
    (failure (mouse_move_event join (λ x. []) tank [] series true none (some (pos 4)) away)
      ≡ (if 1 == 0 || 1 == 2 then some bad_access else none))
    × ((point : Point Number)
        → 0 < 1
        → get_elem? series 1 ≡ some point
        → mouse_move_event join (λ x. []) tank [] series true none (some (pos 4)) away
          ≡ ok (
            record { index = pos 1; prev_index = pos 1; line = some none },
            some (point_label join (λ x. []) tank [] (some (pos 4)) point),
          ))
    × (mouse_move_event join (λ x. []) tank [] series false none (some (pos 4)) away
        ≡ ok (away, none))
    × (leave_event away ≡ record { index = negsuc 0; prev_index = negsuc 0; line = none })
unfolding numbers
mouse_move_event_lem_example =
    mouse_move_event_lem join (λ x. []) tank [] none (some (pos 4)) series away series-Ascends

abbrev cell_rect : ℕ → ℕ → Rect
cell_rect x width = record { x = pos x; y = pos 20; width = pos width; height = pos 10 }

painted-Touches_example :
    (painted true 2 (cell_rect 0 60) ≡ moved (move_and_widening 2) (cell_rect 0 60))
    × Touches (painted true 2 (cell_rect 0 60)) (painted true 3 (cell_rect 60 40))
    × (painted false 2 (cell_rect 0 60) ≡ cell_rect 0 60)
unfolding ◌+ℤ◌
painted-Touches_example = painted-Touches 2 (cell_rect 0 60) (cell_rect 60 40) refl
