-- ===== src/Tests/Windows.antt =====
-- Graphs, the search in a chart, and the window.
use can_tracer.Prelude.{
  ◌||◌, ℕ, ◌≡◌, refl, true, false, List, [], ◌∷◌, arith, none, some, ◌==◌, if◌then◌else◌,
}
use can_tracer.Prelude.Int.{ltb_ℤ, ℤ, pos, negsuc}
use can_tracer.Prelude.Outcome.{ok, ◌>>=◌}
use can_tracer.Qt.{codes, Double}
use can_tracer.Can.{CanLogMsg, CanSignal, CanDb, rx}
use can_tracer.Graph.{Point, get_signal_graph, drawn}
use can_tracer.Graph.Samples.{graph_of, get_signal_graph-samples}
use can_tracer.Graph.Drawn.{EqCompares, changes, slopes, last_point, changes-drawn}
use can_tracer.Chart.{start_search_index}
use can_tracer.Chart.Search.{lower_bound}
use can_tracer.Chart.Ordered.{KeepsOrder, IsOrdered, start_search_index-drawn}
use can_tracer.Window.Step.{Event, step}
use can_tracer.Window.{
  MainWindow, opened, on_add_y_tick, on_rem_y_tick, on_zoom_in_x, on_zoom_out_x, on_zoom_in_y,
  on_zoom_out_y,
}
use can_tracer.Window.Reach.{Reached, start, next, Reached-IsConsistent}
use can_tracer.Window.Undo.{undone}
use can_tracer.Tests.Concrete.{Number, whole_numbers, eq_ℤ}

instance numbers : Double Number
numbers = whole_numbers

abbrev whole : ℕ → Number
whole n = some (pos n)

abbrev signal : CanSignal Number
signal = record {
  start_bit = 0;
  len = 8;
  is_big_endian = false;
  is_signed = false;
  scale = whole 1;
  offset = whole 0;
  min = whole 0;
  max = whole 0;
  name = codes "Level";
  unit = [];
  receiver = [];
  values = [];
}

abbrev entry : ℕ → ℕ → ℕ → CanLogMsg Number
entry time id value = record {
  number = 0;
  id = id;
  time = whole time;
  channel = 0;
  dlc = 8;
  dir = rx;
  bytes = value ∷ 0 ∷ 0 ∷ 0 ∷ 0 ∷ 0 ∷ 0 ∷ 0 ∷ [];
}

abbrev log : List (CanLogMsg Number)
log = entry 1 9 0 ∷ entry 2 5 7 ∷ entry 3 5 7 ∷ entry 4 5 7 ∷ entry 6 9 0 ∷ []

get_signal_graph-samples_example : get_signal_graph signal 5 0 log ≡ graph_of signal 5 0 log
get_signal_graph-samples_example = get_signal_graph-samples signal 5 0 log

abbrev points : List (Point Number)
points =
    (whole 1, whole 7)
    ∷ (whole 2, whole 7)
    ∷ (whole 3, whole 7)
    ∷ (whole 4, whole 7)
    ∷ (whole 6, whole 7)
    ∷ []

graph_points : get_signal_graph signal 5 0 log ≡ ok points
unfolding get_signal_graph can_tracer.Graph.sweep can_tracer.Graph.sweep_hit
    can_tracer.Signal.parse_signal can_tracer.Signal.parse_value can_tracer.Signal.gather
    can_tracer.Signal.cut can_tracer.Signal.raw_of can_tracer.Signal.shift_int
    can_tracer.Signal.with_sign can_tracer.Graph.finish numbers can_tracer.Tests.Concrete.add_ℤ
graph_points = refl

eq_of_eq_ℤ : (a b c : ℤ) → eq_ℤ a b ≡ true → eq_ℤ c a ≡ eq_ℤ c b
eq_of_eq_ℤ a b c e = ground arith

eq_ℤ_comm : (a b : ℤ) → eq_ℤ a b ≡ eq_ℤ b a
eq_ℤ_comm (pos a) (pos b) = ground arith
eq_ℤ_comm (pos a) (negsuc b) = refl
eq_ℤ_comm (negsuc a) (pos b) = refl
eq_ℤ_comm (negsuc a) (negsuc b) = ground arith

numbers_alike : (a b c : Number) → numbers.eq a b ≡ true → numbers.eq c a ≡ numbers.eq c b
unfolding numbers
numbers_alike none b c e = ground arith
numbers_alike (some a) none c e = ground arith
numbers_alike (some a) (some b) none e = refl
numbers_alike (some a) (some b) (some c) e = eq_of_eq_ℤ a b c e

numbers_symmetric : (a b : Number) → numbers.eq a b ≡ numbers.eq b a
unfolding numbers
numbers_symmetric none none = refl
numbers_symmetric none (some b) = refl
numbers_symmetric (some a) none = refl
numbers_symmetric (some a) (some b) = eq_ℤ_comm a b

numbers-EqCompares : EqCompares Number numbers
numbers-EqCompares = record { symmetric = numbers_symmetric; alike = numbers_alike }

changes-drawn_example :
    (changes (drawn points) ≡ changes points)
    × (last_point (drawn points) ≡ last_point points)
    × (slopes (drawn points) ≡ slopes points)
changes-drawn_example = changes-drawn numbers-EqCompares points

abbrev series : List (Point Number)
series = (whole 1, whole 7) ∷ (whole 6, whole 7) ∷ []

drawn_points : drawn points ≡ series
unfolding drawn can_tracer.Graph.draw_rest numbers
drawn_points = refl

lt_of_at_most : (a b x : ℤ) → ltb_ℤ a b || eq_ℤ a b ≡ true → ltb_ℤ b x ≡ true → ltb_ℤ a x ≡ true
lt_of_at_most a b x le lt = ground arith

numbers-KeepsOrder : KeepsOrder (whole 4)
unfolding numbers
numbers-KeepsOrder none b le lt = ground arith
numbers-KeepsOrder (some a) none le lt = ground arith
numbers-KeepsOrder (some a) (some b) le lt = lt_of_at_most a b (pos 4) le lt

log-IsOrdered : IsOrdered log
unfolding numbers
log-IsOrdered = (
  (refl, (refl, (refl, (refl, tt)))),
  ((refl, (refl, (refl, tt))), ((refl, (refl, tt)), ((refl, tt), (tt, tt)))),
)

start_search_index-drawn_example :
    start_search_index (drawn points) (whole 4)
    ≡ ok (
        if lower_bound (whole 4) (drawn points) == 0
        then negsuc 0
        else pos (lower_bound (whole 4) (drawn points)))
start_search_index-drawn_example =
    start_search_index-drawn (whole 4) signal 5 0 log numbers-KeepsOrder log-IsOrdered graph_points

left_points : lower_bound (whole 4) (drawn points) ≡ 1
unfolding drawn can_tracer.Graph.draw_rest numbers
left_points = refl

abbrev db : CanDb Number
db =
    record {
      id = 5;
      dlc = 8;
      name = [];
      sender = [];
      can_signals = signal ∷ [];
      color = record { is_valid = true; red = 0; green = 0; blue = 0; alpha = 0 };
    }
    ∷ []

-- A log and a database are loaded, and the signal is added.
abbrev loaded : MainWindow Number
loaded = record {
  msg_db = db;
  log = log;
  items = [];
  widgets = [];
  msg_index = negsuc 0;
  highlighted = record { row_list = λ row. false; id_list = λ id. false };
  filters = [];
  time = whole 5;
  min_chart_size = 150;
  y_tick = 5;
  tick_per_sec = whole 0;
  width_per_sec = 10;
}

abbrev charted : MainWindow Number
charted = record loaded {
  items = record { msg_id = 5; signal = signal } ∷ [];
  widgets =
      record {
        signal = signal;
        series = series;
        min_width = pos 50;
        min_height = 150;
        x_tick_count = pos 0;
        y_tick_count = 5;
      }
      ∷ [];
}

abbrev add : Event Number
add = Event.add_signal 0 (some 0, some 0)

loaded-Reached : Reached loaded
unfolding step can_tracer.Window.on_load_dbc_file can_tracer.Window.on_load_log_file
    can_tracer.Window.reset can_tracer.LogModel.log_changed numbers can_tracer.Tests.Concrete.sub_ℤ
    opened
loaded-Reached = next (Event.load_dbc db) (next (Event.load_log log) start refl) refl

added : step add loaded ≡ ok charted
unfolding step can_tracer.Window.on_add_signal get_signal_graph can_tracer.Graph.sweep
    can_tracer.Graph.sweep_hit can_tracer.Signal.parse_signal can_tracer.Signal.parse_value
    can_tracer.Signal.gather can_tracer.Signal.cut can_tracer.Signal.raw_of
    can_tracer.Signal.shift_int can_tracer.Signal.with_sign can_tracer.Window.add_item drawn numbers
    can_tracer.Graph.finish can_tracer.Tests.Concrete.add_ℤ can_tracer.Graph.draw_rest
added = refl

charted-Reached : Reached charted
charted-Reached = next add loaded-Reached added

undone_example :
    ((on_add_y_tick charted >>= on_rem_y_tick) ≡ ok charted)
    × ((on_zoom_in_x charted >>= on_zoom_out_x) ≡ ok charted)
    × ((on_zoom_in_y charted >>= on_zoom_out_y) ≡ ok charted)
undone_example = undone charted (Reached-IsConsistent charted-Reached)
