-- ===== src/Graph.antt =====
-- src/canmsg.cpp, CanSignal::getSignalGraph, and the points of it that src/mainwindow.cpp draws.
pub mod Samples
pub mod Drawn
use can_tracer.Prelude.{
  ℕ, Bool, true, false, not, ◌||◌, ◌&&◌, List, [], ◌∷◌, ◌++◌, length, ltb, ◌==◌, if◌then◌else◌,
}
use can_tracer.Prelude.Int.{pos}
use can_tracer.Prelude.Outcome.{Outcome, ok, fault, out_of_range, ◌>>=◌}
use can_tracer.Qt.{Double}
use can_tracer.Can.{CanLogMsg, CanSignal}
use can_tracer.Signal.{parse_signal}

-- A QPair<double, double>: the time and the value.
abbrev pub Point : Type 0 → Type 0
Point F = F × F

-- The local variables of the loop.
pub record Sweep (F : Type 0) : Type 0 where
  pub points : List (Point F)
  pub last_time : F
  pub last_value : F
  pub is_first : Bool

module _ {F : Type 0} ⦃d : Double F⦄ (signal : CanSignal F) (id : ℕ) where
  -- What a round of the loop leaves for a message with the id, whose value is `value`.
  abbrev pub after_hit : F → Sweep F → CanLogMsg F → F → Sweep F
  after_hit first_time s msg value = record {
    points =
        (if s.is_first then s.points ++ ((first_time, value) ∷ []) else s.points)
        ++ ((msg.time, value) ∷ []);
    last_time = msg.time;
    last_value = value;
    is_first = false;
  }

  unfoldable pub sweep_hit : F → Sweep F → CanLogMsg F → Outcome (Sweep F)
  sweep_hit first_time s msg =
      parse_signal signal msg.bytes msg.dlc >>= λ value. ok (after_hit first_time s msg value)

  unfoldable pub sweep : F → Sweep F → List (CanLogMsg F) → Outcome (Sweep F)
  sweep first_time s [] = ok s
  sweep first_time s (msg ∷ log) = do
    s' ← if msg.id == id then sweep_hit first_time s msg else ok (record s { last_time = msg.time })
    sweep first_time s' log

  abbrev pub start : CanLogMsg F → Sweep F
  start first = record {
    points = [];
    last_time = first.time;
    last_value = d.of_int (pos 0);
    is_first = true;
  }

  -- `past_end` is what `log.end()->id` reads: the memory behind the last message.
  unfoldable pub finish : ℕ → Sweep F → List (Point F)
  finish past_end s =
      if not (past_end == id) then s.points ++ ((s.last_time, s.last_value) ∷ []) else s.points

  -- The first time is read before the log is known to have a message.
  unfoldable pub get_signal_graph : ℕ → List (CanLogMsg F) → Outcome (List (Point F))
  get_signal_graph past_end [] = fault out_of_range
  get_signal_graph past_end (first ∷ rest) = do
    s ← sweep first.time (start first) (first ∷ rest)
    ok (finish past_end s)

-- MainWindow::onAddSignal: of three points or more those are drawn that differ in value from one of
-- their neighbours, and the two at the ends.
module _ {F : Type 0} ⦃d : Double F⦄ where
  abbrev pub differs : Point F → Point F → Bool
  differs p q = not (d.eq p.1 q.1)

  -- The loop from the point behind `prev` on, and the last point.
  unfoldable pub draw_rest : Point F → List (Point F) → List (Point F)
  draw_rest prev [] = []
  draw_rest prev (p ∷ []) = p ∷ []
  draw_rest prev (p ∷ q ∷ ps) =
      let rest = draw_rest p (q ∷ ps) in if differs p prev || differs p q then p ∷ rest else rest

  unfoldable pub drawn : List (Point F) → List (Point F)
  drawn [] = []
  drawn (p ∷ ps) = if ltb (length (p ∷ ps)) 3 then p ∷ ps else p ∷ draw_rest p ps
