-- ===== src/Graph/Samples.antt =====
-- What getSignalGraph returns, by the samples of the signal in the log.
use mathlib.Core.List.{append_assoc, append-nil}
use can_tracer.Prelude.{
  ℕ, ◌≡◌, refl, sym, ap, ◌∙◌, Bool, true, false, not, List, [], ◌∷◌, ◌++◌, ◌==◌, if◌then◌else◌,
  Bool-cases, inl, inr,
}
use can_tracer.Prelude.Int.{pos}
use can_tracer.Prelude.Outcome.{Outcome, ok, fault, out_of_range, ◌>>=◌}
use can_tracer.Qt.{Double}
use can_tracer.Can.{CanLogMsg, CanSignal}
use can_tracer.Signal.{parse_signal}
use can_tracer.Graph.{Point, Sweep, after_hit, start, finish, sweep_hit, sweep, get_signal_graph}

module _ {F : Type 0} where
  -- The first sample is also put at the time of the first message.
  abbrev pub lead : F → List (Point F) → List (Point F)
  lead time [] = []
  lead time (p ∷ ps) = (time, p.1) ∷ []

  abbrev pub last_value : F → List (Point F) → F
  last_value v [] = v
  last_value v (p ∷ ps) = last_value p.1 ps

  abbrev pub last_time : F → List (CanLogMsg F) → F
  last_time t [] = t
  last_time t (m ∷ ms) = last_time m.time ms

module _ {F : Type 0} ⦃d : Double F⦄ (signal : CanSignal F) (id : ℕ) where
  -- The time and the value of each message with the id, in order.
  abbrev pub samples : List (CanLogMsg F) → Outcome (List (Point F))
  samples [] = ok []
  samples (m ∷ ms) =
      if m.id == id
      then (parse_signal signal m.bytes m.dlc >>= λ v. samples ms >>= λ ps. ok ((m.time, v) ∷ ps))
      else samples ms

  abbrev lead_if : Bool → F → List (Point F) → List (Point F)
  lead_if true time ps = lead time ps
  lead_if false time ps = []

  abbrev still_first : Bool → List (Point F) → Bool
  still_first b [] = b
  still_first b (p ∷ ps) = false

  abbrev result : F → Sweep F → List (CanLogMsg F) → List (Point F) → Sweep F
  result time s log ps = record {
    points = s.points ++ (lead_if s.is_first time ps ++ ps);
    last_time = last_time s.last_time log;
    last_value = last_value s.last_value ps;
    is_first = still_first s.is_first ps;
  }

  still_first-false : (ps : List (Point F)) → still_first false ps ≡ false
  still_first-false [] = refl
  still_first-false (p ∷ ps) = refl

  points_of_hit :
      (time : F) (m : CanLogMsg F) (v : F) (b : Bool) (qs ps : List (Point F))
      → ((if b then qs ++ ((time, v) ∷ []) else qs) ++ ((m.time, v) ∷ [])) ++ ([] ++ ps)
        ≡ qs ++ (lead_if b time ((m.time, v) ∷ ps) ++ ((m.time, v) ∷ ps))
  points_of_hit time m v true qs ps = simp (append_assoc)
  points_of_hit time m v false qs ps = simp (append_assoc)

  result_of_hit :
      (time : F) (log : List (CanLogMsg F)) (m : CanLogMsg F) (v : F) (s : Sweep F)
      (ps : List (Point F))
      → result time (after_hit signal id time s m v) log ps
        ≡ result time s (m ∷ log) ((m.time, v) ∷ ps)
  result_of_hit time log m v s ps i = record {
    points = points_of_hit time m v s.is_first s.points ps i;
    last_time = last_time m.time log;
    last_value = last_value v ps;
    is_first = still_first-false ps i;
  }

  open-hit :
      (time : F) (log : List (CanLogMsg F)) (m : CanLogMsg F) (v : F) (s : Sweep F)
      (o : Outcome (List (Point F)))
      → (o >>= λ ps. ok (result time (after_hit signal id time s m v) log ps))
        ≡ ((o >>= λ ps. ok ((m.time, v) ∷ ps)) >>= λ ps. ok (result time s (m ∷ log) ps))
  open-hit time log m v s (ok ps) = ap ok (result_of_hit time log m v s ps)
  open-hit time log m v s (fault e) = refl

  no_points : (time : F) (b : Bool) (qs : List (Point F)) → qs ++ (lead_if b time [] ++ []) ≡ qs
  no_points time true qs = append-nil qs
  no_points time false qs = append-nil qs

  hit_case :
      (time : F) (m : CanLogMsg F) (ms : List (CanLogMsg F)) (s : Sweep F) (o : Outcome F)
      → ((s' : Sweep F)
          → sweep signal id time s' ms ≡ (samples ms >>= λ ps. ok (result time s' ms ps)))
      → ((o >>= λ v. ok (after_hit signal id time s m v)) >>= λ s'. sweep signal id time s' ms) ≡ (
          (o >>= λ v. samples ms >>= λ ps. ok ((m.time, v) ∷ ps)) >>= λ ps.
          ok (result time s (m ∷ ms) ps))
  hit_case time m ms s (fault e) ih = refl
  hit_case time m ms s (ok v) ih =
      ih (after_hit signal id time s m v) ∙ open-hit time ms m v s (samples ms)

  sweep-samples :
      (time : F) (log : List (CanLogMsg F)) (s : Sweep F)
      → sweep signal id time s log ≡ (samples log >>= λ ps. ok (result time s log ps))
  unfolding sweep sweep_hit
  sweep-samples time [] s =
      ap (λ qs. ok (record s { points = qs })) (sym (no_points time s.is_first s.points))
  sweep-samples time (m ∷ ms) s = elim (Bool-cases (m.id == id)) [
    | inl hit ↦
        rw hit (hit_case time m ms s (parse_signal signal m.bytes m.dlc) (sweep-samples time ms))
    | inr miss ↦ rw miss (sweep-samples time ms (record s { last_time = m.time }))
  ]

  -- The time and the value of the point at the end of the graph.
  abbrev pub closing : ℕ → CanLogMsg F → List (CanLogMsg F) → List (Point F) → List (Point F)
  closing past_end first rest ps =
      if not (past_end == id)
      then ((last_time first.time rest, last_value (d.of_int (pos 0)) ps) ∷ [])
      else []

  abbrev pub graph_of : ℕ → List (CanLogMsg F) → Outcome (List (Point F))
  graph_of past_end [] = fault out_of_range
  graph_of past_end (first ∷ rest) = samples (first ∷ rest) >>= λ ps.
      ok (lead first.time ps ++ (ps ++ closing past_end first rest ps))

  close :
      (past_end : ℕ) (first : CanLogMsg F) (rest : List (CanLogMsg F))
      (o : Outcome (List (Point F)))
      → ((o >>= λ ps. ok (result first.time (start signal id first) (first ∷ rest) ps)) >>= λ s.
          ok (finish signal id past_end s))
        ≡ (o >>= λ ps. ok (lead first.time ps ++ (ps ++ closing past_end first rest ps)))
  unfolding finish
  close past_end first rest (fault e) = refl
  close past_end first rest (ok ps) = elim (Bool-cases (past_end == id)) [
    | inl e ↦ rw e (simp (append-nil))
    | inr e ↦ rw e (simp (append_assoc))
  ]

  -- On a log with a message, getSignalGraph gives the samples of the signal in the messages with the
  -- id, in order, with the value of the first sample at the time of the first message before them and
  -- the value of the last sample (0 without samples) at the time of the last message behind them, the
  -- latter only if the id that is read behind the end of the log is another one. It fails as the first
  -- sample that fails does, and on the empty log.
  pub get_signal_graph-samples :
      (past_end : ℕ) (log : List (CanLogMsg F))
      → get_signal_graph signal id past_end log ≡ graph_of past_end log
  unfolding get_signal_graph finish
  get_signal_graph-samples past_end [] = refl
  get_signal_graph-samples past_end (first ∷ rest) =
      rw (sweep-samples first.time (first ∷ rest) (start signal id first))
        (close past_end first rest (samples (first ∷ rest)))
