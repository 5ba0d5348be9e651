-- ===== src/Chart/Ordered.antt =====
-- src/canmsg.cpp and src/mainwindow.cpp with src/customqchartview.cpp: the search in the chart of a log
-- whose times ascend.
use mathlib.Core.List.{append-nil}
use can_tracer.Prelude.{
  ℕ, zero, suc, ◌≡◌, ◌∙◌, sym, Bool, true, ◌||◌, List, [], ◌∷◌, ◌++◌, ◌==◌, if◌then◌else◌, ltb,
  length, All, All-append, All-map, arith, Bool-cases, inl, inr,
}
use can_tracer.Prelude.Int.{negsuc, pos}
use can_tracer.Prelude.Outcome.{
  ok, Ensures, ensured, failed, Ensures->>=, Ensures-any, Ensures-both, value_of_Ensures,
}
use can_tracer.Qt.{Double}
use can_tracer.Can.{CanLogMsg, CanSignal}
use can_tracer.Signal.{parse_signal}
use can_tracer.Graph.{Point, differs, draw_rest, drawn, get_signal_graph}
use can_tracer.Graph.Samples.{
  lead, last_time, last_value, samples, graph_of, get_signal_graph-samples,
}
use can_tracer.Chart.{start_search_index}
use can_tracer.Chart.Search.{is_left, Ascends, lower_bound, start_search_index-lower_bound}

module _ {F : Type 0} ⦃d : Double F⦄ where
  abbrev pub at_most : F → F → Bool
  at_most a b = d.lt a b || d.eq a b

  -- The messages stand in the order of their times.
  abbrev pub IsOrdered : List (CanLogMsg F) → Type 0
  IsOrdered [] = Unit
  IsOrdered (m ∷ ms) = All (λ n. at_most m.time n.time ≡ true) ms × IsOrdered ms

  -- A number that is not above one below x is below x.
  abbrev pub KeepsOrder : F → Type 0
  KeepsOrder x = (a b : F) → at_most a b ≡ true → d.lt b x ≡ true → d.lt a x ≡ true

module _ {F : Type 0} ⦃d : Double F⦄ (x : F) where
  -- If b is left of x, so is a.
  abbrev Before : F → F → Type 0
  Before a b = d.lt b x ≡ true → d.lt a x ≡ true

  abbrev Below : List (Point F) → Type 0
  Below [] = Unit
  Below (p ∷ ps) = All (λ q. Before p.0 q.0) ps × Below ps

  abbrev Times : List (CanLogMsg F) → Type 0
  Times [] = Unit
  Times (m ∷ ms) = All (λ n. Before m.time n.time) ms × Times ms

  left_of :
      (t : F) (ps : List (Point F)) (j : ℕ)
      → All (λ q. Before t q.0) ps
      → is_left x ps j ≡ true
      → d.lt t x ≡ true
  left_of t [] j h e = absurd (ground arith)
  left_of t (p ∷ ps) zero h e = h.0 e
  left_of t (p ∷ ps) (suc j) h e = left_of t ps j h.1 e

  Below-Ascends : (ps : List (Point F)) → Below ps → Ascends x ps
  Below-Ascends [] h i j le e = absurd (ground arith)
  Below-Ascends (p ∷ ps) h zero zero le e = e
  Below-Ascends (p ∷ ps) h zero (suc j) le e = left_of p.0 ps j h.0 e
  Below-Ascends (p ∷ ps) h (suc i) zero le e = absurd (omega arith)
  Below-Ascends (p ∷ ps) h (suc i) (suc j) le e = Below-Ascends ps h.1 i j (omega arith) e

  draw_rest-All :
      (P : Point F → Type 0) (prev : Point F) (ps : List (Point F))
      → All P ps
      → All P (draw_rest prev ps)
  unfolding draw_rest
  draw_rest-All P prev [] h = tt
  draw_rest-All P prev (p ∷ []) h = h
  draw_rest-All P prev (p ∷ q ∷ ps) h = elim (Bool-cases (differs p prev || differs p q)) [
    | inl e ↦ rw e (h.0, draw_rest-All P p (q ∷ ps) h.1)
    | inr e ↦ rw e (draw_rest-All P p (q ∷ ps) h.1)
  ]

  draw_rest-Below : (prev : Point F) (ps : List (Point F)) → Below ps → Below (draw_rest prev ps)
  unfolding draw_rest
  draw_rest-Below prev [] h = tt
  draw_rest-Below prev (p ∷ []) h = h
  draw_rest-Below prev (p ∷ q ∷ ps) h = elim (Bool-cases (differs p prev || differs p q)) [
    | inl e ↦ rw e (draw_rest-All _ p (q ∷ ps) h.0, draw_rest-Below p (q ∷ ps) h.1)
    | inr e ↦ rw e (draw_rest-Below p (q ∷ ps) h.1)
  ]

  drawn-Below : (ps : List (Point F)) → Below ps → Below (drawn ps)
  unfolding drawn
  drawn-Below [] h = tt
  drawn-Below (p ∷ ps) h = elim (Bool-cases (ltb (length (p ∷ ps)) 3)) [
    | inl e ↦ rw e h
    | inr e ↦ rw e (draw_rest-All _ p ps h.0, draw_rest-Below p ps h.1)
  ]

  module _ (signal : CanSignal F) (id : ℕ) where
    samples-All :
        (P : F → Type 0) (log : List (CanLogMsg F))
        → All (λ m. P m.time) log
        → Ensures (λ ps. All (λ p. P p.0) ps) (samples signal id log)
    samples-All P [] h = ensured tt
    samples-All P (m ∷ ms) h = elim (Bool-cases (m.id == id)) [
      | inl e ↦ rw e (
          Ensures-any (parse_signal signal m.bytes m.dlc)
            (λ v. Ensures->>= (samples-All P ms h.1) (λ ps inside. ensured (h.0, inside))))
      | inr e ↦ rw e (samples-All P ms h.1)
    ]

    samples-Below :
        (log : List (CanLogMsg F)) → Times log → Ensures (λ ps. Below ps) (samples signal id log)
    samples-Below [] h = ensured tt
    samples-Below (m ∷ ms) h = elim (Bool-cases (m.id == id)) [
      | inl e ↦ rw e (
          Ensures-any (parse_signal signal m.bytes m.dlc) (λ v.
            Ensures->>= (Ensures-both (samples-All (Before m.time) ms h.0) (samples-Below ms h.1))
              (λ ps inside. ensured inside)))
      | inr e ↦ rw e (samples-Below ms h.1)
    ]

  last_time_lem :
      (t : F) (log : List (CanLogMsg F))
      → All (λ m. Before t m.time) log
      → Times log
      → Before t (last_time t log)
  last_time_lem t [] h times e = e
  last_time_lem t (m ∷ ms) h times e = h.0 (last_time_lem m.time ms times.0 times.1 e)

  last_time-All :
      (t : F) (log : List (CanLogMsg F))
      → Times log
      → All (λ m. Before m.time (last_time t log)) log
  last_time-All t [] times = tt
  last_time-All t (m ∷ ms) times =
      (last_time_lem m.time ms times.0 times.1, last_time-All m.time ms times.1)

  closed_Below :
      (t v : F) (ps : List (Point F))
      → All (λ p. Before p.0 t) ps
      → Below ps
      → Below (ps ++ ((t, v) ∷ []))
  closed_Below t v [] h below = (tt, tt)
  closed_Below t v (p ∷ ps) h below =
      (All-append _ ps ((t, v) ∷ []) below.0 (h.0, tt), closed_Below t v ps h.1 below.1)

  led_Below :
      (t : F) (ps qs : List (Point F))
      → All (λ q. Before t q.0) qs
      → Below qs
      → Below (lead t ps ++ qs)
  led_Below t [] qs h below = below
  led_Below t (p ∷ ps) qs h below = (h, below)

  IsOrdered-Times : (log : List (CanLogMsg F)) → KeepsOrder x → IsOrdered log → Times log
  IsOrdered-Times [] keeps ordered = tt
  IsOrdered-Times (m ∷ ms) keeps ordered =
      (All-map ms (λ n le. keeps m.time n.time le) ordered.0, IsOrdered-Times ms keeps ordered.1)

  graph-Below :
      (signal : CanSignal F) (id past_end : ℕ) (log : List (CanLogMsg F))
      → Times log
      → Ensures (λ ps. Below ps) (graph_of signal id past_end log)
  graph-Below signal id past_end [] times = failed
  graph-Below signal id past_end (m ∷ ms) times =
      let end = last_time m.time ms in
      let from = samples-All signal id (Before m.time) (m ∷ ms) ((λ e. e), times.0) in
      let to =
        samples-All signal id (λ t. Before t end) (m ∷ ms) (last_time-All m.time (m ∷ ms) times) in
      Ensures->>= (Ensures-both from (Ensures-both to (samples-Below signal id (m ∷ ms) times)))
        (λ ps (after, (before, below)). ensured (elim (Bool-cases (past_end == id)) [
          | inl e ↦
              rw e
                (led_Below m.time ps (ps ++ []) (All-append _ ps [] after tt) (rw append-nil below))
          | inr e ↦
              let v = last_value (d.of_int (pos 0)) ps in
              rw e (
                led_Below m.time ps (ps ++ ((end, v) ∷ []))
                  (All-append _ ps ((end, v) ∷ []) after
                    (last_time_lem m.time ms times.0 times.1, tt))
                  (closed_Below end v ps before below))
        ]))

  -- Where numbers keep their order (one at most another that is below x is below x), the times of the
  -- log ascend and its graph is built, the search in the points that are drawn ends, and gives the number
  -- of them left of x, the index of the first that is not; but it gives -1 where no point is left of x.
  pub start_search_index-drawn :
      (signal : CanSignal F) (id past_end : ℕ) (log : List (CanLogMsg F)) {points : List (Point F)}
      → KeepsOrder x
      → IsOrdered log
      → get_signal_graph signal id past_end log ≡ ok points
      → let line = drawn points in
        start_search_index line x
        ≡ ok (if lower_bound x line == 0 then negsuc 0 else pos (lower_bound x line))
  start_search_index-drawn signal id past_end log {points} keeps ordered e =
      let graph = graph-Below signal id past_end log (IsOrdered-Times log keeps ordered) in
      let below : Ensures (λ ps. Below ps) (ok points) =
        rw (sym (get_signal_graph-samples signal id past_end log) ∙ e) at graph in
      start_search_index-lower_bound x (drawn points)
        (Below-Ascends (drawn points) (drawn-Below points (value_of_Ensures below)))
