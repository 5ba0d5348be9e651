-- ===== src/Chart/Mouse.antt =====
-- What the mouse shows of a chart.
use can_tracer.Prelude.{
  ℕ, ◌≡◌, ◌<◌, ◌≤◌, refl, ◌∙◌, true, false, ◌||◌, Bool-cases, none, some, List, [], ◌∷◌, ◌==◌,
  if◌then◌else◌, length, get_elem?, get_elem?-some, get_elem?-none, arith, inl, inr,
}
use can_tracer.Prelude.Int.{pos, negsuc}
use can_tracer.Prelude.Outcome.{ok, bad_access, failure, failure-map}
use can_tracer.Qt.{QString, Double}
use can_tracer.Can.{CanSignal}
use can_tracer.Graph.{Point}
use can_tracer.Chart.{Pointer, point_at, point_label, mouse_move_event, leave_event}
use can_tracer.Chart.Search.{Ascends, lower_bound, start_search_index-lower_bound}

module _ {F : Type 0} ⦃d : Double F⦄ (arg : QString → QString → QString) (show : F → QString)
    (signal : CanSignal F) (title : QString) where
  lower_bound_le : (x : F) (ps : List (Point F)) → lower_bound x ps ≤ length ps
  lower_bound_le x [] = omega arith
  lower_bound_le x (p ∷ ps) = ground (arith, lower_bound_le x ps)

  found :
      (ps : List (Point F)) (n : ℕ)
      → n ≤ length ps
      → failure (point_at ps (if n == 0 then negsuc 0 else pos n))
        ≡ (if n == 0 || n == length ps then some bad_access else none)
  found ps n le = elim (Bool-cases (n == 0)) [
    | inl e ↦ rw e refl
    | inr e ↦ rw e (elim (Bool-cases (n == length ps)) [
      | inl f ↦ rw (f, get_elem?-none ps n (ground (arith, f))) refl
      | inr f ↦ rw (f, (get_elem?-some ps n (ground (arith, f, le))).1) refl
    ])
  ]

  -- In a series that ascends, a mouse inside the chart shows the first point that is not left of it: its
  -- index is kept, the line is drawn, and the label tells its value; but this fails where there is no such
  -- point, and where no point is left of the mouse. Outside the chart nothing changes, and when the mouse
  -- leaves, no index is kept and the line is hidden.
  pub mouse_move_event_lem :
      (place x : F) (ps : List (Point F)) (pointer : Pointer F)
      → Ascends x ps
      → let n = lower_bound x ps in
        (failure (mouse_move_event arg show signal title ps true place x pointer)
          ≡ (if n == 0 || n == length ps then some bad_access else none))
        × ((point : Point F)
            → 0 < n
            → get_elem? ps n ≡ some point
            → mouse_move_event arg show signal title ps true place x pointer
              ≡ ok (
                record { index = pos n; prev_index = pos n; line = some place },
                some (point_label arg show signal title x point),
              ))
        × (mouse_move_event arg show signal title ps false place x pointer ≡ ok (pointer, none))
        × (leave_event pointer ≡ record { index = negsuc 0; prev_index = negsuc 0; line = none })
  unfolding mouse_move_event leave_event
  mouse_move_event_lem place x ps pointer asc =
      let searched = start_search_index-lower_bound x ps asc in
      let n = lower_bound x ps in
      (
        rw searched (failure-map (point_at ps _) _ ∙ found ps n (lower_bound_le x ps)),
        (λ point some_left e.
            let later : (n == 0) ≡ false = ground (arith, some_left) in
            rw (searched, later, e) refl),
        refl,
        refl,
      )
