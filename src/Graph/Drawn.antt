-- ===== src/Graph/Drawn.antt =====
-- The points that onAddSignal draws against all the points of the graph.
use can_tracer.Prelude.{
  ℕ, suc, ◌≡◌, refl, sym, ap, ◌∙◌, true, false, ◌||◌, List, [], ◌∷◌, arith, if◌then◌else◌, ltb,
  length, Bool-cases, Option, none, some, inl, inr,
}
use can_tracer.Qt.{Double}
use can_tracer.Graph.{Point, differs, draw_rest, drawn}

-- The order of two numbers does not matter to whether they are equal, and equal numbers compare alike. A NaN
-- is not equal to itself, which this does not exclude.
pub record EqCompares (F : Type 0) (d : Double F) : Type 0 where
  pub symmetric : (a b : F) → d.eq a b ≡ d.eq b a
  pub alike : (a b c : F) → d.eq a b ≡ true → d.eq c a ≡ d.eq c b

pub ltb_3 : (n : ℕ) → ltb (suc (suc (suc n))) 3 ≡ false
ltb_3 n = ground arith

module _ {F : Type 0} ⦃d : Double F⦄ where
  -- The points behind `p` at which the value is not the one of the point before.
  abbrev pub changes_from : Point F → List (Point F) → List (Point F)
  changes_from p [] = []
  changes_from p (q ∷ qs) = let rest = changes_from q qs in if d.eq q.1 p.1 then rest else q ∷ rest

  abbrev pub changes : List (Point F) → List (Point F)
  changes [] = []
  changes (p ∷ ps) = p ∷ changes_from p ps

  abbrev pub last_from : Point F → List (Point F) → Point F
  last_from p [] = p
  last_from p (q ∷ qs) = last_from q qs

  abbrev pub last_point : List (Point F) → Option (Point F)
  last_point [] = none
  last_point (p ∷ ps) = some (last_from p ps)

  changes_from-draw_rest :
      EqCompares F d
      → (v prev : Point F) (ps : List (Point F)) → ((x : F) → d.eq x v.1 ≡ d.eq x prev.1)
      → changes_from v (draw_rest prev ps) ≡ changes_from prev ps
  unfolding draw_rest
  changes_from-draw_rest compares v prev [] same = refl
  changes_from-draw_rest compares v prev (p ∷ []) same = rw (same p.1) refl
  changes_from-draw_rest compares v prev (p ∷ q ∷ ps) same = elim (Bool-cases (d.eq p.1 prev.1)) [
    | inr e ↦
        rw (e, same p.1, e)
          (ap (λ r. p ∷ r) (changes_from-draw_rest compares p p (q ∷ ps) (λ x. refl)))
    | inl e ↦ elim (Bool-cases (d.eq p.1 q.1)) [
      | inr u ↦ rw (e, u, same p.1, e) (changes_from-draw_rest compares p p (q ∷ ps) (λ x. refl))
      | inl u ↦
          rw (e, u)
            (changes_from-draw_rest compares v p (q ∷ ps)
              (λ x. same x ∙ sym (compares.alike p.1 prev.1 x e)))
    ]
  ]

  last_from-draw_rest :
      (v prev p : Point F) (ps : List (Point F))
      → last_from v (draw_rest prev (p ∷ ps)) ≡ last_from p ps
  unfolding draw_rest
  last_from-draw_rest v prev p [] = refl
  last_from-draw_rest v prev p (q ∷ ps) = elim (Bool-cases (differs p prev || differs p q)) [
    | inl e ↦ rw e (last_from-draw_rest p p q ps)
    | inr e ↦ rw e (last_from-draw_rest v p q ps)
  ]

  -- The pairs of neighbours that differ in value: where the line through the points is not level.
  abbrev pub slopes_from : Point F → List (Point F) → List (Point F × Point F)
  slopes_from p [] = []
  slopes_from p (q ∷ qs) =
      let rest = slopes_from q qs in if d.eq q.1 p.1 then rest else (p, q) ∷ rest

  abbrev pub slopes : List (Point F) → List (Point F × Point F)
  slopes [] = []
  slopes (p ∷ ps) = slopes_from p ps

  draw_rest_change :
      (p q : Point F) (ps : List (Point F))
      → d.eq q.1 p.1 ≡ false
      → draw_rest p (q ∷ ps) ≡ q ∷ draw_rest q ps
  unfolding draw_rest
  draw_rest_change p q [] e = refl
  draw_rest_change p q (r ∷ ps) e = rw e refl

  -- Behind a point `p` that is drawn; and behind a point that is not, where the last drawn point `v` and the next
  -- point `p` have its value.
  slopes_from-draw_rest :
      EqCompares F d
      → (p : Point F) (ps : List (Point F))
      → (slopes_from p (draw_rest p ps) ≡ slopes_from p ps)
        × ((v prev : Point F)
            → ((x : F) → d.eq x v.1 ≡ d.eq x prev.1)
            → d.eq p.1 prev.1 ≡ true
            → slopes_from v (draw_rest prev (p ∷ ps)) ≡ slopes_from p ps)
  unfolding draw_rest
  slopes_from-draw_rest compares p [] = (refl, λ v prev same level. rw (same p.1, level) refl)
  slopes_from-draw_rest compares p (q ∷ ps) =
      let (drawn_next, left_next) = slopes_from-draw_rest compares q ps in
      let kept : slopes_from p (draw_rest p (q ∷ ps)) ≡ slopes_from p (q ∷ ps) =
        elim (Bool-cases (d.eq q.1 p.1)) [
          | inl e ↦ rw e (left_next p p (λ x. refl) e)
          | inr e ↦ rw (draw_rest_change p q ps e, e) (ap (λ r. (p, q) ∷ r) drawn_next)
        ] in
      (
        kept,
        λ v prev same level. elim (Bool-cases (d.eq p.1 q.1)) [
          | inr u ↦ rw (level, u, same p.1, level) kept
          | inl u ↦
              let next : d.eq q.1 p.1 ≡ true = compares.symmetric q.1 p.1 ∙ u in
              rw (level, u, next)
                (left_next v p (λ x. same x ∙ sym (compares.alike p.1 prev.1 x level)) next)
        ],
      )

  -- Where equality of numbers is symmetric and equal numbers compare alike, the drawn points have the same
  -- changes of the value, at the same times, as all the points, and the same last point; and the line through
  -- them is not level between exactly the neighbours of the graph that differ in value, so that no slope is added
  -- or lost.
  pub changes-drawn :
      EqCompares F d
      → (ps : List (Point F))
      → (changes (drawn ps) ≡ changes ps)
        × (last_point (drawn ps) ≡ last_point ps)
        × (slopes (drawn ps) ≡ slopes ps)
  unfolding drawn
  changes-drawn compares [] = (refl, refl, refl)
  changes-drawn compares (p ∷ []) = (refl, refl, refl)
  changes-drawn compares (p ∷ q ∷ []) = (refl, refl, refl)
  changes-drawn compares (p ∷ q ∷ r ∷ ps) = rw (ltb_3 (length ps)) (
    ap (λ r. p ∷ r) (changes_from-draw_rest compares p p (q ∷ r ∷ ps) (λ x. refl)),
    ap some (last_from-draw_rest p p q (r ∷ ps)),
    (slopes_from-draw_rest compares p (q ∷ r ∷ ps)).0,
  )
