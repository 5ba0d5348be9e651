-- ===== src/Chart/Search.antt =====
-- What the search finds.
use can_tracer.Prelude.{
  ℕ, zero, suc, ◌+◌, ◌-◌, ◌/◌, ◌≤◌, ◌<◌, ◌≡◌, refl, sym, ap, ◌∙◌, Bool, true, false, Option, none,
  some, inl, inr, List, [], ◌∷◌, ◌==◌, if◌then◌else◌, length, get_elem?, Bool-cases, arith,
  get_elem?-some, get_elem?-none,
}
use can_tracer.Prelude.Int.{negsuc, pos}
use can_tracer.Prelude.Outcome.{ok}
use can_tracer.Qt.{Double}
use can_tracer.Graph.{Point}
use can_tracer.Chart.{search, start_search_index}

module _ {F : Type 0} ⦃d : Double F⦄ (x : F) where
  -- The number of points before the first that is not left of x.
  abbrev pub lower_bound : List (Point F) → ℕ
  lower_bound [] = 0
  lower_bound (p ∷ ps) = let rest = lower_bound ps in if d.lt p.0 x then suc rest else 0

  abbrev is_left? : Option (Point F) → Bool
  is_left? none = false
  is_left? (some p) = d.lt p.0 x

  -- The point at the index is left of x.
  abbrev pub is_left : List (Point F) → ℕ → Bool
  is_left ps i = is_left? (get_elem? ps i)

  -- As in a series that ascends: a point before one that is left of x is left of x.
  abbrev pub Ascends : List (Point F) → Type 0
  Ascends ps = (i j : ℕ) → i ≤ j → is_left ps j ≡ true → is_left ps i ≡ true

  lower_bound_unique :
      (ps : List (Point F)) (n : ℕ)
      → ((i : ℕ) → i < n → is_left ps i ≡ true)
      → is_left ps n ≡ false
      → lower_bound ps ≡ n
  lower_bound_unique [] zero before behind = refl
  lower_bound_unique [] (suc n) before behind = ground (arith, before 0)
  lower_bound_unique (p ∷ ps) zero before behind = rw behind refl
  lower_bound_unique (p ∷ ps) (suc n) before behind =
      let e : d.lt p.0 x ≡ true = before 0 (omega arith) in
      rw e (ap suc (lower_bound_unique ps n (λ i lt. before (suc i) (omega arith)) behind))

  search-lower_bound :
      (ps : List (Point F)) (fuel first count : ℕ)
      → Ascends ps
      → count ≤ fuel
      → first + count ≤ length ps
      → ((i : ℕ) → i < first → is_left ps i ≡ true)
      → is_left ps (first + count) ≡ false
      → search ps x fuel first count ≡ ok (lower_bound ps)
  unfolding search
  search-lower_bound ps fuel first zero asc enough inside before behind =
      let e : first ≡ first + 0 = omega arith in
      ap ok (sym (lower_bound_unique ps first before (ap (is_left ps) e ∙ behind)))
  search-lower_bound ps zero first (suc c) asc enough inside before behind = ground arith
  search-lower_bound ps (suc fuel) first (suc c) asc enough inside before behind =
      let e = get_elem?-some ps (first + suc c / 2) (omega arith) in
      let p = e.0 in
      elim (Bool-cases (d.lt p.0 x)) [
        | inl u ↦
            rw (e.1, u)
              (search-lower_bound ps fuel (suc (first + suc c / 2)) (suc c - (suc c / 2 + 1)) asc
                (omega arith) (omega arith)
                (λ i lt. asc i (first + suc c / 2) (omega arith) (rw e.1 u))
                (let e : suc (first + suc c / 2) + (suc c - (suc c / 2 + 1)) ≡ first + suc c =
                    omega arith in
                  ap (is_left ps) e ∙ behind))
        | inr u ↦
            rw (e.1, u)
              (search-lower_bound ps fuel first (suc c / 2) asc (omega arith) (omega arith) before
                (rw e.1 u))
      ]

  past_end : (ps : List (Point F)) → is_left ps (0 + length ps) ≡ false
  past_end ps = rw (get_elem?-none ps (0 + length ps) (omega arith)) refl

  -- In a series that ascends, the search is over after at most one round for each point, and gives the
  -- number of points left of x, which is the index of the first point that is not (the number of points
  -- when all are); but it gives -1 where no point is left of x.
  pub start_search_index-lower_bound :
      (ps : List (Point F))
      → Ascends ps
      → start_search_index ps x
        ≡ ok (if lower_bound ps == 0 then negsuc 0 else pos (lower_bound ps))
  unfolding start_search_index
  start_search_index-lower_bound ps asc =
      rw
        (search-lower_bound ps (length ps) 0 (length ps) asc (omega arith) (omega arith)
          (λ i lt. ground (arith, lt)) (past_end ps))
        refl
