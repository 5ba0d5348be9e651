-- ===== src/MsgModel/Colors.antt =====
-- The colors that the table shows after one of them is edited.
use can_tracer.Prelude.{
  ℕ, zero, suc, ◌≡◌, refl, Bool, true, false, Option, none, some, [], ◌∷◌, ◌==◌, if◌then◌else◌,
  get_elem?, arith, Option-cases, Bool-cases, inl, inr,
}
use can_tracer.Prelude.Outcome.{Outcome, ok, fault, out_of_range}
use can_tracer.Qt.{QColor}
use can_tracer.Can.{CanMessage, CanDb, set_color}
use can_tracer.Can.Db.{set_color-cons}
use can_tracer.MsgModel.{edit_role, color_data, set_data}

abbrev shown : Option QColor → Outcome (Option QColor)
shown none = fault out_of_range
shown (some c) = ok (some c)

module _ {F : Type 0} where
  abbrev pub color_of : Option (CanMessage F) → Option QColor
  color_of none = none
  color_of (some m) = some m.color

  -- The row of the first message with the id is `r`.
  abbrev pub is_first : CanDb F → ℕ → ℕ → Bool
  is_first [] id r = false
  is_first (m ∷ ms) id zero = m.id == id
  is_first (m ∷ ms) id (suc r) = let rest = is_first ms id r in if m.id == id then false else rest

  set_color-row :
      (db : CanDb F) (id r : ℕ) (color : QColor)
      → color_of (get_elem? (set_color db id color) r)
        ≡ (if is_first db id r then some color else color_of (get_elem? db r))
  set_color-row [] id r color = unfold set_color in refl
  set_color-row (m ∷ ms) id zero color = rw (set_color-cons m ms id color) (ground arith)
  set_color-row (m ∷ ms) id (suc r) color =
      rw (set_color-cons m ms id color) (ground (arith, set_color-row ms id r color))

  color_data-shown :
      (db : CanDb F) (r : ℕ)
      → color_data db edit_role (some r) 4 ≡ shown (color_of (get_elem? db r))
  unfolding color_data
  color_data-shown db r = elim (Option-cases (get_elem? db r)) [
    | inl e ↦ rw e refl
    | inr (m, e) ↦ rw e refl
  ]

  -- Editing the color of a row is accepted, and changes the color of the first row whose message has the
  -- id of that row, which is the row itself if no earlier one has its id; the other rows keep theirs.
  pub color_data-set_data :
      (db : CanDb F) (row r : ℕ) (m : CanMessage F) (color : QColor)
      → get_elem? db row ≡ some m
      → (db' : CanDb F) × (set_data db (some row) color edit_role ≡ ok (db', true))
        × (color_data db' edit_role (some r) 4
            ≡ (if is_first db m.id r then ok (some color) else color_data db edit_role (some r) 4))
  unfolding set_data
  color_data-set_data db row r m color e = (
    set_color db m.id color,
    rw e refl,
    rw
        (
          color_data-shown (set_color db m.id color) r,
          set_color-row db m.id r color,
          color_data-shown db r,
        )
        (elim (Bool-cases (is_first db m.id r)) [ inl u ↦ rw u refl | inr u ↦ rw u refl ]),
  )
