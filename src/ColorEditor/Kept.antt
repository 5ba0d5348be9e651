-- ===== src/ColorEditor/Kept.antt =====
-- Which color the editor gives back.
use can_tracer.Prelude.{
  ℕ, zero, suc, ◌+◌, ◌<◌, ◌≡◌, refl, sym, ap, ◌∙◌, Bool, true, false, ◌||◌, not, Bool-cases, ==_iff,
  Option, none, some, Option-cases, List, [], ◌∷◌, ◌++◌, map, length, length-append, get_elem?,
  if◌then◌else◌, inl, inr, arith,
}
use mathlib.Core.Path.{subst}
use mathlib.Core.List.{append_assoc, append-nil}
use can_tracer.Qt.{QString, QColor}
use can_tracer.Qt.ComboBox.{ComboBox, IsComboBox, Item, same_color, has_color, first_with, data_at}
use can_tracer.ColorEditor.{
  default_color, or_default, insert_colors, populate_list, set_color, color, create_editor,
}

abbrev pub color_items : List (QString × QColor) → List Item
color_items names = map (λ (n : QString × QColor). (n.0, some n.1)) names

color_of_channels :
    {v v' : Bool} {r g b a r' g' b' a' : ℕ}
    → v ≡ v'
    → r ≡ r'
    → g ≡ g'
    → b ≡ b'
    → a ≡ a'
    → Path QColor
        (record { is_valid = v; red = r; green = g; blue = b; alpha = a })
        (record { is_valid = v'; red = r'; green = g'; blue = b'; alpha = a' })
color_of_channels v r g b a = rw (v, r, g, b, a) refl

same_validity : (v v' : Bool) → (if v then v' else not v') ≡ true → v ≡ v'
same_validity true true e = refl
same_validity true false e = ground arith
same_validity false true e = ground arith
same_validity false false e = refl

color_of_same : (c d : QColor) → same_color c d ≡ true → c ≡ d
color_of_same c d e =
    color_of_channels (same_validity c.is_valid d.is_valid (ground (arith, e)))
      (ground (arith, e, ==_iff c.red d.red)) (ground (arith, e, ==_iff c.green d.green))
      (ground (arith, e, ==_iff c.blue d.blue)) (ground (arith, e, ==_iff c.alpha d.alpha))

-- The color is that of a name.
abbrev pub is_named : QColor → List (QString × QColor) → Bool
is_named c [] = false
is_named c (n ∷ names) = same_color c n.1 || is_named c names

-- The first item with a color has that color.
data_at-first_with :
    (c : QColor) (names : List (QString × QColor))
    → or_default (data_at (first_with c (color_items names)) (color_items names))
      ≡ (if is_named c names then c else default_color)
data_at-first_with c [] = refl
data_at-first_with c (n ∷ names) = elim (Bool-cases (same_color c n.1)) [
  | inl e ↦ rw e (sym (color_of_same c n.1 e))
  | inr e ↦ rw e (elim (Option-cases (first_with c (color_items names))) [
    | inl f ↦ rw f (subst gives f (data_at-first_with c names))
    | inr (i, f) ↦ rw f (subst gives f (data_at-first_with c names))
  ])
]
  where
    gives : Option ℕ → Type 0
    gives found =
        or_default (data_at found (color_items names))
        ≡ (if is_named c names then c else default_color)

abbrev InRange : Option ℕ → List Item → Type 0
InRange none its = Unit
InRange (some i) its = i < length its

first_with_lt : (c : QColor) (its : List Item) → InRange (first_with c its) its
first_with_lt c [] = tt
first_with_lt c ((text, own) ∷ its) = elim (Bool-cases (has_color c own)) [
  | inl e ↦ rw e (omega arith)
  | inr e ↦ rw e (elim (Option-cases (first_with c its)) [
    | inl f ↦ rw f tt
    | inr (i, f) ↦ rw f (
        let lt : i < length its = subst (λ o. InRange o its) f (first_with_lt c its) in
        omega (arith, lt))
  ])
]

abbrev picked_of : Option (QString × QColor) → QColor
picked_of none = default_color
picked_of (some n) = n.1

picked_item :
    (names : List (QString × QColor)) (i : ℕ) {name : QString} {picked : QColor}
    → get_elem? names i ≡ some (name, picked)
    → InRange (some i) (color_items names)
      × (or_default (data_at (some i) (color_items names)) ≡ picked)
picked_item [] i e = cc
picked_item (n ∷ names) zero e = (omega arith, ap picked_of e)
picked_item (n ∷ names) (suc i) e = let (lt, h) = picked_item names i e in (omega (arith, lt), h)

module _ {B : Type 0} (box : ComboBox B) (items : B → List Item) (laws : IsComboBox box items) where
  insert_colors-items :
      (names : List (QString × QColor)) (i : ℕ) (b : B)
      → i ≡ length (items b)
      → items (insert_colors box i names b) ≡ items b ++ color_items names
  insert_colors-items [] i b e = sym (append-nil (items b))
  insert_colors-items ((name, c) ∷ names) i b e =
      let b' = box.set_item_data i c (box.insert_item i name b) in
      let colored : items b' ≡ items b ++ (name, some c) ∷ [] = rw e (
        laws.data_set (items b) name c (box.insert_item (length (items b)) name b)
          (laws.inserted name b)) in
      let size : i + 1 ≡ length (items b') =
        rw (colored, length-append (items b) ((name, some c) ∷ [])) (omega (arith, e)) in
      insert_colors-items names (i + 1) b' size
      ∙ rw (colored, append_assoc (items b) ((name, some c) ∷ []) (color_items names)) refl

  editor_items :
      (names : List (QString × QColor)) → items (create_editor box names) ≡ color_items names
  unfolding create_editor populate_list
  editor_items names =
      let size : 0 ≡ length (items box.new_box) = rw laws.new_items refl in
      insert_colors-items names 0 box.new_box size ∙ rw laws.new_items refl

  color-set_index :
      (o : Option ℕ) (b : B)
      → InRange o (items b)
      → color box (box.set_current_index o b) ≡ or_default (data_at o (items b))
  unfolding color
  color-set_index none b h =
      rw (laws.selected_none b, laws.data_of none (box.set_current_index none b)) refl
  color-set_index (some i) b h =
      rw
        (
          laws.selected_index i b h,
          laws.data_of (some i) (box.set_current_index (some i) b),
          laws.selected (some i) b,
        )
        refl

  -- If the colors of the box are those of the names: a color that is set and has a name is the one that the
  -- editor gives back, for one without a name it gives the invalid color, and for an item that the user picks
  -- the color of that item.
  pub color-set_color :
      (names : List (QString × QColor)) (c : QColor)
      → let editor = create_editor box names in
        (color box (set_color box c editor) ≡ (if is_named c names then c else default_color))
        × ((i : ℕ) (name : QString) (picked : QColor)
            → get_elem? names i ≡ some (name, picked)
            → color box (box.set_current_index (some i) (set_color box c editor)) ≡ picked)
  unfolding set_color
  color-set_color names c =
      let editor = create_editor box names in
      let shown = laws.found c editor ∙ ap (first_with c) (editor_items names) in
      (
        ap (λ o. color box (box.set_current_index o editor)) shown
            ∙ color-set_index (first_with c (color_items names)) editor
                (rw (editor_items names) (first_with_lt c (color_items names)))
            ∙ rw (editor_items names) (data_at-first_with c names),
        (λ i name picked e.
            let kept = laws.selected (box.find_data c editor) editor ∙ editor_items names in
            let (lt, chosen) = picked_item names i e in
            color-set_index (some i) (set_color box c editor) (rw kept lt) ∙ rw kept chosen),
      )
