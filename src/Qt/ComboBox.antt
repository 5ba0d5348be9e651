-- ===== src/Qt/ComboBox.antt =====
-- QComboBox, as the dialog of src/signalselectdialog.cpp and the editor of src/colorlisteditor.cpp use it.
use can_tracer.Prelude.{
  ℕ, suc, ◌<◌, ◌≡◌, Bool, false, not, ◌&&◌, ◌==◌, Option, none, some, List, [], ◌∷◌, ◌++◌, length,
  get_elem?, if◌then◌else◌,
}
use can_tracer.Qt.{QString, QColor}

-- The index -1 is `none`. The only data of an item is a color, in the role of the decoration;
-- `set_current_index` is also what the user does who picks an item.
pub record ComboBox (B : Type 0) : Type 0 where
  pub new_box : B
  pub insert_item : ℕ → QString → B → B
  pub set_item_data : ℕ → QColor → B → B
  pub clear : B → B
  pub set_current_index : Option ℕ → B → B
  pub current_index : B → Option ℕ
  pub find_data : QColor → B → Option ℕ
  pub item_data : Option ℕ → B → Option QColor

abbrev pub same_color : QColor → QColor → Bool
same_color a b =
    (if a.is_valid then b.is_valid else not b.is_valid)
    && a.red == b.red
    && a.green == b.green
    && a.blue == b.blue
    && a.alpha == b.alpha

abbrev pub has_color : QColor → Option QColor → Bool
has_color color none = false
has_color color (some other) = same_color color other

abbrev pub Item : Type 0
Item = QString × Option QColor

-- The first item with the color.
abbrev pub first_with : QColor → List Item → Option ℕ
first_with color [] = none
first_with color ((text, own) ∷ items) =
    let rest = first_with color items in
    if has_color color own then some 0 else elim rest [ none ↦ none | some i ↦ some (suc i) ]

abbrev pub data_at : Option ℕ → List Item → Option QColor
data_at none items = none
data_at (some i) items = elim (get_elem? items i) [ none ↦ none | some item ↦ item.1 ]

-- What the code relies on: items that are appended stand behind the others, the first one becomes the current
-- one, and later ones leave it; a box that is cleared has no current item; an index that is set is the
-- current one, if there is such an item.
pub record IsComboBox {B : Type 0} (box : ComboBox B) (items : B → List Item) : Type 0 where
  pub new_items : items box.new_box ≡ []
  pub new_index : box.current_index box.new_box ≡ none
  pub inserted :
      (text : QString) (b : B)
      → items (box.insert_item (length (items b)) text b) ≡ items b ++ (text, none) ∷ []
  pub first_index :
      (text : QString) (b : B)
      → items b ≡ []
      → box.current_index b ≡ none
      → box.current_index (box.insert_item (length (items b)) text b) ≡ some 0
  pub later_index :
      (text : QString) (b : B) (i : ℕ)
      → box.current_index b ≡ some i
      → box.current_index (box.insert_item (length (items b)) text b) ≡ some i
  pub data_set :
      (before : List Item) (text : QString) (color : QColor) (b : B)
      → items b ≡ before ++ (text, none) ∷ []
      → items (box.set_item_data (length before) color b) ≡ before ++ (text, some color) ∷ []
  pub cleared : (b : B) → items (box.clear b) ≡ []
  pub cleared_index : (b : B) → box.current_index (box.clear b) ≡ none
  pub selected : (i : Option ℕ) (b : B) → items (box.set_current_index i b) ≡ items b
  pub selected_index :
      (i : ℕ) (b : B)
      → i < length (items b)
      → box.current_index (box.set_current_index (some i) b) ≡ some i
  pub selected_none : (b : B) → box.current_index (box.set_current_index none b) ≡ none
  pub found : (color : QColor) (b : B) → box.find_data color b ≡ first_with color (items b)
  pub data_of : (i : Option ℕ) (b : B) → box.item_data i b ≡ data_at i (items b)
