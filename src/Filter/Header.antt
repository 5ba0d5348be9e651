-- ===== src/Filter/Header.antt =====
-- src/customproxymodel.cpp over src/canlogmodel.cpp: the header of the table of the log, in which the columns
-- with a filter are bold.
use can_tracer.Prelude.{
  ℕ, ◌≡◌, ◌<◌, ◌≤◌, some, ◌%◌, ◌^◌, refl, Bool, true, false, not, ◌||◌, List, [], ◌∷◌, ◌==◌, leb,
  if◌then◌else◌, get_elem?, get_elem?-some, arith, Bool-cases, inl, inr,
}
use can_tracer.Prelude.Int.{ℤ, pos}
use can_tracer.Prelude.Outcome.{Outcome, ok}
use can_tracer.Qt.{QString, codes, to_unsigned}
use can_tracer.Qt.Variant.{
  Variant, no_value, bold, text, Orientation, horizontal, is_horizontal, header_at,
}
use can_tracer.Filter.{Filters, remove_key, set_filter}

-- The roles that the two header functions tell apart.
pub data HeaderRole : Type 0 where
  display font other_role : HeaderRole

abbrev pub is_text : HeaderRole → Bool
is_text display = true
is_text _ = false

abbrev pub is_font : HeaderRole → Bool
is_font font = true
is_font _ = false

abbrev pub log_headers : List QString
log_headers =
    codes "Number"
    ∷ codes "Time"
    ∷ codes "Chan"
    ∷ codes "CAN ID"
    ∷ codes "DLC"
    ∷ codes "Message name"
    ∷ codes " 00 01 02 03 04 05 06 07"
    ∷ []

-- CanLogModel::headerData
unfoldable pub log_header : ℤ → Orientation → HeaderRole → Outcome Variant
log_header section orientation role =
    if not (is_text role)
    then ok no_value
    else if is_horizontal orientation
    then header_at log_headers section
    else ok no_value

-- QHash::contains
unfoldable pub contains_key : ℕ → Filters → Bool
contains_key column [] = false
contains_key column (f ∷ fs) = f.0 == column || contains_key column fs

-- CustomProxyModel::headerData: the section is cut to a uint8_t to look for its filter.
unfoldable pub header_data : Filters → ℤ → Orientation → HeaderRole → Outcome Variant
header_data fs section orientation role =
    if not (is_font role)
      || not (is_horizontal orientation)
      || not (contains_key (to_unsigned 8 section) fs)
    then log_header section orientation role
    else ok bold

contains_key-remove_key :
    (column other : ℕ) (fs : Filters)
    → contains_key other (remove_key column fs)
      ≡ (if column == other then false else contains_key other fs)
unfolding contains_key remove_key
contains_key-remove_key column other [] = ground arith
contains_key-remove_key column other (f ∷ fs) =
    ground (arith, contains_key-remove_key column other fs)

abbrev pub is_empty : QString → Bool
is_empty [] = true
is_empty (c ∷ cs) = false

contains_key-set_filter :
    (column other : ℕ) (expression : QString) (fs : Filters)
    → contains_key other (set_filter column expression fs)
      ≡ (if column == other then not (is_empty expression) else contains_key other fs)
unfolding contains_key set_filter
contains_key-set_filter column other [] fs = contains_key-remove_key column other fs
contains_key-set_filter column other (c ∷ cs) fs =
    ground (arith, contains_key-remove_key column other fs)

-- After a filter is set for a column, the title of another one is bold or not as before, that of the column
-- itself exactly if the expression is not empty; and filters never change the texts of the titles, of which
-- there is one for each of the seven columns and no other.
header_data-set_filter :
    (column section : ℕ) (expression : QString) (fs : Filters)
    → section < 256
    → (header_data (set_filter column expression fs) (pos section) horizontal font ≡ (
        if column == section
        then (if is_empty expression then ok no_value else ok bold)
        else header_data fs (pos section) horizontal font))
      × (header_data fs (pos section) horizontal display
          ≡ log_header (pos section) horizontal display)
      × (section < 7
          → (t : QString) × (get_elem? log_headers section ≡ some t)
            × (header_data fs (pos section) horizontal display ≡ ok (text t)))
      × (7 ≤ section → header_data fs (pos section) horizontal display ≡ ok no_value)
unfolding header_data log_header
header_data-set_filter column section expression fs lt =
    let same : section % 2 ^ 8 ≡ section = omega (arith, lt) in
    (
      elim (Bool-cases (column == section)) [
        | inl e ↦
            rw (same, contains_key-set_filter column section expression fs, e)
              (elim (Bool-cases (is_empty expression)) [ inl f ↦ rw f refl | inr f ↦ rw f refl ])
        | inr e ↦ rw (same, contains_key-set_filter column section expression fs, e) refl
      ],
      refl,
      (λ inside.
          let (t, found) = get_elem?-some log_headers section inside in
          (
            t,
            found,
            let within : leb 7 section ≡ false = ground (arith, inside) in rw (within, found) refl,
          )),
      (λ outside. let beyond : leb 7 section ≡ true = ground (arith, outside) in rw beyond refl),
    )
