-- ===== src/Qt/Variant.antt =====
-- The values and questions of Qt's item models.
use can_tracer.Prelude.{Bool, true, false, List, length, get_elem?, leb, if◌then◌else◌}
use can_tracer.Prelude.Int.{ℤ, pos, negsuc}
use can_tracer.Prelude.Outcome.{Outcome, ok, fault, out_of_range, or_fault, ◌>>=◌}
use can_tracer.Qt.{QString, QColor}

-- A QVariant that the models hand out; `bold` is a font.
pub data Variant : Type 0 where
  no_value bold : Variant
  text : QString → Variant
  colored : QColor → Variant

pub data Orientation : Type 0 where
  horizontal vertical : Orientation

abbrev pub is_horizontal : Orientation → Bool
is_horizontal horizontal = true
is_horizontal vertical = false

-- The comparison `section >= headers.size()` and the checked access at(section), of signed integers.
abbrev pub header_at : List QString → ℤ → Outcome Variant
header_at headers (negsuc n) = fault out_of_range
header_at headers (pos n) =
    if leb (length headers) n
    then ok no_value
    else (or_fault out_of_range (get_elem? headers n) >>= λ t. ok (text t))
