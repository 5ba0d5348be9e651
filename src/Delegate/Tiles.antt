-- ===== src/Delegate/Tiles.antt =====
-- The cells of a row below an entry do not overlap.
use can_tracer.Prelude.{ℕ, zero, suc, ◌+◌, ◌≡◌, refl, true, false, ltb, arith}
use can_tracer.Prelude.Int.{ℤ, pos, ◌+ℤ◌, int_laws}
use can_tracer.Delegate.{Rect, painted}

abbrev pub right : Rect → ℤ
right r = r.x +ℤ r.width

-- The next column begins where this one ends.
abbrev pub Touches : Rect → Rect → Type 0
Touches r s = s.x ≡ right r

shifted :
    (x w : ℤ) (a b c : ℕ) {y : ℤ}
    → y ≡ x +ℤ w
    → c ≡ a + b
    → y +ℤ pos c ≡ (x +ℤ pos a) +ℤ (w +ℤ pos b)
shifted x w a b c e f = grind (int_laws, e, f)

-- How far the cells of a column are moved, and by how much they are widened.
abbrev pub move_and_widening : ℕ → ℕ × ℕ
move_and_widening zero = (0, 300)
move_and_widening (suc zero) = (300, 0)
move_and_widening (suc (suc zero)) = (300, 50)
move_and_widening (suc (suc (suc zero))) = (350, 200)
move_and_widening (suc (suc (suc (suc n)))) = (550, 0)

abbrev pub moved : ℕ × ℕ → Rect → Rect
moved m r = record r { x = r.x +ℤ pos m.0; width = r.width +ℤ pos m.1 }

same_width : (w : ℤ) → w +ℤ pos 0 ≡ w
same_width w = grind (int_laws)

painted_below : (column : ℕ) (r : Rect) → painted true column r ≡ moved (move_and_widening column) r
unfolding painted
painted_below zero r = refl
painted_below (suc zero) r = refl
painted_below (suc (suc zero)) r = refl
painted_below (suc (suc (suc zero))) r = refl
painted_below (suc (suc (suc (suc n)))) r =
    let here : ltb (suc (suc (suc (suc n)))) 4 ≡ false = ground arith in
    rw (here, same_width r.width) refl

moved-Touches :
    (column : ℕ) (r s : Rect)
    → Touches r s
    → Touches (moved (move_and_widening column) r) (moved (move_and_widening (suc column)) s)
moved-Touches zero r s h = shifted r.x r.width 0 300 300 h refl
moved-Touches (suc zero) r s h = shifted r.x r.width 300 0 300 h refl
moved-Touches (suc (suc zero)) r s h = shifted r.x r.width 300 50 350 h refl
moved-Touches (suc (suc (suc zero))) r s h = shifted r.x r.width 350 200 550 h refl
moved-Touches (suc (suc (suc (suc n)))) r s h = shifted r.x r.width 550 0 550 h refl

-- Below an entry the cells of the first four columns are widened by 300, 0, 50 and 200, the other cells keep
-- their width, and each is moved by what the columns before it were widened: by 0, 300, 300, 350, and 550 from
-- the fifth column on. So cells that touch in the table touch as they are painted. An entry is painted where
-- the table puts it.
pub painted-Touches :
    (column : ℕ) (r s : Rect)
    → Touches r s
    → (painted true column r ≡ moved (move_and_widening column) r)
      × Touches (painted true column r) (painted true (suc column) s)
      × (painted false column r ≡ r)
painted-Touches column r s h = (
  painted_below column r,
  rw (painted_below column r, painted_below (suc column) s) (moved-Touches column r s h),
  unfold painted in refl,
)
