-- ===== src/Window/Removed.antt =====
-- What removing a row of a list keeps.
use can_tracer.Prelude.{ℕ, zero, suc, ◌≡◌, refl, ap, List, [], ◌∷◌, map, All}
use can_tracer.Window.{remove_at}

pub All-remove_at :
    {A : Type 0} (P : A → Type 0) (row : ℕ) (xs : List A) → All P xs → All P (remove_at row xs)
All-remove_at P row [] h = tt
All-remove_at P zero (x ∷ xs) h = h.1
All-remove_at P (suc row) (x ∷ xs) h = (h.0, All-remove_at P row xs h.1)

pub map-remove_at :
    {A B : Type 0} (f : A → B) (row : ℕ) (xs : List A)
    → map f (remove_at row xs) ≡ remove_at row (map f xs)
map-remove_at f row [] = refl
map-remove_at f zero (x ∷ xs) = refl
map-remove_at f (suc row) (x ∷ xs) = ap (λ rest. f x ∷ rest) (map-remove_at f row xs)
