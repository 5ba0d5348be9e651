-- ===== src/Can/Db.antt =====
-- The searches of src/canmsg.h, and what is changed through the pointers that they return.
use can_tracer.Prelude.{
  ℕ, zero, suc, ◌≡◌, refl, Option, none, some, List, [], ◌∷◌, arith, ◌==◌, get_elem?, if◌then◌else◌,
  All, ◌%◌, ◌^◌, ◌∙◌,
}
use can_tracer.Prelude.Bits.{bit_and_mask}
use can_tracer.Qt.{QColor}
use can_tracer.Can.{
  CanMessage, CanDb, modify, find_message, find_message_mut, set_color, add_message,
  remove_ext_mask,
}

abbrev pub deref {ℓ} : {A : Type ℓ} → List A → Option ℕ → Option A
deref xs none = none
deref xs (some i) = get_elem? xs i

module _ {F : Type 0} where
  -- The pointer of one overload of findMessage is to the message that the other one returns.
  pub deref-find_message_mut :
      (db : CanDb F) (id : ℕ) → deref db (find_message_mut db id) ≡ find_message db id
  unfolding find_message_mut find_message
  deref-find_message_mut [] id = refl
  deref-find_message_mut (m ∷ ms) id = ground (arith, deref-find_message_mut ms id)

  -- A message that is found has the id that was asked for.
  pub find_message_sound :
      (db : CanDb F) (id : ℕ) (m : CanMessage F) → find_message db id ≡ some m → m.id ≡ id
  unfolding find_message
  find_message_sound [] id m e = cc
  find_message_sound (x ∷ xs) id m e = ground (arith, find_message_sound xs id m)

  -- A later message with an id that the database has is never found.
  pub find_message-add_message :
      (db : CanDb F) (m : CanMessage F) (id : ℕ)
      → find_message (add_message db m) id ≡ elim (find_message db id) [
        | some first ↦ some first
        | none ↦ if m.id == id then some m else none
      ]
  unfolding find_message add_message
  find_message-add_message [] m id = refl
  find_message-add_message (x ∷ xs) m id = ground (arith, find_message-add_message xs m id)

  pub set_color-cons :
      (m : CanMessage F) (ms : CanDb F) (id : ℕ) (color : QColor)
      → set_color (m ∷ ms) id color
        ≡ (if m.id == id then record m { color = color } ∷ ms else m ∷ set_color ms id color)
  unfolding set_color
  set_color-cons m ms id color = ground arith

  -- setColor changes the color of the message that findMessage finds, and of no other, and nothing if
  -- there is none.
  pub find_message-set_color :
      (db : CanDb F) (id : ℕ) (color : QColor) (other : ℕ)
      → find_message (set_color db id color) other ≡ elim (find_message db other) [
        | none ↦ none
        | some m ↦ some (if id == other then record m { color = color } else m)
      ]
  unfolding find_message
  find_message-set_color [] id color other = unfold set_color in refl
  find_message-set_color (m ∷ ms) id color other =
      rw (set_color-cons m ms id color) (ground (arith, find_message-set_color ms id color other))

-- A change through a pointer keeps what it keeps of each element.
pub All-modify {ℓ κ} :
    {A : Type ℓ} (P : A → Type κ) (i : ℕ) (f : A → A) (xs : List A)
    → ((a : A) → P a → P (f a))
    → All P xs
    → All P (modify i f xs)
All-modify P i f [] keep h = h
All-modify P zero f (x ∷ xs) keep h = (keep x h.0, h.1)
All-modify P (suc i) f (x ∷ xs) keep h = (h.0, All-modify P i f xs keep h.1)

-- The mask leaves 29 bits.
pub remove_ext_mask_lem : (id : ℕ) → remove_ext_mask id ≡ id % 2 ^ 29
unfolding remove_ext_mask
remove_ext_mask_lem id = bit_and_mask 29 (id % 2 ^ 32) ∙ omega arith
