-- ===== src/Blf/Container.antt =====
-- The loop over a container ends.
use can_tracer.Prelude.{
  ℕ, zero, suc, ◌+◌, ◌^◌, ◌≤◌, ◌<◌, ◌≡◌, ◌⊎◌, inl, inr, refl, sym, ◌∙◌, ◌≢◌, ap, Option, [], ◌∷◌,
  ◌++◌, arith, length, drop, length-append, length-drop, Option-cases, Bool-cases, ltb,
}
use can_tracer.Prelude.Int.{ℤ, pos, negsuc}
use can_tracer.Prelude.Outcome.{Outcome, ok}
use can_tracer.Qt.{Double, QByteArray, DataStream}
use can_tracer.Blf.{
  BlfState, read_body, parse_sized, parse_at, parse_object, parse_container, to_int32,
}

pos_injective : {a b : ℕ} → pos a ≡ pos b → a ≡ b
pos_injective e = cc

pub pos≢negsuc : {a b : ℕ} → pos a ≢ negsuc b
pos≢negsuc e = cc

to_int32_small : (n : ℕ) → n < 2 ^ 31 → to_int32 n ≡ pos n
to_int32_small n h = ground arith

drop_all : (n : ℕ) (bs : QByteArray) → length bs ≤ n → drop n bs ≡ []
drop_all zero [] h = refl
drop_all zero (b ∷ bs) h = elim h [ ]
drop_all (suc n) [] h = refl
drop_all (suc n) (b ∷ bs) h = drop_all n bs (omega arith)

module _ {F : Type 0} {S : Type 0} ⦃d : Double F⦄ (stream : DataStream S)
    (index_of : QByteArray → ℕ → Option ℕ) where
  pub read_body-remain :
      (version obj_type : ℕ) (st : BlfState F) (s : S)
      → (read_body stream version obj_type st s).remain ≡ st.remain
  unfolding read_body
  read_body-remain version obj_type st s = ground arith

  -- What an object leaves: it takes the whole container, or nothing remains, or it stops the loop.
  abbrev Leaves : QByteArray → ℤ × BlfState F → Type 0
  Leaves container r = (r.0 ≡ pos (length container)) ⊎ ((r.1.remain ≡ []) ⊎ (r.0 ≡ negsuc 0))

  -- The bytes that remain are among those of the container.
  abbrev Bounded : QByteArray → ℤ × BlfState F → Type 0
  Bounded container r = Leaves container r × (length r.1.remain ≤ length container)

  parse_sized-Bounded :
      (container : QByteArray) (st : BlfState F) (next version obj_type : ℕ) (s : S)
      → length container < 2 ^ 31
      → Bounded container (parse_sized stream index_of container st next version obj_type s)
  unfolding parse_sized
  parse_sized-Bounded container st next version obj_type s h =
      let body = read_body-remain version obj_type (record st { remain = [] }) s in
      elim (Bool-cases (ltb (length container) next)) [
        | inl cut ↦ rw cut (inl (to_int32_small (length container) h), omega arith)
        | inr whole ↦ rw whole (inr (inl body), omega (arith, ap (length {A = ℕ}) body))
      ]

  parse_object-Bounded :
      (container : QByteArray) (st : BlfState F)
      → length container < 2 ^ 31
      → length st.remain ≤ length container
      → Bounded container (parse_object stream index_of container st)
  unfolding parse_object parse_at
  parse_object-Bounded container st h r = elim (Bool-cases (ltb (length container) 16)) [
    | inl short ↦ rw short (inl (to_int32_small (length container) h), omega arith)
    | inr long ↦ rw long (elim (Option-cases (index_of container 0)) [
      | inl e ↦ rw e (inr (inr refl), r)
      | inr (i, e) ↦ rw e (parse_sized-Bounded container st _ _ _ _ h)
    ])
  ]

  -- The next round of the loop from the result of an object.
  abbrev next_round : ℕ → QByteArray → ℤ → BlfState F → Outcome (BlfState F)
  next_round fuel container ret st = elim ret [
    | negsuc n ↦ ok st
    | pos n ↦ elim n [
      | zero ↦ ok st
      | suc k ↦ parse_container stream index_of fuel (drop (suc k) container) st
    ]
  ]

  -- The loop ends, with at most `n` bytes that remain.
  abbrev pub Ends : ℕ → Outcome (BlfState F) → Type 0
  Ends n o = (st : BlfState F) × (o ≡ ok st) × (length st.remain ≤ n)

  next_round_total :
      (n fuel : ℕ) (container : QByteArray) (ret : ℤ) (st : BlfState F)
      → length st.remain ≤ n
      → ((k : ℕ)
          → ret ≡ pos (suc k)
          → Ends n (parse_container stream index_of fuel (drop (suc k) container) st))
      → Ends n (next_round fuel container ret st)
  next_round_total n fuel container (negsuc m) st h go = (st, refl, h)
  next_round_total n fuel container (pos zero) st h go = (st, refl, h)
  next_round_total n fuel container (pos (suc k)) st h go = go k refl

  parse_container-empty :
      (fuel : ℕ) (bytes : QByteArray) (st : BlfState F)
      → bytes ≡ []
      → parse_container stream index_of fuel bytes st ≡ ok st
  unfolding parse_container
  parse_container-empty fuel bytes st e = rw e

  widen : {m n : ℕ} {o : Outcome (BlfState F)} → m ≤ n → Ends m o → Ends n o
  widen le (st, e, h) = (st, e, omega (arith, le, h))

  -- The loop over the objects of a container ends: fewer than 2^31 bytes, those that remained before
  -- included, take at most one round more than they are, and at most as many remain.
  pub parse_container_total :
      (fuel : ℕ) (bytes : QByteArray) (st : BlfState F)
      → length st.remain + length bytes < 2 ^ 31
      → length st.remain + length bytes < fuel
      → Ends (length st.remain + length bytes) (parse_container stream index_of fuel bytes st)
  unfolding parse_container
  parse_container_total fuel [] st small enough = (st, refl, omega arith)
  parse_container_total zero (b ∷ bs) st small enough = absurd (omega arith)
  parse_container_total (suc fuel) (b ∷ bs) st small enough =
      let container : QByteArray = st.remain ++ b ∷ bs in
      let r : ℤ × BlfState F = parse_object stream index_of container st in
      let size : length container ≡ length st.remain + suc (length bs) =
        length-append st.remain (b ∷ bs) in
      let left = parse_object-Bounded container st (omega arith) (omega arith) in
      next_round_total (length st.remain + suc (length bs)) fuel container r.0 r.1
        (omega (arith, left.1))
        λ k e. elim (left.0) [
          | inl all ↦
              let n : suc k ≡ length container = pos_injective (sym e ∙ all) in
              (
                r.1,
                parse_container-empty fuel _ r.1 (drop_all (suc k) container (omega arith)),
                omega (arith, left.1),
              )
          | inr (inl none_left) ↦
              widen (omega (arith, ap (length {A = ℕ}) none_left, length-drop (suc k) container)) (
                parse_container_total fuel (drop (suc k) container) r.1
                  (omega (arith, ap (length {A = ℕ}) none_left, length-drop (suc k) container))
                  (omega (arith, ap (length {A = ℕ}) none_left, length-drop (suc k) container)))
          | inr (inr stopped) ↦ absurd (pos≢negsuc (sym e ∙ stopped))
        ]
