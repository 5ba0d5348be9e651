-- ===== src/Signal/Aligned.antt =====
-- The loop for a signal that starts at a byte: it appends whole bytes, and the rest of the last one.
use native.Mathlib.Decide.{dec_lt}
use native.Mathlib.Nat.{add-mul-mod_self_left, zero-div, div-div-eq-div-mul}
use can_tracer.Prelude.{
  ℕ, zero, suc, ◌+◌, ◌-◌, ◌*◌, ◌/◌, ◌%◌, ◌^◌, ◌≤◌, ◌<◌, ◌≡◌, refl, some, List, [], ◌∷◌, arith,
  get_elem?, drop, All, ap,
}
use can_tracer.Prelude.Bits.{pow-add}
use can_tracer.Prelude.Outcome.{ok}
use can_tracer.Can.{CanData}
use can_tracer.Signal.{gather}
use can_tracer.Signal.Gather.{room, room_lem, gather_last, gather_more}

-- The payload as one number, its first byte the lowest.
abbrev pub payload : CanData → ℕ
payload [] = 0
payload (b ∷ bs) = b + 256 * payload bs

pub payload-drop-suc :
    (input : CanData) (i : ℕ) {b : ℕ}
    → get_elem? input i ≡ some b
    → payload (drop i input) ≡ b + 256 * payload (drop (suc i) input)
payload-drop-suc [] i e = cc
payload-drop-suc (x ∷ xs) zero e = ground arith
payload-drop-suc (x ∷ xs) (suc i) e = payload-drop-suc xs i e

pub payload-div :
    (input : CanData) (i : ℕ)
    → All (λ b. b < 256) input
    → payload input / 2 ^ (8 * i) ≡ payload (drop i input)
payload-div input zero h = omega arith
payload-div [] (suc i) h = zero-div _
payload-div (b ∷ bs) (suc i) h =
    let more : 8 * suc i ≡ 8 + 8 * i = omega arith in
    let byte : (b + 256 * payload bs) / 2 ^ 8 ≡ payload bs = omega arith in
    rw (more, pow-add, ← div-div-eq-div-mul, byte) (payload-div bs i h.1)

pub mod-pow_low : (b p k : ℕ) → k ≤ 8 → (b + 256 * p) % 2 ^ k ≡ b % 2 ^ k
mod-pow_low b p k h =
    let split : 256 * p ≡ 2 ^ k * (2 ^ (8 - k) * p) =
      let whole : 2 ^ k * 2 ^ (8 - k) ≡ 256 =
        let sum : k + (8 - k) ≡ 8 = omega arith in rw (← pow-add, sum) in
      omega (arith, ap (λ (t : ℕ). t * p) whole) in
    rw (split, add-mul-mod_self_left)

pub aligned_last :
    (fuel : ℕ) (input : CanData) (i len : ℕ) {b : ℕ}
    → get_elem? input i ≡ some b
    → b < 256
    → suc len ≤ 8
    → gather (suc fuel) input (8 * i) (suc len) ≡ ok (b % 2 ^ suc len ∷ [])
aligned_last fuel input i len {b} e h fits =
    let at : 8 * i / 8 ≡ i = omega arith in
    let whole : 8 * i % 8 ≡ 0 = omega arith in
    let one : b / 2 ^ 0 ≡ b = omega arith in
    let round = gather_last fuel input (8 * i) len (rw at e) h (omega (arith, room_lem (8 * i))) in
    rw (whole, one) at round

pub aligned_more :
    (fuel : ℕ) (input : CanData) (i len : ℕ) {b : ℕ} {rest : List ℕ}
    → get_elem? input i ≡ some b
    → b < 256
    → i < 8
    → 8 < suc len
    → gather fuel input (8 * suc i) (suc len - 8) ≡ ok rest
    → gather (suc fuel) input (8 * i) (suc len) ≡ ok (b ∷ rest)
aligned_more fuel input i len {b} {rest} e h small more ih =
    let at : 8 * i / 8 ≡ i = omega arith in
    let whole : 8 * i % 8 ≡ 0 = omega arith in
    let eight : room (8 * i) ≡ 8 = omega (arith, room_lem (8 * i)) in
    let next : 8 * i + 8 ≡ 8 * suc i = omega arith in
    let one : b / 2 ^ 0 % 2 ^ 8 ≡ b = omega arith in
    let round =
      gather_more fuel input (8 * i) len {rest = rest} (rw at e) h (omega arith) (rw eight more)
        (rw (eight, next) ih) in
    rw (whole, eight, one) at round

-- A whole byte, whether or not more bits follow.
pub aligned_whole :
    (fuel : ℕ) (input : CanData) (i len : ℕ) {b : ℕ} {rest : List ℕ}
    → get_elem? input i ≡ some b
    → b < 256
    → i < 8
    → 8 ≤ suc len
    → gather fuel input (8 * suc i) (suc len - 8) ≡ ok rest
    → gather (suc fuel) input (8 * i) (suc len) ≡ ok (b ∷ rest)
aligned_whole fuel input i len {b} {rest} e h small enough ih = elim (dec_lt 8 (suc len)) [
  | yes more ↦ aligned_more fuel input i len e h small more ih
  | no last ↦
      let eight : suc len ≡ 8 = omega arith in
      let whole : b % 2 ^ suc len ≡ b = rw eight (omega arith) in
      let empty : gather fuel input (8 * suc i) 0 ≡ ok [] = unfold gather in refl in
      let ih' : gather fuel input (8 * suc i) 0 ≡ ok rest =
        let done : suc len - 8 ≡ 0 = omega arith in rw done at ih in
      cc (aligned_last fuel input i len e h (omega arith), whole, empty, ih')
]
