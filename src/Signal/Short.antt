-- ===== src/Signal/Short.antt =====
-- Signals that do not start at a byte: inside one byte, and across a byte border.
use native.Mathlib.Nat.{
  div-div-eq-div-mul, add-mul-div_left, add-mul-mod_self_left, mod-lt, one-le-pow, pow-le-pow_right,
}
use can_tracer.Prelude.{
  ℕ, zero, suc, ◌+◌, ◌-◌, ◌*◌, ◌/◌, ◌%◌, ◌^◌, ◌≤◌, ◌<◌, ◌≡◌, some, Bool, true, false, [], ◌∷◌,
  arith, get_elem?, drop, ap,
}
use can_tracer.Prelude.Bits.{pow-add}
use can_tracer.Prelude.Outcome.{ok, ◌>>=◌}
use can_tracer.Can.{CanData}
use can_tracer.Signal.{gather, raw_of, shift_int}
use can_tracer.Can.Logged.{IsData}
use can_tracer.Signal.Gather.{byte_at, room, room_lem, gather_last}
use can_tracer.Signal.Aligned.{payload, payload-drop-suc, payload-div}
use can_tracer.Signal.Intel.{intel_field}

-- The payload from a bit on, by the byte that holds the bit.
pub payload_from :
    (input : CanData) (start : ℕ) {b : ℕ}
    → IsData input
    → get_elem? input (start / 8) ≡ some b
    → payload input / 2 ^ start
      ≡ b / 2 ^ (start % 8) + 2 ^ room start * payload (drop (suc (start / 8)) input)
payload_from input start {b} v e =
    let i : ℕ = start / 8 in
    let p : ℕ = payload (drop (suc i) input) in
    let r : ℕ = start % 8 in
    let unit : 0 < 2 ^ r = one-le-pow r 2 (omega arith) in
    let at : 8 * i + r ≡ start = omega arith in
    let sum : r + room start ≡ 8 = omega (arith, room_lem start) in
    let split : 2 ^ start ≡ 2 ^ (8 * i) * 2 ^ r = rw at at (pow-add 2 (8 * i) r) in
    let whole : 2 ^ 8 ≡ 2 ^ r * 2 ^ room start = rw sum at (pow-add 2 r (room start)) in
    let regroup : b + 256 * p ≡ b + 2 ^ r * (2 ^ room start * p) =
      omega (arith, ap (λ (t : ℕ). t * p) whole) in
    rw
      (
        split,
        ← div-div-eq-div-mul,
        payload-div input i v.bytes,
        payload-drop-suc input i e,
        regroup,
      )
      (add-mul-div_left b (2 ^ room start * p) unit)

-- A multiple of 2^k does not change the lowest bits.
mod_low : (x p len k : ℕ) → len ≤ k → (x + 2 ^ k * p) % 2 ^ len ≡ x % 2 ^ len
mod_low x p len k h =
    let sum : len + (k - len) ≡ k = omega arith in
    let split : 2 ^ k ≡ 2 ^ len * 2 ^ (k - len) = rw sum at (pow-add 2 len (k - len)) in
    let regroup : 2 ^ k * p ≡ 2 ^ len * (2 ^ (k - len) * p) =
      omega (arith, ap (λ (t : ℕ). t * p) split) in
    rw (regroup, add-mul-mod_self_left)

raw_of_one : (big : Bool) (d : ℕ) → d < 256 → raw_of big (d ∷ []) ≡ ok d
unfolding raw_of shift_int
raw_of_one true d h = ground arith
raw_of_one false d h = ground arith

pub byte_lt : (x len : ℕ) → len ≤ 8 → x % 2 ^ len < 256
byte_lt x len h = omega (
  arith,
  mod-lt x (one-le-pow len 2 (omega arith)),
  pow-le-pow_right {n = 2} (omega arith) {j = 8} h,
)

-- A signal of 1 to 8 bits inside one byte gives its bits, in either byte order.
pub raw-one_byte :
    (big : Bool) (input : CanData) (start len : ℕ)
    → IsData input
    → 0 < len
    → start % 8 + len ≤ 8
    → start < 64
    → (gather len input start len >>= raw_of big) ≡ ok (intel_field input start len)
raw-one_byte big input start zero v pos fits inside = absurd (omega arith)
raw-one_byte big input start (suc k) v pos fits inside =
    let (b, e, h) = byte_at input (start / 8) v (omega arith) in
    let last = gather_last k input start k e h (omega (arith, room_lem start)) in
    let tail' : ℕ = payload (drop (suc (start / 8)) input) in
    rw
      (
        last,
        payload_from input start v e,
        mod_low (b / 2 ^ (start % 8)) tail' (suc k) (room start) (omega (arith, room_lem start)),
      )
      (raw_of_one big (b / 2 ^ (start % 8) % 2 ^ suc k) (byte_lt _ (suc k) (omega arith)))
