-- ===== src/Signal/Parse.antt =====
-- `parse_signal` as a whole: when it fails, and what it returns.
use native.Mathlib.Decide.{dec_lt}
use can_tracer.Prelude.{
  ℕ, suc, ◌+◌, ◌-◌, ◌*◌, ◌/◌, ◌%◌, ◌^◌, ◌≤◌, ◌<◌, ◌≡◌, refl, ◌∙◌, some, none, Option, Bool, true,
  false, not, ◌&&◌, ◌||◌, List, [], ◌∷◌, arith, length, ltb, ◌==◌, if◌then◌else◌,
}
use can_tracer.Prelude.Outcome.{
  Outcome, Fault, out_of_range, undefined_shift, ok, fault, ◌>>=◌, failure,
}
use can_tracer.Qt.{Double}
use can_tracer.Can.{CanData, CanSignal}
use can_tracer.Signal.{
  raw_little_endian, raw_of, shift_int, u64, with_sign, is_invalid, parse_value, parse_signal,
}
use can_tracer.Can.Logged.{IsData}
use can_tracer.Signal.Gather.{gather_total, gather_out_of_range}
use can_tracer.Signal.Sign.{with_sign_total}

-- The bytes of the payload that a signal touches.
abbrev pub touched : ℕ → ℕ → ℕ
touched start len = (start % 8 + len + 7) / 8

-- The fault of a signal by its place, its length and its byte order.
abbrev pub expected_fault : ℕ → ℕ → Bool → ℕ → Option Fault
expected_fault start len big dlc =
    if ltb (8 * dlc) (start + len) || len == 0
    then none
    else if ltb 64 (start + len)
    then some out_of_range
    else if not big && ltb 4 (touched start len)
    then some undefined_shift
    else none

shift_int_defined : (d shift : ℕ) → shift < 32 → (x : ℕ) × (shift_int d shift ≡ ok x)
unfolding shift_int
shift_int_defined d shift h =
    let low : ℕ = d * 2 ^ shift % 2 ^ 32 in
    (if ltb low (2 ^ 31) then low else low + (2 ^ 64 - 2 ^ 32), ground arith)

shift_int_undefined : (d : ℕ) → shift_int d 32 ≡ fault undefined_shift
unfolding shift_int
shift_int_undefined d = refl

-- Bytes from the shift 8 * k on: the fifth byte of a number is shifted too far.
little_failure :
    (ds : List ℕ) (raw k : ℕ)
    → k ≤ 4
    → failure (raw_little_endian raw (8 * k) ds)
      ≡ (if ltb 4 (k + length ds) then some undefined_shift else none)
unfolding raw_little_endian
little_failure [] raw k h = ground arith
little_failure (d ∷ ds) raw k h = elim (dec_lt k 4) [
  | yes small ↦
      let (x, e) = shift_int_defined d (8 * k) (omega arith) in
      let next : 8 * k + 8 ≡ 8 * suc k = omega arith in
      let count : k + suc (length ds) ≡ suc k + length ds = omega arith in
      rw (e, next, count) (little_failure ds (u64 (raw + x)) (suc k) (omega arith))
  | no large ↦ let four : k ≡ 4 = omega arith in rw (four, shift_int_undefined d) (ground arith)
]

raw_failure :
    (big : Bool) (ds : List ℕ)
    → failure (raw_of big ds)
      ≡ (if not big && ltb 4 (length ds) then some undefined_shift else none)
unfolding raw_of
raw_failure true ds = refl
raw_failure false ds =
    let none' : 0 + length ds ≡ length ds = omega arith in
    rw none' at (little_failure ds 0 0 (omega arith))

-- A failure goes through a bind; what follows a success decides.
failure->>= {ℓ κ} :
    {A : Type ℓ} {B : Type κ} (m : Outcome A) (f : A → Outcome B)
    → ((a : A) → failure (f a) ≡ none)
    → failure (m >>= f) ≡ failure m
failure->>= (ok a) f h = h a
failure->>= (fault e) f h = refl

module _ {F : Type 0} ⦃d : Double F⦄ where
  value_failure :
      (signal : CanSignal F) (input : CanData)
      → IsData input
      → 0 < signal.len
      → signal.start_bit + signal.len ≤ 64
      → failure (parse_value signal input) ≡ (
          if not signal.is_big_endian && ltb 4 (touched signal.start_bit signal.len)
          then some undefined_shift
          else none)
  unfolding parse_value
  value_failure signal input v pos fits =
      let (bytes, g, n) =
        gather_total signal.len input signal.start_bit signal.len v (omega arith) fits in
      rw (g, ← n pos)
        (failure->>= (raw_of signal.is_big_endian bytes) _ (λ raw.
            failure->>= (with_sign signal.is_signed signal.len raw) _ (λ _. refl)
            ∙ with_sign_total signal.is_signed signal.len raw (omega arith))
          ∙ raw_failure signal.is_big_endian bytes)

  value_out_of_range :
      (signal : CanSignal F) (input : CanData)
      → IsData input
      → 0 < signal.len
      → 64 < signal.start_bit + signal.len
      → parse_value signal input ≡ fault out_of_range
  unfolding parse_value
  value_out_of_range signal input v pos out =
      rw (gather_out_of_range signal.len input signal.start_bit signal.len v (omega arith) pos out)

  -- For a payload of eight bytes: a signal with no bits, or with bits past the length of the frame, is NaN. In general parseSignal
  -- fails exactly as the table of `expected_fault` says: a signal inside the frame that reaches past
  -- the eight bytes throws out_of_range; a little-endian one inside them that touches more than four
  -- bytes shifts an int by 32 or more; every other one gives a value.
  pub failure-parse_signal :
      (signal : CanSignal F) (input : CanData) (dlc : ℕ)
      → IsData input
      → (is_invalid signal dlc ≡ true → parse_signal signal input dlc ≡ ok d.nan)
        × (failure (parse_signal signal input dlc)
            ≡ expected_fault signal.start_bit signal.len signal.is_big_endian dlc)
  unfolding parse_signal
  failure-parse_signal signal input dlc v = (
    λ h. ground arith,
    ground (arith, value_failure signal input v, value_out_of_range signal input v),
  )
