-- ===== src/Signal/TopBit.antt =====
-- src/canmsg.cpp over src/dbcparser.cpp: a big-endian signal of whole bytes whose start bit is the one
-- a DBC file gives, the highest bit of its first byte.
use native.Mathlib.Decide.{dec_le}
use native.Mathlib.Nat.{pow-suc}
use can_tracer.Prelude.{
  ℕ, zero, suc, ◌+◌, ◌-◌, ◌*◌, ◌/◌, ◌%◌, ◌^◌, ◌≤◌, ◌<◌, ◌≡◌, refl, ◌∙◌, true, false, List, [], ◌∷◌,
  arith, leb, if◌then◌else◌, some, get_elem?, drop, ap,
}
use can_tracer.Prelude.Int.{pos}
use can_tracer.Prelude.Outcome.{ok, ◌>>=◌, >>=_assoc}
use can_tracer.Qt.{Double}
use can_tracer.Can.{CanData, CanSignal}
use can_tracer.Can.Logged.{IsData}
use can_tracer.Signal.{
  gather, raw_big_endian, raw_of, with_sign, is_invalid, parse_value, parse_signal,
}
use can_tracer.Signal.Gather.{byte_at, room, room_lem, gather_more}
use can_tracer.Signal.Aligned.{aligned_last, aligned_whole}
use can_tracer.Signal.Motorola.{big_number, motorola_field, big_number-drop, big_step}
use can_tracer.Signal.Value.{physical}

big_number-one :
    (input : CanData) (i : ℕ) {b : ℕ} → get_elem? input i ≡ some b → motorola_field input i 1 ≡ b
big_number-one input i e = rw (big_number-drop input i 0 e) (omega arith)

-- The highest bit of byte i, the n bytes behind it, and seven bits of the byte behind those.
abbrev pub late_field : CanData → ℕ → ℕ → ℕ
late_field input i n =
    motorola_field input i 1 / 128 * 256 ^ suc n
    + motorola_field input (suc i) n * 256
    + motorola_field input (i + suc n) 1 % 128

late_loop :
    (n fuel : ℕ) (input : CanData) (i k raw : ℕ)
    → IsData input
    → 8 * n + 7 ≤ fuel
    → i + n ≤ 7
    → k + n ≤ 7
    → raw < 256 ^ k
    → (bytes : List ℕ) × (gather fuel input (8 * i) (8 * n + 7) ≡ ok bytes)
      × (raw_big_endian raw bytes
          ≡ raw * 256 ^ suc n
            + big_number (drop i input) n * 256
            + motorola_field input (i + n) 1 % 128)
late_loop n zero input i k raw v f fits small low = absurd (omega arith)
late_loop zero (suc fuel) input i k raw v f fits small low =
    let (b, e, h) = byte_at input i v (omega arith) in
    let here : i + 0 ≡ i = omega arith in
    let done : raw_big_endian (raw * 256 + b % 128) [] ≡ raw * 256 + b % 128 =
      unfold raw_big_endian in refl in
    (
      b % 2 ^ 7 ∷ [],
      aligned_last fuel input i 6 e h (omega arith),
      big_step raw (b % 128) [] k (omega arith) low (omega arith)
          ∙ done
          ∙ rw (here, big_number-one input i e) (omega arith),
    )
late_loop (suc n) (suc fuel) input i k raw v f fits small low =
    let (b, e, h) = byte_at input i v (omega arith) in
    let width : 8 * suc n + 7 ≡ suc (8 * n + 14) = omega arith in
    let raw' : raw * 256 + b < 256 ^ (suc k) = omega (arith, pow-suc 256 k) in
    let next : i + suc n ≡ suc i + n = omega arith in
    let (rest, ih, sum) =
      late_loop n fuel input (suc i) (suc k) (raw * 256 + b) v (omega arith) (omega arith)
        (omega arith) raw' in
    (
      b ∷ rest,
      rw width (
          aligned_whole fuel input i (8 * n + 14) e h (omega arith) (omega arith)
            (let left : suc (8 * n + 14) - 8 ≡ 8 * n + 7 = omega arith in rw left ih)),
      big_step raw b rest k (omega arith) low h
          ∙ sum
          ∙ rw (big_number-drop input i n e, next)
              (omega (
                arith,
                pow-suc 256 n,
                ap (λ (t : ℕ). raw * t) (pow-suc 256 (suc n)),
                ap (λ (t : ℕ). b * t) (pow-suc 256 n),
              )),
    )

raw-late_field :
    (input : CanData) (i n : ℕ)
    → IsData input
    → i + suc n ≤ 7
    → (gather (8 * suc n) input (8 * i + 7) (8 * suc n) >>= raw_of true) ≡ ok (late_field input i n)
unfolding raw_of
raw-late_field input i n v fits =
    let (b, e, h) = byte_at input i v (omega arith) in
    let (rest, g, r) =
      late_loop n (8 * n + 7) input (suc i) 1 (b / 128) v (omega arith) (omega arith) (omega arith)
        (omega arith) in
    let width : 8 * suc n ≡ suc (8 * n + 7) = omega arith in
    let one : room (8 * i + 7) ≡ 1 = omega (arith, room_lem (8 * i + 7)) in
    let at : (8 * i + 7) / 8 ≡ i = omega arith in
    let within : (8 * i + 7) % 8 ≡ 7 = omega arith in
    let top : b / 2 ^ 7 % 2 ^ 1 ≡ b / 128 = omega arith in
    let next : 8 * i + 7 + 1 ≡ 8 * suc i = omega arith in
    let first =
      gather_more (8 * n + 7) input (8 * i + 7) (8 * n + 7) {rest = rest} (rw at e) h (omega arith)
        (rw one (omega arith))
        (let left : suc (8 * n + 7) - 1 ≡ 8 * n + 7 = omega arith in rw (one, next, left) g) in
    let first' = rw (within, one, top) at first in
    let seed : raw_big_endian 0 (b / 128 ∷ rest) ≡ raw_big_endian (b / 128) rest =
      let plain : 0 * 256 + b / 128 ≡ b / 128 = omega arith in
      let step = big_step 0 (b / 128) rest 0 (omega arith) (omega arith) (omega arith) in
      rw plain at step in
    let last : i + suc n ≡ suc i + n = omega arith in
    rw (width, first', seed, r) (ap ok (rw (big_number-one input i e, last) refl))

module _ {F : Type 0} ⦃d : Double F⦄ where
  -- In a payload of eight bytes, an unsigned big-endian signal of n + 1 whole bytes that starts at the highest bit of
  -- byte i, as a DBC file states it, has for its value the highest bit of byte i, the n bytes behind it and the seven low bits of the byte behind
  -- those if there is one, and no number if its last byte is the last of the frame.
  pub parse_signal-late_field :
      (signal : CanSignal F) (input : CanData) (i n : ℕ)
      → IsData input
      → signal.is_big_endian ≡ true
      → signal.is_signed ≡ false
      → signal.start_bit ≡ 8 * i + 7
      → signal.len ≡ 8 * suc n
      → i + n ≤ 7
      → parse_signal signal input 8
        ≡ ok (if leb (i + suc n) 7 then physical signal (pos (late_field input i n)) else d.nan)
  unfolding parse_signal parse_value with_sign
  parse_signal-late_field signal input i n v big unsigned start length fits =
      elim (dec_le (i + suc n) 7) [
        | yes inside ↦
            let valid : is_invalid signal 8 ≡ false = rw (start, length) (ground arith) in
            let shown : leb (i + suc n) 7 ≡ true = ground arith in
            rw (valid, shown, unsigned, big, start, length)
              (>>=_assoc (gather (8 * suc n) input (8 * i + 7) (8 * suc n)) (raw_of true) _
                ∙ rw (raw-late_field input i n v inside) refl)
        | no outside ↦
            let invalid : is_invalid signal 8 ≡ true = rw (start, length) (ground arith) in
            let hidden : leb (i + suc n) 7 ≡ false = ground arith in rw (invalid, hidden) refl
      ]
