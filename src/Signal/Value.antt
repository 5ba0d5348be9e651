-- ===== src/Signal/Value.antt =====
-- What `parse_signal` returns for a little-endian signal that starts at a byte, and for one inside a byte.
use native.Mathlib.Nat.{mod-lt, one-le-pow}
use can_tracer.Prelude.{
  ℕ, ◌+◌, ◌-◌, ◌⊎◌, inl, inr, refl, if◌then◌else◌, Bool-cases, ◌*◌, ◌%◌, ◌^◌, ◌≤◌, ◌<◌, ◌≡◌, ◌∙◌,
  false, arith,
}
use can_tracer.Prelude.Int.{ℤ}
use can_tracer.Prelude.Outcome.{ok, ◌>>=◌, >>=_assoc}
use can_tracer.Qt.{Double}
use can_tracer.Can.{CanData, CanSignal}
use can_tracer.Signal.{gather, raw_of, is_invalid, parse_value, parse_signal}
use can_tracer.Can.Logged.{IsData}
use can_tracer.Signal.Sign.{with_sign_lem, signed_value}
use can_tracer.Signal.Intel.{intel_field, raw-intel_field}
use can_tracer.Signal.Short.{raw-one_byte}

module _ {F : Type 0} ⦃d : Double F⦄ where
  -- The physical value of a number.
  abbrev pub physical : CanSignal F → ℤ → F
  physical signal number = d.add (d.mul (d.of_int number) signal.scale) signal.offset

  module _ (signal : CanSignal F) (input : CanData) (dlc : ℕ) (pos : 0 < signal.len)
      (short : signal.len ≤ 64) (inside : signal.start_bit + signal.len ≤ dlc * 8) where
    parse_of_raw :
        (raw : ℕ)
        → (gather signal.len input signal.start_bit signal.len >>= raw_of signal.is_big_endian)
          ≡ ok raw
        → raw < 2 ^ signal.len
        → parse_signal signal input dlc
          ≡ ok (physical signal (signed_value signal.is_signed signal.len raw))
    unfolding parse_signal parse_value
    parse_of_raw raw e small =
        let valid : is_invalid signal dlc ≡ false = ground arith in
        rw valid (
          >>=_assoc (gather signal.len input signal.start_bit signal.len)
            (raw_of signal.is_big_endian) _
          ∙ rw (e, with_sign_lem signal.is_signed signal.len raw pos short small))

  -- In a payload of eight bytes, a little-endian signal of 1 to 31 bits that starts at a byte and lies
  -- in the payload and in the frame has the physical value of its bits in the order of the DBC format, read in two's complement if it is signed.
  pub parse_signal-intel_field :
      (signal : CanSignal F) (input : CanData) (dlc : ℕ)
      → IsData input
      → signal.is_big_endian ≡ false
      → signal.start_bit % 8 ≡ 0
      → 0 < signal.len
      → signal.len ≤ 31
      → signal.start_bit + signal.len ≤ 64
      → signal.start_bit + signal.len ≤ dlc * 8
      → parse_signal signal input dlc
        ≡ ok (
            physical signal (
              signed_value signal.is_signed signal.len
                (intel_field input signal.start_bit signal.len)))
  parse_signal-intel_field signal input dlc v little whole pos small fits inside =
      parse_of_raw signal input dlc pos (omega arith) inside _
        (rw little (raw-intel_field input signal.start_bit signal.len v whole small fits))
        (mod-lt _ (one-le-pow signal.len 2 (omega arith)))

  -- The bits that the DBC format means for a signal inside one byte: the start bit is the lowest of a little-endian
  -- signal, and the highest of a big-endian one.
  abbrev pub bits_of_format : CanSignal F → CanData → ℕ
  bits_of_format signal input =
      intel_field input
        (if signal.is_big_endian then signal.start_bit + 1 - signal.len else signal.start_bit)
        signal.len

  same_bits :
      (signal : CanSignal F) (input : CanData)
      → signal.is_big_endian ≡ false ⊎ signal.len ≡ 1
      → bits_of_format signal input ≡ intel_field input signal.start_bit signal.len
  same_bits signal input (inl little) = rw little refl
  same_bits signal input (inr one) = elim (Bool-cases signal.is_big_endian) [
    | inl e ↦
        let at : signal.start_bit + 1 - 1 ≡ signal.start_bit = omega arith in rw (e, one, at) refl
    | inr e ↦ rw e refl
  ]

  -- In a payload of eight bytes, a signal of 1 to 8 bits that from the start bit up lie inside one byte of the frame has the
  -- physical value of these bits, whatever its byte order. They are the bits of the DBC format for a
  -- little-endian signal and for one of a single bit; a longer big-endian one goes down from its start bit there.
  pub parse_signal-one_byte :
      (signal : CanSignal F) (input : CanData) (dlc : ℕ)
      → IsData input
      → 0 < signal.len
      → signal.start_bit % 8 + signal.len ≤ 8
      → signal.start_bit < 64
      → signal.start_bit + signal.len ≤ dlc * 8
      → let value = λ (bits : ℕ). physical signal (signed_value signal.is_signed signal.len bits) in
        (parse_signal signal input dlc ≡ ok (value (intel_field input signal.start_bit signal.len)))
        × (signal.is_big_endian ≡ false ⊎ signal.len ≡ 1
            → parse_signal signal input dlc ≡ ok (value (bits_of_format signal input)))
  parse_signal-one_byte signal input dlc v pos fits small inside =
      let shown =
        parse_of_raw signal input dlc pos (omega arith) inside _
          (raw-one_byte signal.is_big_endian input signal.start_bit signal.len v pos fits small)
          (mod-lt _ (one-le-pow signal.len 2 (omega arith))) in
      (shown, (λ agree. rw (same_bits signal input agree) shown))
