-- ===== src/Tests/Signals.antt =====
-- Signals of one frame.
use can_tracer.Prelude.{
  ◌⊎◌, leb, if◌then◌else◌, ℕ, ◌+◌, ◌%◌, ◌^◌, ◌<◌, ◌≡◌, ◌↔◌, refl, true, false, List, [], ◌∷◌, arith,
  none, some, Bool,
}
use can_tracer.Prelude.Int.{ℤ, pos, negsuc}
use can_tracer.Prelude.Outcome.{ok, undefined_shift, ◌>>=◌, failure}
use can_tracer.Qt.{Double}
use can_tracer.Can.{CanData, CanSignal}
use can_tracer.Can.Logged.{IsData}
use can_tracer.Signal.{parse_signal, gather, raw_of, is_invalid, with_sign}
use can_tracer.Signal.Value.{
  physical, bits_of_format, parse_signal-intel_field, parse_signal-one_byte,
}
use can_tracer.Signal.Parse.{failure-parse_signal, expected_fault}
use can_tracer.Signal.Intel.{intel_field}
use can_tracer.Signal.Crossing.{raw-crossing_iff}
use can_tracer.Signal.Motorola.{raw-motorola_field, motorola_field}
use can_tracer.Signal.TopBit.{parse_signal-late_field, late_field}
use can_tracer.Signal.Sign.{with_sign_lem, signed_value}
use can_tracer.Tests.Concrete.{Number, whole_numbers}

abbrev bytes : CanData
bytes = 0x12 ∷ 0x34 ∷ 0x56 ∷ 0x78 ∷ 0x9a ∷ 0xbc ∷ 0xde ∷ 0xf0 ∷ []

bytes-IsData : IsData bytes
bytes-IsData = record {
  size = refl;
  bytes = (
    omega arith,
    (
      omega arith,
      (omega arith, (omega arith, (omega arith, (omega arith, (omega arith, (omega arith, tt)))))),
    ),
  );
}

instance numbers : Double Number
numbers = whole_numbers

-- A signal that stands for itself: the scale is 1, the offset 0.
abbrev signal_at : ℕ → ℕ → Bool → Bool → CanSignal Number
signal_at start len big signed = record {
  start_bit = start;
  len = len;
  is_big_endian = big;
  is_signed = signed;
  scale = some (pos 1);
  offset = some (pos 0);
  min = some (pos 0);
  max = some (pos 0);
  name = [];
  unit = [];
  receiver = [];
  values = [];
}

parse_signal-intel_field_example :
    parse_signal (signal_at 8 16 false false) bytes 8
    ≡ ok (physical (signal_at 8 16 false false) (signed_value false 16 (intel_field bytes 8 16)))
parse_signal-intel_field_example =
    parse_signal-intel_field (signal_at 8 16 false false) bytes 8 bytes-IsData refl (omega arith)
      (omega arith) (omega arith) (omega arith) (omega arith)

intel_value :
    physical (signal_at 8 16 false false) (signed_value false 16 (intel_field bytes 8 16))
    ≡ some (pos 0x5634)
unfolding numbers can_tracer.Tests.Concrete.add_ℤ can_tracer.Prelude.Int.◌+ℤ◌
intel_value = refl

parse_signal-one_byte_example :
    (parse_signal (signal_at 4 3 true true) bytes 8
      ≡ ok (physical (signal_at 4 3 true true) (signed_value true 3 (intel_field bytes 4 3))))
    × ((signal_at 4 3 true true).is_big_endian ≡ false ⊎ (signal_at 4 3 true true).len ≡ 1
        → parse_signal (signal_at 4 3 true true) bytes 8
          ≡ ok (
              physical
                (signal_at 4 3 true true)
                (signed_value true 3 (bits_of_format (signal_at 4 3 true true) bytes))))
parse_signal-one_byte_example =
    parse_signal-one_byte (signal_at 4 3 true true) bytes 8 bytes-IsData (omega arith) (omega arith)
      (omega arith) (omega arith)

-- Here the two differ: the bits 4 to 6 of the first byte are read, and the bits 2 to 4 are meant.
read_up : intel_field bytes 4 (signal_at 4 3 true true).len ≡ 1
read_up = refl

meant_down : bits_of_format (signal_at 4 3 true true) bytes ≡ 4
meant_down = refl

failure-parse_signal_example :
    (is_invalid (signal_at 0 40 false false) 8 ≡ true
      → parse_signal (signal_at 0 40 false false) bytes 8 ≡ ok none)
    × (failure (parse_signal (signal_at 0 40 false false) bytes 8) ≡ expected_fault 0 40 false 8)
unfolding numbers
failure-parse_signal_example =
    failure-parse_signal (signal_at 0 40 false false) bytes 8 bytes-IsData

five_bytes : expected_fault 0 40 false 8 ≡ some undefined_shift
five_bytes = refl

raw-crossing_iff_example :
    (x : ℕ) × ((gather 8 bytes 4 8 >>= raw_of false) ≡ ok x)
    × ((x ≡ intel_field bytes 4 8) ↔ (intel_field bytes 4 8 < 2 ^ 4))
raw-crossing_iff_example =
    raw-crossing_iff bytes 4 8 bytes-IsData (omega arith) (omega arith) (omega arith) (omega arith)

-- The bits of 0x12 and 0x34 that the signal has are 0x41, and the loop gives 0x401.
crossing_value : intel_field bytes 4 8 ≡ 0x41
crossing_value = refl

crossing_raw : (gather 8 bytes 4 8 >>= raw_of false) ≡ ok 0x401
unfolding gather raw_of can_tracer.Signal.cut can_tracer.Signal.shift_int can_tracer.Can.get_nbit
crossing_raw = refl

raw-motorola_field_example : (gather 24 bytes 8 24 >>= raw_of true) ≡ ok (motorola_field bytes 1 3)
raw-motorola_field_example = raw-motorola_field bytes 1 3 bytes-IsData (omega arith)

motorola_value : motorola_field bytes 1 3 ≡ 0x345678
motorola_value = refl

parse_signal-late_field_example :
    parse_signal (signal_at 15 16 true false) bytes 8
    ≡ ok (
        if leb 3 7
        then physical (signal_at 15 16 true false) (pos (late_field bytes 1 1))
        else none)
unfolding numbers
parse_signal-late_field_example =
    parse_signal-late_field (signal_at 15 16 true false) bytes 1 1 bytes-IsData refl refl refl refl
      (omega arith)

-- The bytes of the signal are 0x34 and 0x56.
late_value : late_field bytes 1 1 ≡ 0x5678
late_value = refl

meant_value : motorola_field bytes 1 2 ≡ 0x3456
meant_value = refl

with_sign_lem_example : with_sign true 12 0xfff ≡ ok (signed_value true 12 0xfff)
with_sign_lem_example = with_sign_lem true 12 0xfff (omega arith) (omega arith) (omega arith)

minus_one : signed_value true 12 0xfff ≡ negsuc 0
minus_one = refl
