-- ===== src/Signal.antt =====
-- src/canmsg.cpp, CanSignal::parseSignal: the bits of a signal are cut out of the payload, put
-- together to a 64-bit number, given their sign, and scaled.
pub mod Gather
pub mod Aligned
pub mod Intel
pub mod Sign
pub mod Short
pub mod Crossing
pub mod Motorola
pub mod Parse
pub mod Value
pub mod TopBit
use can_tracer.Prelude.{
  ℕ, zero, suc, ◌+◌, ◌-◌, ◌*◌, ◌/◌, ◌%◌, ◌^◌, Bool, true, false, ◌||◌, List, [], ◌∷◌, ltb, leb,
  ◌==◌, if◌then◌else◌, get_elem?,
}
use can_tracer.Prelude.Int.{ℤ, pos, negsuc}
use can_tracer.Prelude.Outcome.{
  Outcome, ok, fault, out_of_range, undefined_shift, out_of_fuel, ◌>>=◌, or_fault,
}
use can_tracer.Qt.{Double}
use can_tracer.Can.{CanData, CanSignal, get_nbit}

abbrev pub bits_in_byte : ℕ
bits_in_byte = 8

abbrev pub u64 : ℕ → ℕ
u64 n = n % 2 ^ 64

-- What one round of the loop appends, and the new values of `startBit` and `len`.
pub record Chunk : Type 0 where
  pub byte : ℕ
  pub start_bit : ℕ  -- uint8_t
  pub len : ℕ  -- uint8_t

unfoldable pub cut : ℕ → ℕ → ℕ → Chunk
cut input_byte start_bit len =
    let remain = start_bit % bits_in_byte in
    let bit2get = bits_in_byte - remain in
    if remain == 0
    then if leb bits_in_byte len
      then record {
        byte = input_byte;
        start_bit = (start_bit + bits_in_byte) % 256;
        len = len - bits_in_byte;
      }
      else record { byte = get_nbit input_byte len; start_bit = start_bit; len = 0 }
    else if ltb bit2get len
    then record {
      byte = get_nbit (input_byte / 2 ^ remain) bit2get;
      start_bit = (start_bit + bit2get) % 256;
      len = len - bit2get;
    }
    else record { byte = get_nbit (input_byte / 2 ^ remain) len; start_bit = start_bit; len = 0 }

-- `while (len)`. Each round takes at least one bit, so `len` rounds are enough.
unfoldable pub gather : ℕ → CanData → ℕ → ℕ → Outcome (List ℕ)
gather fuel input start_bit zero = ok []
gather zero input start_bit (suc len) = fault out_of_fuel
gather (suc fuel) input start_bit (suc len) = do
  input_byte ← or_fault out_of_range (get_elem? input (start_bit / bits_in_byte))
  let c = cut input_byte start_bit (suc len)
  rest ← gather fuel input c.start_bit c.len
  ok (c.byte ∷ rest)

unfoldable pub raw_big_endian : ℕ → List ℕ → ℕ
raw_big_endian raw [] = raw
raw_big_endian raw (d ∷ ds) = raw_big_endian (u64 (u64 (raw * 2 ^ bits_in_byte) + d)) ds

-- `d << shiftCnt` for a byte that is promoted to `int`, widened to uint64_t in the sum: the shifted
-- value wraps to 32 bits and is sign extended to 64.
unfoldable pub shift_int : ℕ → ℕ → Outcome ℕ
shift_int d shift =
    let low = d * 2 ^ shift % 2 ^ 32 in
    if leb 32 shift
    then fault undefined_shift
    else ok (if ltb low (2 ^ 31) then low else low + (2 ^ 64 - 2 ^ 32))

unfoldable pub raw_little_endian : ℕ → ℕ → List ℕ → Outcome ℕ
raw_little_endian raw shift [] = ok raw
raw_little_endian raw shift (d ∷ ds) = do
  shifted ← shift_int d shift
  raw_little_endian (u64 (raw + shifted)) (shift + bits_in_byte) ds

unfoldable pub raw_of : Bool → List ℕ → Outcome ℕ
unfolding raw_big_endian raw_little_endian
raw_of true ds = ok (raw_big_endian 0 ds)
raw_of false ds = raw_little_endian 0 0 ds

-- The shift of a uint64_t.
abbrev pub shift_u64 : ℕ → ℕ → Outcome ℕ
shift_u64 shift n = if leb 64 shift then fault undefined_shift else ok n

-- A uint64_t read as an int64_t.
abbrev pub to_int64 : ℕ → ℤ
to_int64 n = if ltb n (2 ^ 63) then pos n else negsuc (2 ^ 64 - n - 1)

-- The number that `raw` stands for. uint64_t subtraction wraps.
unfoldable pub with_sign : Bool → ℕ → ℕ → Outcome ℤ
with_sign false len raw = ok (pos raw)
with_sign true len raw = do
  sign_bit ← shift_u64 (len - 1) (raw / 2 ^ (len - 1))
  if sign_bit == 0 then ok (pos raw) else (do
    mask ← if len == 64 then ok (2 ^ 64 - 1) else shift_u64 len (2 ^ len - 1)
    ok (to_int64 (u64 (u64 (raw + 2 ^ 64 - mask) + 2 ^ 64 - 1))))

module _ {F : Type 0} ⦃d : Double F⦄ where
  abbrev pub is_invalid : CanSignal F → ℕ → Bool
  is_invalid signal dlc =
      ltb (dlc * bits_in_byte) (signal.start_bit + signal.len) || signal.len == 0

  unfoldable pub parse_value : CanSignal F → CanData → Outcome F
  parse_value signal input = do
    bytes ← gather signal.len input signal.start_bit signal.len
    raw ← raw_of signal.is_big_endian bytes
    number ← with_sign signal.is_signed signal.len raw
    ok (d.add (d.mul (d.of_int number) signal.scale) signal.offset)

  unfoldable pub parse_signal : CanSignal F → CanData → ℕ → Outcome F
  parse_signal signal input dlc =
      if is_invalid signal dlc then ok d.nan else parse_value signal input
