-- ===== src/Blf/Reads.antt =====
-- The reads of src/blfparser.cpp move the stream on.
use can_tracer.Prelude.{ℕ, zero, suc, ◌+◌, ◌≤◌, ◌≡◌, true, [], ◌∷◌, arith, length}
use can_tracer.Prelude.Int.{ℤ}
use can_tracer.Qt.{QByteArray, DataStream, str_eq}
use can_tracer.Blf.{skip_u8, get_date_time, fill, lobj, time_size}

-- What the code relies on in QDataStream: `left` counts the bytes that are left. Reading and skipping do
-- not go back, and a raw read moves over the bytes that it gives.
pub record Consumes {S : Type 0} (stream : DataStream S) (left : S → ℕ) : Type 0 where
  pub u8_le : (s : S) → left (stream.read_u8 s).1 ≤ left s
  pub u16_le : (s : S) → left (stream.read_u16 s).1 ≤ left s
  pub u32_le : (s : S) → left (stream.read_u32 s).1 ≤ left s
  pub u64_le : (s : S) → left (stream.read_u64 s).1 ≤ left s
  pub raw_le :
      (n : ℕ) (s : S) → left (stream.read_raw n s).1 + length (stream.read_raw n s).0 ≤ left s
  pub skip_le : (n : ℤ) (s : S) → left (stream.skip_raw n s) ≤ left s

-- The signature of an object is read in full.
pub signature_length : (raw : QByteArray) → str_eq (fill 4 raw) lobj ≡ true → 4 ≤ length raw
signature_length [] e = ground arith
signature_length (a ∷ []) e = ground arith
signature_length (a ∷ b ∷ []) e = ground arith
signature_length (a ∷ b ∷ c ∷ []) e = ground arith
signature_length (a ∷ b ∷ c ∷ x ∷ rest) e = omega arith

module _ {S : Type 0} (stream : DataStream S) (left : S → ℕ) (laws : Consumes stream left) where
  pub behind_header :
      (s : S) (n : ℕ) (k : ℤ)
      → left (
          stream.skip_raw k
            (stream.read_raw n
              (stream.read_u32 (stream.read_u32 (stream.read_u16 (stream.read_u16 s).1).1).1).1).1)
        ≤ left s
  behind_header s n k =
      let s1 : S = (stream.read_u16 s).1 in
      let s2 : S = (stream.read_u16 s1).1 in
      let s3 : S = (stream.read_u32 s2).1 in
      let s4 : S = (stream.read_u32 s3).1 in
      omega (
        arith,
        laws.u16_le s,
        laws.u16_le s1,
        laws.u32_le s2,
        laws.u32_le s3,
        laws.raw_le n s4,
        laws.skip_le k (stream.read_raw n s4).1,
      )

  skip_u8_le : (n : ℕ) (s : S) → left (skip_u8 stream n s) ≤ left s
  unfolding skip_u8
  skip_u8_le zero s = omega arith
  skip_u8_le (suc n) s = omega (arith, skip_u8_le n (stream.read_u8 s).1, laws.u8_le s)

  get_date_time_le : (n : ℕ) (s : S) → left (get_date_time stream n s) ≤ left s
  unfolding get_date_time
  get_date_time_le zero s = omega arith
  get_date_time_le (suc n) s =
      omega (arith, get_date_time_le n (stream.read_u16 s).1, laws.u16_le s)

  pub header_le :
      (s : S) (k : ℤ)
      → left (
          stream.skip_raw k (
            get_date_time stream time_size (
              get_date_time stream time_size
                (stream.read_u32
                  (stream.read_u32
                    (stream.read_u64 (stream.read_u64 (skip_u8 stream 8 s)).1).1).1).1)))
        ≤ left s
  header_le s k =
      let s1 : S = skip_u8 stream 8 s in
      let s2 : S = (stream.read_u64 s1).1 in
      let s3 : S = (stream.read_u64 s2).1 in
      let s4 : S = (stream.read_u32 s3).1 in
      let s5 : S = (stream.read_u32 s4).1 in
      let s6 : S = get_date_time stream time_size s5 in
      omega (
        arith,
        skip_u8_le 8 s,
        laws.u64_le s1,
        laws.u64_le s2,
        laws.u32_le s3,
        laws.u32_le s4,
        get_date_time_le time_size s5,
        get_date_time_le time_size s6,
        laws.skip_le k (get_date_time stream time_size s6),
      )
