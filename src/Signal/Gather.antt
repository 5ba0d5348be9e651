-- ===== src/Signal/Gather.antt =====
-- The loop that cuts the bits of a signal out of the payload: when it ends, and what it reads.
use native.Mathlib.Decide.{dec_lt, ℕ_discrete}
use native.Mathlib.Nat.{mod-eq_of_lt, mod-le, div-le_self}
use can_tracer.Prelude.{
  ℕ, zero, suc, ◌+◌, ◌-◌, ◌*◌, ◌/◌, ◌%◌, ◌^◌, ◌≤◌, ◌<◌, ◌≡◌, refl, List, [], ◌∷◌, arith, length,
  some, get_elem?, get_elem?-some, get_elem?-none, All-get_elem?,
}
use can_tracer.Prelude.Bits.{bit_and_mask}
use can_tracer.Prelude.Outcome.{Fault, ok, fault, out_of_range}
use can_tracer.Can.{CanData, get_nbit}
use can_tracer.Can.Logged.{IsData}
use can_tracer.Signal.{cut, gather}

pub get_nbit_lem : (b n : ℕ) → b < 256 → get_nbit b n ≡ b % 2 ^ n
unfolding get_nbit
get_nbit_lem b n h =
    let mask : 1 * 2 ^ n - 1 ≡ 2 ^ n - 1 = omega arith in
    rw (mask, bit_and_mask) (mod-eq_of_lt (omega (arith, mod-le b (2 ^ n))))

-- The bits of the byte at hand that lie from the start bit on.
pub room : ℕ → ℕ
room start = 8 - start % 8

pub room_lem : (start : ℕ) → room start + start % 8 ≡ 8
unfolding room
room_lem start = omega arith

-- A round takes as many bits as the byte at hand still has.
pub cut-len : (b start len : ℕ) → (cut b start len).len ≡ len - room start
unfolding cut room
cut-len b start len = ground arith

pub cut-start_bit :
    (b start len : ℕ)
    → start < 248
    → room start < len
    → (cut b start len).start_bit ≡ start + room start
unfolding cut room
cut-start_bit b start len h more = ground arith

shr_byte : (b k : ℕ) → b < 256 → b / 2 ^ k < 256
shr_byte b k h = omega (arith, div-le_self b (2 ^ k))

-- The bits that a round appends are those of the byte, from the start bit on.
cut-byte_last :
    (b start len : ℕ)
    → b < 256
    → len ≤ room start
    → (cut b start len).byte ≡ b / 2 ^ (start % 8) % 2 ^ len
unfolding cut room
cut-byte_last b start len h fits = elim (ℕ_discrete (start % 8) 0) [
  | yes z ↦ elim (dec_lt len 8) [
    | yes short ↦ rw z (ground (arith, get_nbit_lem b len h))
    | no whole ↦ let e : len ≡ 8 = omega arith in rw (z, e) (omega arith)
  ]
  | no nz ↦ ground (arith, get_nbit_lem (b / 2 ^ (start % 8)) len (shr_byte b (start % 8) h))
]

cut-byte_more :
    (b start len : ℕ)
    → b < 256
    → room start < len
    → (cut b start len).byte ≡ b / 2 ^ (start % 8) % 2 ^ room start
unfolding cut room
cut-byte_more b start len h more = elim (ℕ_discrete (start % 8) 0) [
  | yes z ↦ rw z (ground arith)
  | no nz ↦
      ground (arith, get_nbit_lem (b / 2 ^ (start % 8)) (8 - start % 8) (shr_byte b (start % 8) h))
]

module _ (fuel : ℕ) (input : CanData) (start len : ℕ) {b : ℕ} where
  -- The last round.
  pub gather_last :
      get_elem? input (start / 8) ≡ some b
      → b < 256
      → suc len ≤ room start
      → gather (suc fuel) input start (suc len) ≡ ok (b / 2 ^ (start % 8) % 2 ^ suc len ∷ [])
  unfolding gather
  gather_last e h fits =
      let done : (cut b start (suc len)).len ≡ 0 = omega (arith, cut-len b start (suc len)) in
      rw (e, done, cut-byte_last b start (suc len) h fits)

  -- A round that is followed by others.
  pub gather_more :
      {rest : List ℕ}
      → get_elem? input (start / 8) ≡ some b
      → b < 256
      → start < 248
      → room start < suc len
      → gather fuel input (start + room start) (suc len - room start) ≡ ok rest
      → gather (suc fuel) input start (suc len) ≡ ok (b / 2 ^ (start % 8) % 2 ^ room start ∷ rest)
  unfolding gather
  gather_more e h small more ih = rw (
    e,
    cut-len b start (suc len),
    cut-start_bit b start (suc len) small more,
    cut-byte_more b start (suc len) h more,
    ih,
  )

  pub gather_fault :
      {x : Fault}
      → get_elem? input (start / 8) ≡ some b
      → start < 248
      → room start < suc len
      → gather fuel input (start + room start) (suc len - room start) ≡ fault x
      → gather (suc fuel) input start (suc len) ≡ fault x
  unfolding gather
  gather_fault e small more ih =
      rw (e, cut-len b start (suc len), cut-start_bit b start (suc len) small more, ih)

pub byte_at :
    (input : CanData) (i : ℕ)
    → IsData input
    → i < 8
    → (b : ℕ) × (get_elem? input i ≡ some b) × (b < 256)
byte_at input i v h =
    let (b, e) = get_elem?-some input i (omega arith) in
    (b, e, All-get_elem? (λ b. b < 256) input i v.bytes e)

-- Within the eight bytes the loop ends with as many chunks as bytes that the signal touches.
pub gather_total :
    (fuel : ℕ) (input : CanData) (start len : ℕ)
    → IsData input
    → len ≤ fuel
    → start + len ≤ 64
    → (bytes : List ℕ) × (gather fuel input start len ≡ ok bytes)
      × (0 < len → length bytes ≡ (start % 8 + len + 7) / 8)
gather_total fuel input start zero v f fits = ([], unfold gather in refl, λ h. absurd (omega arith))
gather_total zero input start (suc len) v f fits = absurd (omega arith)
gather_total (suc fuel) input start (suc len) v f fits =
    let (b, e, h) = byte_at input (start / 8) v (omega arith) in
    elim (dec_lt (room start) (suc len)) [
      | yes more ↦
          let (rest, ih, n) =
            gather_total fuel input (start + room start) (suc len - room start) v
              (omega (arith, room_lem start)) (omega arith) in
          (
            b / 2 ^ (start % 8) % 2 ^ room start ∷ rest,
            gather_more fuel input start len e h (omega arith) more ih,
            λ _. omega (arith, room_lem start),
          )
      | no last ↦ (
        b / 2 ^ (start % 8) % 2 ^ suc len ∷ [],
        gather_last fuel input start len e h (omega arith),
        λ _. omega (arith, room_lem start),
      )
    ]

-- A signal that reaches past the eight bytes makes the loop throw.
pub gather_out_of_range :
    (fuel : ℕ) (input : CanData) (start len : ℕ)
    → IsData input
    → len ≤ fuel
    → 0 < len
    → 64 < start + len
    → gather fuel input start len ≡ fault out_of_range
gather_out_of_range fuel input start zero v f pos out = absurd (omega arith)
gather_out_of_range zero input start (suc len) v f pos out = absurd (omega arith)
gather_out_of_range (suc fuel) input start (suc len) v f pos out = elim (dec_lt start 64) [
  | yes inside ↦
      let (b, e, h) = byte_at input (start / 8) v (omega arith) in
      gather_fault fuel input start len e (omega arith) (omega (arith, room_lem start)) (
        gather_out_of_range fuel input (start + room start) (suc len - room start) v
          (omega (arith, room_lem start)) (omega (arith, room_lem start))
          (omega (arith, room_lem start)))
  | no outside ↦
      let none' = get_elem?-none input (start / 8) (omega arith) in unfold gather in rw none'
]
