-- ===== src/Signal/Crossing.antt =====
-- Little-endian signals that start inside a byte and end in the next one: the loop puts the second
-- piece eight bits up, however few bits the first piece has.
use native.Mathlib.Nat.{mod-eq_of_lt, one-le-pow, pow-le-pow_right, div-lt_iff_lt-mul}
use can_tracer.Prelude.{
  ℕ, zero, suc, ◌+◌, ◌-◌, ◌*◌, ◌/◌, ◌%◌, ◌^◌, ◌≤◌, ◌<◌, ◌≡◌, ◌↔◌, ◌∙◌, some, false, [], ◌∷◌, arith,
  get_elem?, drop, ap,
}
use can_tracer.Prelude.Bits.{pow-add, mod-mul_digit}
use can_tracer.Prelude.Outcome.{ok, ◌>>=◌}
use can_tracer.Can.{CanData}
use can_tracer.Signal.{gather, raw_of, shift_int}
use can_tracer.Can.Logged.{IsData}
use can_tracer.Signal.Gather.{byte_at, room, room_lem, gather_more}
use can_tracer.Signal.Aligned.{payload, payload-drop-suc, mod-pow_low, aligned_last}
use can_tracer.Signal.Intel.{intel_field}
use can_tracer.Signal.Short.{payload_from, byte_lt}

raw_of_two : (lo hi : ℕ) → lo < 256 → hi < 256 → raw_of false (lo ∷ hi ∷ []) ≡ ok (lo + 256 * hi)
unfolding raw_of shift_int
raw_of_two lo hi h k = ground arith

shr_lt : (b r k : ℕ) → b < 256 → r + k ≡ 8 → b / 2 ^ r < 2 ^ k
shr_lt b r k h sum =
    let whole : 2 ^ 8 ≡ 2 ^ k * 2 ^ r =
      let e : k + r ≡ 8 = omega arith in rw e at (pow-add 2 k r) in
    (div-lt_iff_lt-mul {k = 2 ^ r} {x = b} {y = 2 ^ k} (one-le-pow r 2 (omega arith))).1
      (omega arith)

module _ (input : CanData) (start q : ℕ) {b c : ℕ} (v : IsData input)
    (first : get_elem? input (start / 8) ≡ some b)
    (second : get_elem? input (suc (start / 8)) ≡ some c) (hb : b < 256) (hc : c < 256)
    (fits : suc q ≤ 8) where
  crossing_gather :
      (len fuel : ℕ)
      → len ≡ room start + q
      → start < 64
      → gather (suc (suc fuel)) input start (suc len)
        ≡ ok (b / 2 ^ (start % 8) ∷ c % 2 ^ suc q ∷ [])
  crossing_gather len fuel e inside =
      let next : start + room start ≡ 8 * suc (start / 8) = omega (arith, room_lem start) in
      let left : suc len - room start ≡ suc q = omega (arith, room_lem start) in
      let second' = aligned_last fuel input (suc (start / 8)) q second hc fits in
      let small = shr_lt b (start % 8) (room start) hb (omega (arith, room_lem start)) in
      let low : b / 2 ^ (start % 8) % 2 ^ room start ≡ b / 2 ^ (start % 8) = mod-eq_of_lt small in
      let round =
        gather_more (suc fuel) input start len {rest = c % 2 ^ suc q ∷ []} first hb (omega arith)
          (omega arith) (rw (next, left) second') in
      rw low at round

  crossing_field :
      intel_field input start (room start + suc q)
      ≡ b / 2 ^ (start % 8) + 2 ^ room start * (c % 2 ^ suc q)
  crossing_field =
      let p : ℕ = payload (drop (suc (suc (start / 8))) input) in
      let small = shr_lt b (start % 8) (room start) hb (omega (arith, room_lem start)) in
      rw
        (payload_from input start v first, payload-drop-suc input (suc (start / 8)) second, pow-add)
        (mod-mul_digit (2 ^ room start) (2 ^ suc q) (b / 2 ^ (start % 8)) (c + 256 * p) small
            (one-le-pow (suc q) 2 (omega arith))
          ∙ ap (λ (t : ℕ). b / 2 ^ (start % 8) + 2 ^ room start * t) (mod-pow_low c p (suc q) fits))

-- The sum of the two pieces against the field: they agree when the second piece is zero.
pieces_iff : (lo hi w : ℕ) → lo < w → w ≤ 128 → (lo + 256 * hi ≡ lo + w * hi) ↔ (lo + w * hi < w)
pieces_iff lo zero w h small = (λ _. omega arith, λ _. omega arith)
pieces_iff lo (suc hi) w h small =
    let scaled : w * suc hi ≤ 128 * suc hi = grind arith in
    let big : w ≤ w * suc hi = grind arith in (λ e. absurd (omega arith), λ e. absurd (omega arith))

-- In a payload of eight bytes, a little-endian signal that starts inside a byte and ends in the next one is read without a fault,
-- and the number is that of its bits exactly when all its bits in the second byte are zero.
pub raw-crossing_iff :
    (input : CanData) (start len : ℕ)
    → IsData input
    → 0 < start % 8
    → 8 < start % 8 + len
    → start % 8 + len ≤ 16
    → start + len ≤ 64
    → (x : ℕ) × ((gather len input start len >>= raw_of false) ≡ ok x)
      × ((x ≡ intel_field input start len) ↔ (intel_field input start len < 2 ^ (8 - start % 8)))
raw-crossing_iff input start zero v inside long short fits = absurd (omega arith)
raw-crossing_iff input start (suc zero) v inside long short fits = absurd (omega arith)
raw-crossing_iff input start (suc (suc f)) v inside long short fits =
    let (b, first, hb) = byte_at input (start / 8) v (omega arith) in
    let (c, second, hc) = byte_at input (suc (start / 8)) v (omega arith) in
    let q : ℕ = suc f - room start in
    let small : suc q ≤ 8 = omega (arith, room_lem start) in
    let width : suc (suc f) ≡ room start + suc q = omega (arith, room_lem start) in
    let room' : 8 - start % 8 ≡ room start = omega (arith, room_lem start) in
    let bytes =
      crossing_gather input start q v first second hb hc small (suc f) f (omega arith)
        (omega arith) in
    let field = crossing_field input start q v first second hb hc small in
    let lo : ℕ = b / 2 ^ (start % 8) in
    let hi : ℕ = c % 2 ^ suc q in
    let low = shr_lt b (start % 8) (room start) hb (omega (arith, room_lem start)) in
    let half =
      pow-le-pow_right {n = 2} (omega arith) {i = room start} {j = 7}
        (omega (arith, room_lem start)) in
    (
      lo + 256 * hi,
      rw bytes (raw_of_two lo hi (omega arith) (byte_lt c (suc q) small)),
      rw (room', width, field) (pieces_iff lo hi (2 ^ room start) low half),
    )
