-- ===== src/Signal/Motorola.antt =====
-- Big-endian signals of whole bytes that start at a byte.
use native.Mathlib.Nat.{pow-le-pow_right, pow-suc}
use can_tracer.Prelude.{
  ℕ, zero, suc, ◌+◌, ◌-◌, ◌*◌, ◌^◌, ◌≤◌, ◌<◌, ◌≡◌, refl, ◌∙◌, some, true, List, [], ◌∷◌, arith,
  get_elem?, drop, ap,
}
use can_tracer.Prelude.Outcome.{ok, ◌>>=◌}
use can_tracer.Can.{CanData}
use can_tracer.Signal.{gather, raw_big_endian, raw_of, u64}
use can_tracer.Can.Logged.{IsData}
use can_tracer.Signal.Gather.{byte_at}
use can_tracer.Signal.Aligned.{aligned_whole}

-- `n` bytes of the payload from index `i` on, the first one the highest.
abbrev pub big_number : CanData → ℕ → ℕ
big_number bytes zero = 0
big_number [] (suc n) = 0
big_number (b ∷ bs) (suc n) = b * 256 ^ n + big_number bs n

abbrev pub motorola_field : CanData → ℕ → ℕ → ℕ
motorola_field input i n = big_number (drop i input) n

pub big_number-drop :
    (input : CanData) (i n : ℕ) {b : ℕ}
    → get_elem? input i ≡ some b
    → big_number (drop i input) (suc n) ≡ b * 256 ^ n + big_number (drop (suc i) input) n
big_number-drop [] i n e = cc
big_number-drop (x ∷ xs) zero n e = ground arith
big_number-drop (x ∷ xs) (suc i) n e = big_number-drop xs i n e

pub big_step :
    (raw d : ℕ) (ds : List ℕ) (n : ℕ)
    → n ≤ 7
    → raw < 256 ^ n
    → d < 256
    → raw_big_endian raw (d ∷ ds) ≡ raw_big_endian (raw * 256 + d) ds
unfolding raw_big_endian
big_step raw d ds n h low small =
    let top = pow-le-pow_right {n = 256} (omega arith) {i = n} {j = 7} h in
    let fits : u64 (u64 (raw * 2 ^ 8) + d) ≡ raw * 256 + d = omega arith in
    ap (λ (t : ℕ). raw_big_endian t ds) fits

motorola_loop :
    (n fuel : ℕ) (input : CanData) (i k raw : ℕ)
    → IsData input
    → 8 * n ≤ fuel
    → i + n ≤ 8
    → k + n ≤ 8
    → raw < 256 ^ k
    → (bytes : List ℕ) × (gather fuel input (8 * i) (8 * n) ≡ ok bytes)
      × (raw_big_endian raw bytes ≡ raw * 256 ^ n + big_number (drop i input) n)
motorola_loop zero fuel input i k raw v f fits small low =
    ([], unfold gather in refl, unfold raw_big_endian in omega arith)
motorola_loop (suc n) zero input i k raw v f fits small low = absurd (omega arith)
motorola_loop (suc n) (suc fuel) input i k raw v f fits small low =
    let (b, e, h) = byte_at input i v (omega arith) in
    let width : 8 * suc n ≡ suc (7 + 8 * n) = omega arith in
    let raw' : raw * 256 + b < 256 ^ (suc k) = omega (arith, pow-suc 256 k) in
    let (rest, ih, sum) =
      motorola_loop n fuel input (suc i) (suc k) (raw * 256 + b) v (omega arith) (omega arith)
        (omega arith) raw' in
    (
      b ∷ rest,
      rw width (
          aligned_whole fuel input i (7 + 8 * n) e h (omega arith) (omega arith)
            (let left : suc (7 + 8 * n) - 8 ≡ 8 * n = omega arith in rw left ih)),
      big_step raw b rest k (omega arith) low h
          ∙ sum
          ∙ rw (big_number-drop input i n e)
              (omega (arith, ap (λ (t : ℕ). raw * t) (pow-suc 256 n))),
    )

-- In a payload of eight bytes, for a big-endian signal of n whole bytes that starts at byte i the two loops give the number with
-- the first byte on top.
pub raw-motorola_field :
    (input : CanData) (i n : ℕ)
    → IsData input
    → i + n ≤ 8
    → (gather (8 * n) input (8 * i) (8 * n) >>= raw_of true) ≡ ok (motorola_field input i n)
unfolding raw_of
raw-motorola_field input i n v fits =
    let (bytes, g, r) =
      motorola_loop n (8 * n) input i 0 0 v (omega arith) fits (omega arith) (omega arith) in
    rw (g, r) (ap ok (omega arith))
