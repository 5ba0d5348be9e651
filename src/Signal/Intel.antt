-- ===== src/Signal/Intel.antt =====
-- Little-endian signals that start at a byte and have at most 31 bits.
use native.Mathlib.Decide.{dec_lt}
use native.Mathlib.Nat.{mod-lt, mod-eq_of_lt, pow-le-pow_right, one-le-pow, mod-one}
use can_tracer.Prelude.{
  ℕ, zero, suc, ◌+◌, ◌-◌, ◌*◌, ◌/◌, ◌%◌, ◌^◌, ◌≤◌, ◌<◌, ◌≡◌, refl, sym, ◌∙◌, false, List, [], ◌∷◌,
  arith, drop, ap,
}
use can_tracer.Prelude.Bits.{pow-add, mod-mul_digit}
use can_tracer.Prelude.Outcome.{ok, ◌>>=◌}
use can_tracer.Can.{CanData}
use can_tracer.Signal.{gather, raw_little_endian, raw_of, shift_int}
use can_tracer.Can.Logged.{IsData}
use can_tracer.Signal.Gather.{byte_at}
use can_tracer.Signal.Aligned.{
  payload, payload-drop-suc, payload-div, mod-pow_low, aligned_last, aligned_more,
}

-- The bits of a signal as the DBC format numbers them in Intel order: bit `start + k` of the payload
-- has the weight 2^k.
abbrev pub intel_field : CanData → ℕ → ℕ → ℕ
intel_field input start len = payload input / 2 ^ start % 2 ^ len

-- Shifted bytes that stay below 2^31 are not changed by the promotion to `int`.
pub shift_int_small :
    (d shift : ℕ) → shift < 32 → d * 2 ^ shift < 2 ^ 31 → shift_int d shift ≡ ok (d * 2 ^ shift)
unfolding shift_int
shift_int_small d shift h small = ground arith

pub scaled_lt : (d k shift : ℕ) → d < 2 ^ k → d * 2 ^ shift < 2 ^ (k + shift)
scaled_lt d k shift h =
    let unit : 0 < 2 ^ shift = one-le-pow shift 2 (omega arith) in rw pow-add (grind arith)

scaled_small : (d k shift : ℕ) → d < 2 ^ k → shift + k ≤ 31 → d * 2 ^ shift < 2 ^ 31
scaled_small d k shift h fits =
    let top : 2 ^ (k + shift) ≤ 2 ^ 31 = pow-le-pow_right (omega arith) {j = 31} (omega arith) in
    omega (arith, scaled_lt d k shift h)

pow_small : (shift : ℕ) → shift ≤ 31 → 2 ^ shift ≤ 2 ^ 31
pow_small shift h = pow-le-pow_right (omega arith) h

-- One more byte of the sum.
little_step :
    (raw shift d : ℕ) (ds : List ℕ)
    → shift < 32
    → d * 2 ^ shift < 2 ^ 31
    → raw < 2 ^ 32
    → raw_little_endian raw shift (d ∷ ds) ≡ raw_little_endian (raw + d * 2 ^ shift) (shift + 8) ds
unfolding raw_little_endian
little_step raw shift d ds h small low =
    let fits : (raw + d * 2 ^ shift) % 2 ^ 64 ≡ raw + d * 2 ^ shift = mod-eq_of_lt (omega arith) in
    rw (shift_int_small d shift h small, fits)

little_last :
    (raw shift d : ℕ)
    → shift < 32
    → d * 2 ^ shift < 2 ^ 31
    → raw < 2 ^ 32
    → raw_little_endian raw shift (d ∷ []) ≡ ok (raw + d * 2 ^ shift)
unfolding raw_little_endian
little_last raw shift d h small low = little_step raw shift d [] h small low

-- The sum over a whole byte and the bits above it.
field_byte :
    (raw shift len b p : ℕ)
    → b < 256
    → 8 ≤ len
    → raw + b * 2 ^ shift + 2 ^ (shift + 8) * (p % 2 ^ (len - 8))
      ≡ raw + 2 ^ shift * ((b + 256 * p) % 2 ^ len)
field_byte raw shift len b p h more =
    let split : 8 + (len - 8) ≡ len = omega arith in
    let wide : 2 ^ len ≡ 256 * 2 ^ (len - 8) = rw split at (pow-add 2 8 (len - 8)) in
    let digit : (b + 256 * p) % 2 ^ len ≡ b + 256 * (p % 2 ^ (len - 8)) =
      rw wide (mod-mul_digit 256 (2 ^ (len - 8)) b p h (one-le-pow (len - 8) 2 (omega arith))) in
    omega (
      arith,
      ap (λ (t : ℕ). 2 ^ shift * t) digit,
      ap (λ (t : ℕ). t * (p % 2 ^ (len - 8))) (pow-add 2 shift 8),
    )

sum_small : (raw b shift : ℕ) → raw < 2 ^ shift → b < 256 → raw + b * 2 ^ shift < 2 ^ (shift + 8)
sum_small raw b shift low h = rw pow-add (grind arith)

intel_loop :
    (fuel : ℕ) (input : CanData) (i len shift raw : ℕ)
    → IsData input
    → len ≤ fuel
    → 8 * i + len ≤ 64
    → shift + len ≤ 31
    → raw < 2 ^ shift
    → (bytes : List ℕ) × (gather fuel input (8 * i) len ≡ ok bytes)
      × (raw_little_endian raw shift bytes
          ≡ ok (raw + 2 ^ shift * (payload (drop i input) % 2 ^ len)))
intel_loop fuel input i zero shift raw v f fits small low =
    ([], unfold gather in refl, unfold raw_little_endian in ap ok (rw mod-one (omega arith)))
intel_loop zero input i (suc len) shift raw v f fits small low = absurd (omega arith)
intel_loop (suc fuel) input i (suc len) shift raw v f fits small low =
    let (b, e, h) = byte_at input i v (omega arith) in
    let top = pow_small shift (omega arith) in
    elim (dec_lt 8 (suc len)) [
      | yes more ↦
          let (rest, ih, sum) =
            intel_loop fuel input (suc i) (suc len - 8) (shift + 8) (raw + b * 2 ^ shift) v
              (omega arith) (omega arith) (omega arith) (sum_small raw b shift low h) in
          (
            b ∷ rest,
            aligned_more fuel input i len e h (omega arith) more ih,
            little_step raw shift b rest (omega arith) (scaled_small b 8 shift h (omega arith))
                  (omega arith)
                ∙ sum
                ∙ ap ok (
                    rw (payload-drop-suc input i e) (
                      field_byte raw shift (suc len) b (payload (drop (suc i) input)) h
                        (omega arith))),
          )
      | no last ↦
          let d : ℕ = b % 2 ^ suc len in
          let unit : 0 < 2 ^ suc len = one-le-pow (suc len) 2 (omega arith) in
          (
            d ∷ [],
            aligned_last fuel input i len e h (omega arith),
            little_last raw shift d (omega arith)
                  (scaled_small d (suc len) shift (mod-lt b unit) (omega arith)) (omega arith)
                ∙ ap ok (
                    rw
                      (
                        payload-drop-suc input i e,
                        mod-pow_low b (payload (drop (suc i) input)) (suc len) (omega arith),
                      )
                      (omega arith)),
          )
    ]

-- For a little-endian signal of 1 to 31 bits that starts at a byte and lies in the eight bytes, the
-- two loops give the number of its bits in the order of the DBC format.
pub raw-intel_field :
    (input : CanData) (start len : ℕ)
    → IsData input
    → start % 8 ≡ 0
    → len ≤ 31
    → start + len ≤ 64
    → (gather len input start len >>= raw_of false) ≡ ok (intel_field input start len)
unfolding raw_of
raw-intel_field input start len v whole small fits =
    let at : 8 * (start / 8) ≡ start = omega arith in
    let (bytes, g, r) =
      intel_loop len input (start / 8) len 0 0 v (omega arith) (omega arith) (omega arith)
        (omega arith) in
    let g' = rw at at g in
    let field : payload (drop (start / 8) input) ≡ payload input / 2 ^ start =
      sym (rw at at (payload-div input (start / 8) v.bytes)) in
    rw (g', r) (ap ok (rw field (omega arith)))
