-- ===== src/Signal/Sign.antt =====
-- The sign of a signal: what `with_sign` makes of the 64-bit number.
use native.Mathlib.Nat.{pow-suc, pow-le-pow_right, one-le-pow, div-eq_of_lt, div-eq_of_lt-le}
use native.Mathlib.Decide.{dec_lt, ℕ_discrete}
use can_tracer.Prelude.{
  ℕ, zero, suc, ◌+◌, ◌-◌, ◌*◌, ◌/◌, ◌^◌, ◌≤◌, ◌<◌, ◌≡◌, refl, Bool, true, false, arith, ltb, ◌==◌,
  if◌then◌else◌, none,
}
use can_tracer.Prelude.Int.{ℤ, pos, negsuc}
use can_tracer.Prelude.Outcome.{ok, failure}
use can_tracer.Signal.{with_sign, shift_u64, to_int64, u64}

-- Two's complement over `len` bits.
abbrev pub twos_complement : ℕ → ℕ → ℤ
twos_complement len raw = if ltb raw (2 ^ (len - 1)) then pos raw else negsuc (2 ^ len - raw - 1)

abbrev pub signed_value : Bool → ℕ → ℕ → ℤ
signed_value true len raw = twos_complement len raw
signed_value false len raw = pos raw

-- Up to 64 bits the shifts by the length are defined, whatever the number is.
pub with_sign_total :
    (is_signed : Bool) (len raw : ℕ) → len ≤ 64 → failure (with_sign is_signed len raw) ≡ none
unfolding with_sign
with_sign_total false len raw h = refl
with_sign_total true len raw h = ground arith

mask_lem :
    (len : ℕ)
    → len ≤ 64
    → (if len == 64 then ok (2 ^ 64 - 1) else shift_u64 len (2 ^ len - 1)) ≡ ok (2 ^ len - 1)
mask_lem len h = elim (ℕ_discrete len 64) [ yes e ↦ rw e | no n ↦ ground arith ]

-- The wrapping subtractions give the bit pattern of the negative number.
to_int64_lem :
    (raw w : ℕ)
    → raw < w
    → w ≤ 2 * raw
    → w ≤ 2 ^ 64
    → to_int64 (u64 (u64 (raw + 2 ^ 64 - (w - 1)) + 2 ^ 64 - 1)) ≡ negsuc (w - raw - 1)
to_int64_lem raw w h half small =
    let pattern : u64 (u64 (raw + 2 ^ 64 - (w - 1)) + 2 ^ 64 - 1) ≡ raw + 2 ^ 64 - w =
      omega arith in
    rw pattern (ground arith)

-- A number of `len` bits is read in two's complement if the signal is signed, and as it is if not.
pub with_sign_lem :
    (is_signed : Bool) (len raw : ℕ)
    → 0 < len
    → len ≤ 64
    → raw < 2 ^ len
    → with_sign is_signed len raw ≡ ok (signed_value is_signed len raw)
unfolding with_sign
with_sign_lem false len raw p h small = refl
with_sign_lem true zero raw p h small = absurd (omega arith)
with_sign_lem true (suc k) raw p h small =
    let two : 2 ^ suc k ≡ 2 * 2 ^ k = omega (arith, pow-suc 2 k) in
    let unit : 0 < 2 ^ k = one-le-pow k 2 (omega arith) in
    let top : 2 ^ suc k ≤ 2 ^ 64 = pow-le-pow_right (omega arith) {j = 64} h in
    let pred' : suc k - 1 ≡ k = omega arith in
    elim (dec_lt raw (2 ^ k)) [
      | yes low ↦ rw (pred', div-eq_of_lt low) (ground arith)
      | no high ↦
          let one : raw / 2 ^ k ≡ 1 = div-eq_of_lt-le (2 ^ k) (omega arith) (omega arith) in
          rw (pred', one, mask_lem (suc k) h)
            (ground (arith, to_int64_lem raw (2 ^ suc k) small (omega arith) top))
    ]
