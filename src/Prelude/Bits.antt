-- ===== src/Prelude/Bits.antt =====
-- `x & (2^k - 1)` as a remainder, at every width.
use Prim.Native.Nat.{
  ℕ, zero, suc, ◌+◌, ◌-◌, ◌*◌, ◌/◌, ◌%◌, ◌^◌, ◌≤◌, ◌<◌, min, bit_and, digits, bit_and-bitwise,
}
use mathlib.Core.Path.{◌≡◌, ap}
use native.Mathlib.Nat.{
  add-zero, add-suc, mul-one, mul_assoc, pow-zero, pow-suc, one-le-pow, div-add-mod, mod-lt,
  mod-eq_of_lt, add-mul-mod_self_left,
}
use native.Mathlib.Omega.{arith}

-- A number split after its lowest digit in base `c`, modulo a multiple of `c`.
pub mod-mul_digit : (c w b p : ℕ) → b < c → 0 < w → (b + c * p) % (c * w) ≡ b + c * (p % w)
mod-mul_digit c w b p h pos =
    let whole : b + c * p ≡ b + c * (p % w) + c * w * (p / w) =
      omega (arith, ap (λ (t : ℕ). c * t) (div-add-mod p w)) in
    let small : b + c * (p % w) < c * w = grind (arith, mod-lt p pos) in
    rw (whole, add-mul-mod_self_left) (mod-eq_of_lt small)

-- One binary digit of `a` in front of what a narrower mask leaves of the others.
mask_digit : (k a : ℕ) → a % 2 ^ suc k ≡ a / 2 % 2 ^ k * 2 + min (a % 2) ((2 ^ suc k - 1) % 2)
mask_digit k a =
    let room : 0 < 2 ^ k = one-le-pow k 2 (omega arith) in
    let wide : 2 * 2 ^ k ≡ 2 ^ suc k = omega (arith, pow-suc 2 k) in
    let whole : a % 2 + 2 * (a / 2) ≡ a = omega arith in
    let split = mod-mul_digit 2 (2 ^ k) (a % 2) (a / 2) (omega arith) room in
    let split' : a % 2 ^ suc k ≡ a % 2 + 2 * (a / 2 % 2 ^ k) = rw (whole, wide) at split in
    omega (arith, split')

-- What the native operation computes against a mask, while the bound `n` on its rounds is enough.
masked : (n k a : ℕ) → a ≤ n → digits (λ b. zero) min n a (2 ^ k - 1) ≡ a % 2 ^ k
masked zero k zero h = omega (arith, one-le-pow k 2 (omega arith))
masked (suc n) k zero h = omega (arith, one-le-pow k 2 (omega arith))
masked zero k (suc a) h = absurd (omega arith)
masked (suc n) zero (suc a) h = omega (arith, masked n 0 (suc a / 2) (omega arith))
masked (suc n) (suc k) (suc a) h =
    let wide : 2 ^ suc k ≡ 2 * 2 ^ k = omega (arith, pow-suc 2 k) in
    let half : (2 ^ suc k - 1) / 2 ≡ 2 ^ k - 1 = omega (arith, one-le-pow k 2 (omega arith)) in
    let low = rw (← half) at (masked n k (suc a / 2) (omega arith)) in
    omega (arith, low, mask_digit k (suc a))

-- A mask of `k` low bits is the remainder by `2 ^ k`.
pub bit_and_mask : (k a : ℕ) → bit_and a (2 ^ k - 1) ≡ a % 2 ^ k
bit_and_mask k a = omega (arith, bit_and-bitwise a (2 ^ k - 1), masked a k a (omega arith))

pub pow-add : (a m n : ℕ) → a ^ (m + n) ≡ a ^ m * a ^ n
pow-add a m zero = rw (add-zero, pow-zero, mul-one)
pow-add a m (suc n) = rw (add-suc, pow-suc, pow-suc, pow-add a m n) (mul_assoc _ _ _)
