-- ===== src/Base/Masks.antt =====
-- `x & (Capacity - 1)` at a power of two: the remainder, and one conditional subtraction for an
-- index that has gone round the ring at most once.
use Prim.Native.Nat.{
  ℕ, zero, suc, ◌+◌, ◌-◌, ◌*◌, ◌/◌, ◌%◌, ◌^◌, ◌≤◌, ◌<◌, min, bit_and, digits, bit_and-bitwise,
}
use mathlib.Core.Path.{◌≡◌, ap, ◌∙◌, sym}
use mathlib.Core.Logic.{inl, inr}
use native.Mathlib.Omega.{arith}
use native.Mathlib.Nat.{
  mod-eq_of_lt, mod-eq-sub-mod, mod-lt, two-pow-succ, one-le-pow, mul-add-mod_self_left,
  div-add-mod, zero-mod, mod-one,
}
use hft_fix_engine.Base.Tests.{ltb, if◌then◌else◌, Bool-cases, ltb→lt, ltb→ge}

pub two-pow-pos : (k : ℕ) → 0 < 2 ^ k
two-pow-pos k = one-le-pow k 2 (omega arith)

-- The remainder by twice a number, digit by digit.
mod_double : (a p : ℕ) → 0 < p → a / 2 % p * 2 + a % 2 ≡ a % (p + p)
mod_double a p h =
    let q = a / 2 / p in
    let r = a / 2 % p in
    let low : r < p = mod-lt (a / 2) h in
    let whole : (p + p) * q + (r * 2 + a % 2) ≡ a =
      omega (arith, ap (λ (t : ℕ). 2 * t) (div-add-mod (a / 2) p)) in
    sym (mod-eq_of_lt {n = r * 2 + a % 2} {m = p + p} (omega arith))
    ∙ sym (mul-add-mod_self_left (p + p) q (r * 2 + a % 2))
    ∙ ap (λ t. t % (p + p)) whole

mask_digits : (n a k : ℕ) → a ≤ n → digits (λ b. zero) min n a (2 ^ k - 1) ≡ a % 2 ^ k
mask_digits zero zero k h = sym (zero-mod (2 ^ k))
mask_digits zero (suc a) k h = absurd (omega arith)
mask_digits (suc n) zero k h = sym (zero-mod (2 ^ k))
mask_digits (suc n) (suc a) zero h =
    omega
      (arith, mask_digits n (suc a / 2) zero (omega arith), mod-one (suc a / 2), mod-one (suc a))
mask_digits (suc n) (suc a) (suc k) h =
    let half : (2 ^ suc k - 1) / 2 ≡ 2 ^ k - 1 = omega (arith, two-pow-succ k, two-pow-pos k) in
    rw half (
      omega (
        arith,
        mask_digits n (suc a / 2) k (omega arith),
        mod_double (suc a) (2 ^ k) (two-pow-pos k),
        ap (λ t. suc a % t) (two-pow-succ k),
        two-pow-succ k,
        two-pow-pos k,
      ))

pub bit_and_mask : (x k : ℕ) → bit_and x (2 ^ k - 1) ≡ x % 2 ^ k
bit_and_mask x k = bit_and-bitwise x (2 ^ k - 1) ∙ mask_digits x x k (omega arith)

-- Below twice the capacity the mask takes the capacity off at most once.
pub mask_wrap :
    (x k : ℕ) → x < 2 ^ k + 2 ^ k → bit_and x (2 ^ k - 1) ≡ (if ltb x (2 ^ k) then x else x - 2 ^ k)
mask_wrap x k h = bit_and_mask x k ∙ elim (Bool-cases (ltb x (2 ^ k))) [
  | inl e ↦ rw e (mod-eq_of_lt (ltb→lt x (2 ^ k) e))
  | inr e ↦ rw e (
      mod-eq-sub-mod {n = x} {m = 2 ^ k} (ltb→ge x (2 ^ k) e)
      ∙ mod-eq_of_lt {n = x - 2 ^ k} {m = 2 ^ k} (omega (arith, ltb→ge x (2 ^ k) e)))
]
