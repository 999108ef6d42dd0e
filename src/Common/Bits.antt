-- ===== src/Common/Bits.antt =====
-- Laws of the bitwise operations at variables: one binary digit at a time, single bits, and bounds.
pub mod Masks
use Prim.Native.Nat.{
  ℕ, zero, suc, ◌+◌, ◌-◌, ◌*◌, ◌/◌, ◌%◌, ◌^◌, ◌≤◌, ◌<◌, min, max, bit_and, bit_or, digits,
  bit_and-bitwise, bit_or-bitwise,
}
use mathlib.Core.Path.{◌≡◌, refl, ◌∙◌, sym, subst, ap, ap₂}
use mathlib.Core.Bool.{Bool, true, false, ◌&&◌}
use mathlib.Core.Logic.{◌⊎◌, inl, inr}
use rpi5_uefi_build.Common.Tests.{◌==◌, if◌then◌else◌, Bool-cases}
use native.Mathlib.Omega.{arith}

module _ (z : ℕ → ℕ) (f : ℕ → ℕ → ℕ) where
  -- From fuel of the first number on, one round more changes nothing.
  digits_settled : (n a b : ℕ) → a ≤ n → digits z f (suc n) a b ≡ digits z f n a b
  digits_settled zero zero b h = refl
  digits_settled zero (suc a) b h = absurd (omega arith)
  digits_settled (suc n) zero b h = refl
  digits_settled (suc n) (suc a) b h =
      let rest = digits_settled n (suc a / 2) (b / 2) (omega arith) in omega (arith, rest)

  digits_more : (extra a b : ℕ) → digits z f (extra + a) a b ≡ digits z f a a b
  digits_more zero a b = ap (λ n. digits z f n a b) {x = zero + a} {y = a} (omega arith)
  digits_more (suc extra) a b =
      ap (λ n. digits z f n a b) {x = suc extra + a} {y = suc (extra + a)} (omega arith)
      ∙ digits_settled (extra + a) a b (omega arith)
      ∙ digits_more extra a b

  -- The fuel that a number leaves to its half.
  digits_half : (a b : ℕ) → digits z f a (suc a / 2) b ≡ digits z f (suc a / 2) (suc a / 2) b
  digits_half a b =
      ap (λ n. digits z f n (suc a / 2) b) {x = a} {y = a - suc a / 2 + suc a / 2} (omega arith)
      ∙ digits_more (a - suc a / 2) (suc a / 2) b

pub zero-bit_or : (b : ℕ) → bit_or 0 b ≡ b
zero-bit_or b = bit_or-bitwise 0 b

pub zero-bit_and : (b : ℕ) → bit_and 0 b ≡ 0
zero-bit_and b = bit_and-bitwise 0 b

-- The lowest digit and the rest.
pub bit_or_step : (a b : ℕ) → bit_or a b ≡ max (a % 2) (b % 2) + 2 * bit_or (a / 2) (b / 2)
bit_or_step zero b = omega (arith, zero-bit_or b, zero-bit_or (b / 2))
bit_or_step (suc a) b =
    let half = digits_half (λ b. b) max a (b / 2) in
    let whole = bit_or-bitwise (suc a) b in
    omega (arith, half, whole, bit_or-bitwise (suc a / 2) (b / 2))

pub bit_and_step : (a b : ℕ) → bit_and a b ≡ min (a % 2) (b % 2) + 2 * bit_and (a / 2) (b / 2)
bit_and_step zero b = omega (arith, zero-bit_and b, zero-bit_and (b / 2))
bit_and_step (suc a) b =
    let half = digits_half (λ b. zero) min a (b / 2) in
    let whole = bit_and-bitwise (suc a) b in
    omega (arith, half, whole, bit_and-bitwise (suc a / 2) (b / 2))

-- Digit `k` of a number.
abbrev pub bit : ℕ → ℕ → ℕ
bit zero a = a % 2
bit (suc k) a = bit k (a / 2)

pub bit_le : (k a : ℕ) → bit k a ≤ 1
bit_le zero a = omega arith
bit_le (suc k) a = bit_le k (a / 2)

pub bit-bit_and : (k a b : ℕ) → bit k (bit_and a b) ≡ min (bit k a) (bit k b)
bit-bit_and zero a b = omega (arith, bit_and_step a b)
bit-bit_and (suc k) a b =
    let half : bit_and a b / 2 ≡ bit_and (a / 2) (b / 2) = omega (arith, bit_and_step a b) in
    ap (bit k) half ∙ bit-bit_and k (a / 2) (b / 2)

pub bit-bit_or : (k a b : ℕ) → bit k (bit_or a b) ≡ max (bit k a) (bit k b)
bit-bit_or zero a b = omega (arith, bit_or_step a b)
bit-bit_or (suc k) a b =
    let half : bit_or a b / 2 ≡ bit_or (a / 2) (b / 2) = omega (arith, bit_or_step a b) in
    ap (bit k) half ∙ bit-bit_or k (a / 2) (b / 2)

bit_and_le_fuel : (rounds a b : ℕ) → a ≤ rounds → bit_and a b ≤ b
bit_and_le_fuel rounds zero b h = omega (arith, zero-bit_and b)
bit_and_le_fuel zero (suc a) b h = absurd (omega arith)
bit_and_le_fuel (suc rounds) (suc a) b h =
    let half = bit_and_le_fuel rounds (suc a / 2) (b / 2) (omega arith) in
    omega (arith, half, bit_and_step (suc a) b)

pub bit_and_le : (a b : ℕ) → bit_and a b ≤ b
bit_and_le a b = bit_and_le_fuel a a b (omega arith)

pub bit_and-zero : (a : ℕ) → bit_and a 0 ≡ 0
bit_and-zero a = omega (arith, bit_and_le a 0)

-- A mask of one bit.
pub bit_and-pow : (k a : ℕ) → bit_and a (2 ^ k) ≡ bit k a * 2 ^ k
bit_and-pow zero a = omega (arith, bit_and_step a 1, bit_and-zero (a / 2))
bit_and-pow (suc k) a =
    let half : bit_and (a / 2) (2 ^ suc k / 2) ≡ bit_and (a / 2) (2 ^ k) =
      ap (bit_and (a / 2)) (omega arith) in
    let digit = bit_and-pow k (a / 2) in
    let whole : bit_and a (2 ^ suc k) ≡ bit k (a / 2) * 2 ^ k * 2 =
      omega (arith, bit_and_step a (2 ^ suc k), half, digit) in
    grind (arith, whole)

pub bit_or_bound : (k a b : ℕ) → a < 2 ^ k → b < 2 ^ k → bit_or a b < 2 ^ k
bit_or_bound zero a b p q = let none : a ≡ 0 = omega arith in rw none (omega (arith, zero-bit_or b))
bit_or_bound (suc k) a b p q =
    omega (arith, bit_or_step a b, bit_or_bound k (a / 2) (b / 2) (omega arith) (omega arith))

pub bit-below : (k a : ℕ) → a < 2 ^ k → bit k a ≡ 0
bit-below zero a h = omega arith
bit-below (suc k) a h = bit-below k (a / 2) (omega arith)

pub bit-pow_add : (k a : ℕ) → a < 2 ^ k → bit k (2 ^ k + a) ≡ 1
bit-pow_add zero a h = omega arith
bit-pow_add (suc k) a h =
    let half : (2 ^ suc k + a) / 2 ≡ 2 ^ k + a / 2 = omega arith in
    ap (bit k) half ∙ bit-pow_add k (a / 2) (omega arith)

pub pow_pos : (k : ℕ) → 1 ≤ 2 ^ k
pow_pos zero = omega arith
pow_pos (suc k) = omega (arith, pow_pos k)

pub double_mul : (k q : ℕ) → 2 ^ suc k * q ≡ 2 * (2 ^ k * q)
double_mul k q = let e : 2 ^ suc k ≡ 2 * 2 ^ k = omega arith in rw e (grind arith)

-- A mask of the low digits.
pub bit_and-mask : (k c q : ℕ) → c < 2 ^ k → bit_and (c + 2 ^ k * q) (2 ^ k - 1) ≡ c
bit_and-mask zero c q h = omega (arith, bit_and-zero (c + 1 * q))
bit_and-mask (suc k) c q h =
    let number : (c + 2 ^ suc k * q) / 2 ≡ c / 2 + 2 ^ k * q = omega (arith, double_mul k q) in
    let parity : (c + 2 ^ suc k * q) % 2 ≡ c % 2 = omega (arith, double_mul k q) in
    let mask : (2 ^ suc k - 1) / 2 ≡ 2 ^ k - 1 = omega (arith, pow_pos k) in
    let half = ap₂ bit_and number mask ∙ bit_and-mask k (c / 2) q (omega arith) in
    omega (arith, bit_and_step (c + 2 ^ suc k * q) (2 ^ suc k - 1), half, parity, pow_pos k)

-- A digit that is not there yet.
pub bit_or-pow : (k a : ℕ) → a < 2 ^ k → bit_or a (2 ^ k) ≡ a + 2 ^ k
bit_or-pow zero a h = let none : a ≡ 0 = omega arith in rw none (zero-bit_or 1)
bit_or-pow (suc k) a h =
    let half : bit_or (a / 2) (2 ^ suc k / 2) ≡ bit_or (a / 2) (2 ^ k) =
      ap (bit_or (a / 2)) (omega arith) in
    omega (arith, bit_or_step a (2 ^ suc k), half, bit_or-pow k (a / 2) (omega arith))

pub bit_and_bound : (k a b : ℕ) → b < 2 ^ k → bit_and a b < 2 ^ k
bit_and_bound k a b h = omega (arith, bit_and_le a b)

-- A test that holds of every number below a bound, by trying them all.
abbrev pub holds_below : (ℕ → Bool) → ℕ → Bool
holds_below test zero = true
holds_below test (suc n) = holds_below test n && test n

both : (a b : Bool) → (a && b) ≡ true → (a ≡ true) × (b ≡ true)
both true b h = (refl, h)
both false b h = absurd (cc)

pub holds_below-at : (test : ℕ → Bool) (n k : ℕ) → holds_below test n ≡ true → k < n → test k ≡ true
holds_below-at test zero k h less = absurd (omega arith)
holds_below-at test (suc n) k h less =
    let (earlier, last) = both (holds_below test n) (test n) h in
    elim (Bool-cases (k == n)) [
      | inl here ↦ let e : k ≡ n = ground arith in rw e last
      | inr before ↦ holds_below-at test n k earlier (ground arith)
    ]

pub bit-if_or :
    (k x m : ℕ) (b : Bool)
    → bit k (if b then bit_or x m else x) ≡ max (bit k x) (if b then bit k m else 0)
bit-if_or k x m true = bit-bit_or k x m
bit-if_or k x m false = omega arith

pub bit-zero : (k : ℕ) → bit k 0 ≡ 0
bit-zero zero = refl
bit-zero (suc k) = bit-zero k

pub bit-pow : (k j : ℕ) → bit k (2 ^ j) ≡ (if k == j then 1 else 0)
bit-pow zero zero = refl
bit-pow (suc k) zero = ground (arith, bit-zero k)
bit-pow zero (suc j) = ground arith
bit-pow (suc k) (suc j) =
    let half : 2 ^ suc j / 2 ≡ 2 ^ j = omega arith in
    let e = ap (bit k) half in ground (arith, e, bit-pow k j)
