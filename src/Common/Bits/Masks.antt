-- ===== src/Common/Bits/Masks.antt =====
-- Masks of one and of two bits, as tests of a word.
use Prim.Native.Nat.{ℕ, zero, suc, ◌*◌, ◌/◌, ◌^◌, ◌≤◌, bit_and, bit_or}
use mathlib.Core.Path.{◌≡◌, refl, ◌∙◌, sym, subst, ap, ap₂}
use mathlib.Core.Bool.{◌&&◌}
use mathlib.Core.Logic.{◌⊎◌, inl, inr}
use rpi5_uefi_build.Common.Tests.{◌==◌}
use native.Mathlib.Omega.{arith}
use rpi5_uefi_build.Common.Bits.{
  bit, bit_le, zero-bit_or, zero-bit_and, bit_or_step, bit_and_step, bit_and-pow, pow_pos,
}

bit_and-bit_or_fuel :
    (n v a b : ℕ) → v ≤ n → bit_and v (bit_or a b) ≡ bit_or (bit_and v a) (bit_and v b)
bit_and-bit_or_fuel n zero a b h =
    zero-bit_and (bit_or a b)
    ∙ ap₂ (λ x y. bit_or x y) (sym (zero-bit_and a)) (sym (zero-bit_and b))
bit_and-bit_or_fuel zero (suc v) a b h = absurd (omega arith)
bit_and-bit_or_fuel (suc n) (suc v) a b h =
    let w = suc v in
    let whole : bit_or a b / 2 ≡ bit_or (a / 2) (b / 2) = omega (arith, bit_or_step a b) in
    let left : bit_and w a / 2 ≡ bit_and (w / 2) (a / 2) = omega (arith, bit_and_step w a) in
    let right : bit_and w b / 2 ≡ bit_and (w / 2) (b / 2) = omega (arith, bit_and_step w b) in
    let e =
      ap (bit_and (w / 2)) whole ∙ bit_and-bit_or_fuel n (w / 2) (a / 2) (b / 2) (omega arith) in
    let e' = ap₂ bit_or left right in
    omega (
      arith,
      e,
      e',
      bit_and_step w (bit_or a b),
      bit_or_step (bit_and w a) (bit_and w b),
      bit_or_step a b,
      bit_and_step w a,
      bit_and_step w b,
    )

pub bit_and-bit_or : (v a b : ℕ) → bit_and v (bit_or a b) ≡ bit_or (bit_and v a) (bit_and v b)
bit_and-bit_or v a b = bit_and-bit_or_fuel v v a b (omega arith)

bit_or_ge_fuel : (n a b : ℕ) → a ≤ n → (a ≤ bit_or a b) × (b ≤ bit_or a b)
bit_or_ge_fuel n zero b h = (omega arith, omega (arith, zero-bit_or b))
bit_or_ge_fuel zero (suc a) b h = absurd (omega arith)
bit_or_ge_fuel (suc n) (suc a) b h =
    let (l, r) = bit_or_ge_fuel n (suc a / 2) (b / 2) (omega arith) in
    (omega (arith, l, bit_or_step (suc a) b), omega (arith, r, bit_or_step (suc a) b))

pub bit_or_ge : (a b : ℕ) → (a ≤ bit_or a b) × (b ≤ bit_or a b)
bit_or_ge a b = bit_or_ge_fuel a a b (omega arith)

le_one-cases : (n : ℕ) → n ≤ 1 → (n ≡ 0) ⊎ (n ≡ 1)
le_one-cases zero h = inl refl
le_one-cases (suc n) h = inr (omega arith)

no_digit : (d m : ℕ) → d ≡ 0 → d * m ≡ 0
no_digit zero m h = omega arith
no_digit (suc d) m h = absurd (omega arith)

-- A mask of two bits.
pub bit_and_two :
    (i j v : ℕ) → (bit_and v (bit_or (2 ^ i) (2 ^ j)) == 0) ≡ (bit i v == 0) && (bit j v == 0)
bit_and_two i j v =
    let sum : bit_and v (bit_or (2 ^ i) (2 ^ j)) ≡ bit_or (bit i v * 2 ^ i) (bit j v * 2 ^ j) =
      bit_and-bit_or v (2 ^ i) (2 ^ j) ∙ ap₂ bit_or (bit_and-pow i v) (bit_and-pow j v) in
    let l : bit i v * 2 ^ i ≤ bit_and v (bit_or (2 ^ i) (2 ^ j)) =
      subst (λ (x : ℕ). bit i v * 2 ^ i ≤ x) (sym sum)
        (bit_or_ge (bit i v * 2 ^ i) (bit j v * 2 ^ j)).0 in
    let r : bit j v * 2 ^ j ≤ bit_and v (bit_or (2 ^ i) (2 ^ j)) =
      subst (λ (x : ℕ). bit j v * 2 ^ j ≤ x) (sym sum)
        (bit_or_ge (bit i v * 2 ^ i) (bit j v * 2 ^ j)).1 in
    elim (le_one-cases (bit i v) (bit_le i v)) [
      | inr one ↦ let l' = ap (λ d. d * 2 ^ i) one in ground (arith, l, l', one, pow_pos i)
      | inl none ↦ elim (le_one-cases (bit j v) (bit_le j v)) [
        | inr one ↦ let r' = ap (λ d. d * 2 ^ j) one in ground (arith, r, r', one, none, pow_pos j)
        | inl none' ↦
            let zero : bit_and v (bit_or (2 ^ i) (2 ^ j)) ≡ 0 =
              sum
              ∙ ap₂ bit_or (no_digit (bit i v) (2 ^ i) none) (no_digit (bit j v) (2 ^ j) none') in
            rw (zero, none, none') refl
      ]
    ]

pub bit_and_one : (k v : ℕ) → (bit_and v (2 ^ k) == 0) ≡ (bit k v == 0)
bit_and_one k v = elim (le_one-cases (bit k v) (bit_le k v)) [
  | inl none ↦
      let zero : bit_and v (2 ^ k) ≡ 0 = bit_and-pow k v ∙ no_digit (bit k v) (2 ^ k) none in
      rw (zero, none) refl
  | inr one ↦
      let whole = bit_and-pow k v ∙ ap (λ d. d * 2 ^ k) one in ground (arith, whole, one, pow_pos k)
]
