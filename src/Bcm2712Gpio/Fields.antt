-- ===== src/Bcm2712Gpio/Fields.antt =====
-- What GpioSetFunction of Bcm2712GpioLib.c changes: the pin's own field.
use rpi5_uefi_build.Common.{
  ℕ, zero, suc, ◌+◌, ◌-◌, ◌*◌, ◌/◌, ◌^◌, ◌<◌, ◌≤◌, ◌≡◌, refl, sym, ◌∙◌, ap, inl, inr, Bool, true,
  false, ◌&&◌, ltb, leb, ◌==◌, if◌then◌else◌, Bool-cases, bit_and, bit_or, arith, u32,
}
use Prim.Native.Nat.{max, min}
use native.Mathlib.Nat.{le-div_iff_mul-le, mul-div-le}
use rpi5_uefi_build.Common.Bits.{
  bit, bit_le, bit-bit_and, bit-bit_or, bit_and_step, bit_and-zero, holds_below, holds_below-at,
  pow_pos, double_mul,
}
use rpi5_uefi_build.Bcm2712Gpio.{cleared, field, fsel_mask}

-- A bit of the field at a multiple of four.
abbrev in_field : ℕ → ℕ → Bool
in_field i k = leb (4 * i) k && ltb k (4 * i + 4)

-- The bits of the mask and of the new function, by trying all.
abbrev mask_bit : ℕ → ℕ → Bool
mask_bit i k = bit k (cleared fsel_mask (4 * i)) == (if in_field i k then 0 else 1)

mask_bits : holds_below (λ i. holds_below (mask_bit i) 32) 8 ≡ true
mask_bits = refl

abbrev function_bit : ℕ → ℕ → ℕ → Bool
function_bit i f k =
    bit k (u32 (f * 2 ^ (4 * i))) == (if in_field i k then bit (k - 4 * i) f else 0)

function_bits : holds_below (λ i. holds_below (λ f. holds_below (function_bit i f) 32) 16) 8 ≡ true
function_bits = refl

combine :
    (whole kept m x o f : ℕ) (here : Bool)
    → whole ≡ max kept x
    → kept ≡ min o m
    → o ≤ 1
    → (m == (if here then 0 else 1)) ≡ true
    → (x == (if here then f else 0)) ≡ true
    → whole ≡ (if here then f else o)
combine whole kept m x o f true a b c d e = ground arith
combine whole kept m x o f false a b c d e = ground arith

-- The register with the field replaced.
abbrev pub replaced : ℕ → ℕ → ℕ → ℕ
replaced i f old = bit_or (bit_and old (cleared fsel_mask (4 * i))) (u32 (f * 2 ^ (4 * i)))

bit-replaced :
    (i f k old : ℕ)
    → i < 8
    → f < 16
    → k < 32
    → bit k (replaced i f old) ≡ (if in_field i k then bit (k - 4 * i) f else bit k old)
bit-replaced i f k old small nibble word =
    let mask =
      holds_below-at (mask_bit i) 32 k
        (holds_below-at (λ i. holds_below (mask_bit i) 32) 8 i mask_bits small) word in
    let value =
      holds_below-at (function_bit i f) 32 k
        (holds_below-at (λ f. holds_below (function_bit i f) 32) 16 f
          (holds_below-at (λ i. holds_below (λ f. holds_below (function_bit i f) 32) 16) 8 i
            function_bits small)
          nibble)
        word in
    let whole = bit-bit_or k (bit_and old (cleared fsel_mask (4 * i))) (u32 (f * 2 ^ (4 * i))) in
    let kept = bit-bit_and k old (cleared fsel_mask (4 * i)) in
    combine _ _ _ _ (bit k old) (bit (k - 4 * i) f) (in_field i k) whole kept (bit_le k old) mask
      value

div-pow_suc : (n v : ℕ) → v / 2 ^ suc n ≡ v / 2 / 2 ^ n
div-pow_suc n v =
    let positive = pow_pos n in
    let halves : 2 ^ n * (v / 2 ^ suc n) ≤ v / 2 =
      omega (arith, double_mul n (v / 2 ^ suc n), mul-div-le v (2 ^ suc n)) in
    let wholes : 2 ^ suc n * (v / 2 / 2 ^ n) ≤ v =
      omega (arith, double_mul n (v / 2 / 2 ^ n), mul-div-le (v / 2) (2 ^ n)) in
    let to =
      (le-div_iff_mul-le {k = 2 ^ n} {x = v / 2 ^ suc n} {y = v / 2} positive).1 (grind arith) in
    let fro =
      (le-div_iff_mul-le {k = 2 ^ suc n} {x = v / 2 / 2 ^ n} {y = v} (pow_pos (suc n))).1
        (grind arith) in
    omega arith

bit-quotient : (n k v : ℕ) → bit k (v / 2 ^ n) ≡ bit (n + k) v
bit-quotient zero k v =
    let none : v / 2 ^ 0 ≡ v = omega arith in
    let same : 0 + k ≡ k = omega arith in ap (bit k) none ∙ ap (λ j. bit j v) (sym same)
bit-quotient (suc n) k v =
    let next : suc n + k ≡ suc (n + k) = omega arith in
    ap (bit k) (div-pow_suc n v) ∙ bit-quotient n k (v / 2) ∙ ap (λ j. bit j v) (sym next)

-- A number of four bits is its bits.
nibble : (v : ℕ) → bit_and v 15 ≡ bit 0 v + 2 * bit 1 v + 4 * bit 2 v + 8 * bit 3 v
nibble v = omega (
  arith,
  bit_and_step v 15,
  bit_and_step (v / 2) 7,
  bit_and_step (v / 2 / 2) 3,
  bit_and_step (v / 2 / 2 / 2) 1,
  bit_and-zero (v / 2 / 2 / 2 / 2),
)

-- A register of four bits is what its bits are.
bits_equal : (v w : ℕ) → ((t : ℕ) → t < 4 → bit t v ≡ bit t w) → bit_and v 15 ≡ bit_and w 15
bits_equal v w same = omega (
  arith,
  nibble v,
  nibble w,
  same 0 (omega arith),
  same 1 (omega arith),
  same 2 (omega arith),
  same 3 (omega arith),
)

nibble-same : (f : ℕ) → f < 16 → bit_and f 15 ≡ f
nibble-same f h = omega (arith, nibble f)

module _ (i j f old : ℕ) (here : i < 8) (there : j < 8) (four_bits : f < 16) where
  digit :
      (t : ℕ)
      → t < 4
      → bit t (replaced i f old / 2 ^ (4 * j)) ≡ bit t (if i == j then f else old / 2 ^ (4 * j))
  digit t less =
      let read = bit-quotient (4 * j) t (replaced i f old) in
      let set = bit-replaced i f (4 * j + t) old here four_bits (omega arith) in
      let former = bit-quotient (4 * j) t old in
      elim (Bool-cases (i == j)) [
        | inl same ↦
            let e : i ≡ j = ground arith in
            let inside : in_field i (4 * j + t) ≡ true = ground arith in
            let place : 4 * j + t - 4 * i ≡ t = omega arith in
            let new : bit (4 * j + t) (replaced i f old) ≡ bit t f =
              (rw inside at set) ∙ ap (λ n. bit n f) place in
            rw same (read ∙ new)
        | inr other ↦
            let outside : in_field i (4 * j + t) ≡ false = ground arith in
            let kept : bit (4 * j + t) (replaced i f old) ≡ bit (4 * j + t) old =
              rw outside at set in
            rw other (read ∙ kept ∙ sym former)
      ]

  -- Setting one field leaves the others.
  pub field-replaced :
      field fsel_mask (4 * j) (replaced i f old)
      ≡ (if i == j then f else field fsel_mask (4 * j) old)
  field-replaced =
      let bits = bits_equal _ _ digit in
      elim (Bool-cases (i == j)) [
        | inl same ↦ rw same ((rw same at bits) ∙ nibble-same f four_bits)
        | inr other ↦ rw other (rw other at bits)
      ]
