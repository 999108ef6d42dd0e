-- ===== src/Eeprom/Bytes.antt =====
-- Reading back what `PutBe32` and `PutLe32` write, and what the fill loop leaves behind.
use rpi5_uefi_build.Common.{
  ℕ, zero, suc, ◌+◌, ◌*◌, ◌/◌, ◌%◌, ◌^◌, ◌≤◌, ◌<◌, ◌≡◌, refl, ap, ◌⊎◌, true, false, arith, u64, Mem,
  store, Bool-cases, inl, inr, ◌==◌,
}
use rpi5_uefi_build.Eeprom.{be32, put_be32, put_le32}
use rpi5_uefi_build.Eeprom.Update.{fill_to_8}

pub put_be32_outside : (m : Mem) (i v j : ℕ) → (j < i) ⊎ (i + 4 ≤ j) → put_be32 m i v j ≡ m j
unfolding put_be32
put_be32_outside m i v j h = ground arith

pub put_le32_outside : (m : Mem) (i v j : ℕ) → (j < i) ⊎ (i + 4 ≤ j) → put_le32 m i v j ≡ m j
unfolding put_le32
put_le32_outside m i v j h = ground arith

pub be32-put_be32 : (m : Mem) (i v : ℕ) → v < 2 ^ 32 → be32 (put_be32 m i v) i ≡ v
unfolding be32 put_be32
be32-put_be32 m i v h = ground arith

-- A word depends on its four bytes.
pub be32_local :
    (m m' : Mem) (i : ℕ) → ((j : ℕ) → i ≤ j → j < i + 4 → m' j ≡ m j) → be32 m' i ≡ be32 m i
unfolding be32
be32_local m m' i h = ground (
  arith,
  h i (omega arith) (omega arith),
  h (i + 1) (omega arith) (omega arith),
  h (i + 2) (omega arith) (omega arith),
  h (i + 3) (omega arith) (omega arith),
)

-- One round of the fill.
fill_to_8-stop :
    (fuel : ℕ) (m : Mem) (at : ℕ) → (at % 8 == 0) ≡ true → fill_to_8 (suc fuel) m at ≡ (m, at)
unfolding fill_to_8
fill_to_8-stop fuel m at e = rw e

fill_to_8-more :
    (fuel : ℕ) (m : Mem) (at : ℕ)
    → (at % 8 == 0) ≡ false
    → at < 2 ^ 63
    → fill_to_8 (suc fuel) m at ≡ fill_to_8 fuel (store m at 0xff) (at + 1)
unfolding fill_to_8
fill_to_8-more fuel m at e low =
    let next : u64 (at + 1) ≡ at + 1 = omega arith in
    rw e (ap (λ n. fill_to_8 fuel (store m at 0xff) n) next)

-- What the fill has done: it ends at `at` rounded up to a multiple of 8, has written 0xFF up to
-- there and nothing else.
pub record IsFilled (m : Mem) (at : ℕ) (out : Mem × ℕ) : Type 0 where
  pub ends : out.1 ≡ (at + 7) / 8 * 8
  pub same : (j : ℕ) → (j < at) ⊎ ((at + 7) / 8 * 8 ≤ j) → out.0 j ≡ m j
  pub filled : (j : ℕ) → at ≤ j → j < (at + 7) / 8 * 8 → out.0 j ≡ 0xff

pub fill_to_8-IsFilled :
    (fuel : ℕ) (m : Mem) (at : ℕ)
    → at + 8 ≤ 2 ^ 63
    → (at + 7) / 8 * 8 ≤ at + fuel
    → IsFilled m at (fill_to_8 fuel m at)
fill_to_8-IsFilled zero m at low h =
    unfold fill_to_8 in
    record { ends = omega arith; same = λ j o. refl; filled = λ j p q. absurd (omega arith) }
fill_to_8-IsFilled (suc fuel) m at low h = elim (Bool-cases (at % 8 == 0)) [
  | inl e ↦
      rw (fill_to_8-stop fuel m at e) (record {
        ends = ground arith;
        same = λ j o. refl;
        filled = λ j p q. absurd (ground arith);
      })
  | inr e ↦
      let rest = fill_to_8-IsFilled fuel (store m at 0xff) (at + 1) (ground arith) (ground arith) in
      rw (fill_to_8-more fuel m at e (omega arith)) (record {
        ends = ground (arith, rest.ends);
        same = λ j o. ground (arith, rest.same j);
        filled = λ j p q. ground (arith, rest.same j, rest.filled j);
      })
]
