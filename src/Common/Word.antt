-- ===== src/Common/Word.antt =====
-- Casts to the fixed widths and the wrapping operations of C. `-` on ℕ stops at 0, so a wrapping
-- difference adds the modulus first.
use Prim.Native.Nat.{ℕ, ◌+◌, ◌-◌, ◌/◌, ◌%◌, ◌*◌, ◌^◌}

abbrev pub u8 : ℕ → ℕ
u8 n = n % 2 ^ 8

abbrev pub u32 : ℕ → ℕ
u32 n = n % 2 ^ 32

abbrev pub u64 : ℕ → ℕ
u64 n = n % 2 ^ 64

-- a - b on UINT64 and on UINTN, which has 64 bits on AArch64.
abbrev pub sub64 : ℕ → ℕ → ℕ
sub64 a b = u64 (a + 2 ^ 64 - b)

-- ~v on UINT32.
abbrev pub not32 : ℕ → ℕ
not32 v = 2 ^ 32 - 1 - u32 v

-- (x + 7) & ~(UINTN)7
abbrev pub align8 : ℕ → ℕ
align8 x = u64 (x + 7) / 8 * 8

abbrev pub u16 : ℕ → ℕ
u16 n = n % 2 ^ 16
