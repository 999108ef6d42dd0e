-- ===== src/Common/Mmio.antt =====
-- Memory-mapped registers. A driver's run is a history of accesses, newest first; what a read
-- returns is the device's answer to the history so far, which the model leaves open.
use rpi5_uefi_build.Common.Word.{u32}
use Prim.Native.Nat.{bit_and, bit_or, ℕ}
use mathlib.Core.List.{List, ◌∷◌}

pub data Access : Type 0 where
  rd : ℕ → ℕ → Access
  wr : ℕ → ℕ → Access

abbrev pub History : Type 0
History = List Access

-- The answer of the hardware to a 32-bit read of an address.
pub record Device : Type 0 where
  pub reply : History → ℕ → ℕ

abbrev pub M {ℓ} : Type ℓ → Type ℓ
M A = History → A × History

abbrev pub pure {ℓ} : {A : Type ℓ} → A → M A
pure a h = (a, h)

infixl 5 ◌>>=◌ ◌>>◌
abbrev pub ◌>>=◌ {ℓ κ} : {A : Type ℓ} {B : Type κ} → M A → (A → M B) → M B
◌>>=◌ m f h = let (a, h') = m h in f a h'

abbrev pub ◌>>◌ {κ} : {B : Type κ} → M (Unit {0}) → M B → M B
m >> k = m >>= λ _. k

-- MmioWrite32
abbrev pub write32 : ℕ → ℕ → M (Unit {0})
write32 a v h = (tt, wr a v ∷ h)

-- MmioRead32
abbrev pub read32 : Device → ℕ → M ℕ
read32 d a h = let v = u32 (d.reply h a) in (v, rd a v ∷ h)

-- MmioOr32
abbrev pub or32 : Device → ℕ → ℕ → M (Unit {0})
or32 d a v = read32 d a >>= λ old. write32 a (bit_or old v)

-- MmioAnd32
abbrev pub and32 : Device → ℕ → ℕ → M (Unit {0})
and32 d a v = read32 d a >>= λ old. write32 a (bit_and old v)
