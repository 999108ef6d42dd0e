-- ===== src/Common/Memory.antt =====
-- Byte memory: a buffer that C addresses by a pointer is the function from offsets to bytes.
use Prim.Native.Nat.{ℕ, ◌+◌, ◌-◌}
use mathlib.Core.Path.{◌≡◌}
use mathlib.Core.Bool.{◌&&◌}
use rpi5_uefi_build.Common.Tests.{ltb, leb, ◌==◌, if◌then◌else◌}

abbrev pub Mem : Type 0
Mem = ℕ → ℕ

-- m[i] = v
abbrev pub store : Mem → ℕ → ℕ → Mem
store m i v j = if j == i then v else m j

-- EDK2's BaseMemoryLib, which the sources only call: what `CopyMem` and `SetMem` leave behind.
pub record BaseMemoryLib : Type 0 where
  -- CopyMem (Destination + at, Source, Length)
  pub copy_mem : Mem → ℕ → Mem → ℕ → Mem
  pub copy_mem_lem :
      (m : Mem) (at : ℕ) (source : Mem) (n j : ℕ)
      → copy_mem m at source n j ≡ (if leb at j && ltb j (at + n) then source (j - at) else m j)
  -- SetMem (Buffer + at, Length, Value)
  pub set_mem : Mem → ℕ → ℕ → ℕ → Mem
  pub set_mem_lem :
      (m : Mem) (at n v j : ℕ)
      → set_mem m at n v j ≡ (if leb at j && ltb j (at + n) then v else m j)
