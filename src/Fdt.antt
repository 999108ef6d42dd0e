-- ===== src/Fdt.antt =====
-- What the drivers read from the device tree that the VPU passes: GetTranslatedRegAddress (Platform/
-- RaspberryPi/RPi5/Drivers/PowerButtonDxe/PowerButtonDxe.c and, as BlGetTranslatedRegAddress,
-- BootloaderConfigDxe/BootloaderConfigDxe.c, under meta-rpi5-uefi/recipes-bsp/edk2-platforms/files/
-- edk2-platforms) and Platform/RaspberryPi/Library/BoardInfoLib/BoardInfoLib.c. EDK2's FdtLib is
-- a parameter; a negative offset or cell count is `none`.
pub mod Ranges
pub mod Climb
pub mod Tests
use rpi5_uefi_build.Common.{
  ℕ, zero, suc, ◌+◌, ◌-◌, ◌*◌, ◌/◌, ◌^◌, ◌<◌, ◌≡◌, Bool, true, false, ◌&&◌, ◌||◌, Option, none,
  some, List, [], ◌∷◌, ltb, leb, ◌==◌, if◌then◌else◌, u64, Mem, min,
}

infixl 5 ◌>>=◌
abbrev pub ◌>>=◌ : {A B : Type 0} → Option A → (A → Option B) → Option B
none >>= f = none
some a >>= f = f a

-- A property's value, with its length.
pub record Property : Type 0 where
  pub len : ℕ
  pub bytes : Mem

-- EDK2's FdtLib on one tree, whose root has offset 0. A name is the list of its characters.
pub record FdtLib : Type 0 where
  pub path_offset : List ℕ → Option ℕ
  pub parent_offset : ℕ → Option ℕ
  pub get_prop : ℕ → List ℕ → Option Property
  pub address_cells : ℕ → Option ℕ
  pub size_cells : ℕ → Option ℕ
  -- The nodes that FdtNodeOffsetByCompatible gives, from call to call.
  pub compatible : List ℕ → List ℕ
  pub offset_by_phandle : ℕ → Option ℕ
  -- The nodes that FdtFirstSubnode and FdtNextSubnode give.
  pub subnodes : ℕ → List ℕ

-- In a flattened tree a node lies behind its parent.
pub record IsFlattened (fdt : FdtLib) : Type 0 where
  pub parent_first : (node parent : ℕ) → fdt.parent_offset node ≡ some parent → parent < node

-- Fdt32ToCpu (Cell[i])
unfoldable pub cell : Mem → ℕ → ℕ
cell p i = p (4 * i) * 2 ^ 24 + p (4 * i + 1) * 2 ^ 16 + p (4 * i + 2) * 2 ^ 8 + p (4 * i + 3)

-- `ReadCells`, with the value so far. The shift leaves the low bits zero, so `|` is a sum.
unfoldable pub read_cells : Mem → ℕ → ℕ → ℕ → ℕ
read_cells p i zero value = value
read_cells p i (suc count) value = read_cells p (i + 1) count (u64 (value * 2 ^ 32) + cell p i)

-- The entries of "ranges" that are left, from cell `i` on: the address on the parent bus.
unfoldable pub match_ranges : Mem → ℕ → ℕ → ℕ → ℕ → ℕ → ℕ → Option ℕ
match_ranges p ac pc sc addr zero i = none
match_ranges p ac pc sc addr (suc left) i =
    let rest = match_ranges p ac pc sc addr left (i + (ac + pc + sc)) in
    let child = read_cells p i ac 0 in
    let parent = read_cells p (i + ac) pc 0 in
    let size = read_cells p (i + ac + pc) sc 0 in
    if leb child addr && ltb (addr - child) size then some (u64 (parent + (addr - child))) else rest

-- An empty "ranges", or none, maps 1:1.
abbrev pub through : Option Property → ℕ → ℕ → ℕ → ℕ → Option ℕ
through none ac pc sc addr = some addr
through (some prop) ac pc sc addr =
    if prop.len == 0
    then some addr
    else match_ranges prop.bytes ac pc sc addr (prop.len / ((ac + pc + sc) * 4)) 0

-- A count of cells in a range.
abbrev pub between : ℕ → ℕ → Option ℕ → Option ℕ
between lo hi none = none
between lo hi (some n) = if ltb n lo || ltb hi n then none else some n

abbrev pub ranges_name : List ℕ
ranges_name = b'r' ∷ b'a' ∷ b'n' ∷ b'g' ∷ b'e' ∷ b's' ∷ []

abbrev pub reg_name : List ℕ
reg_name = b'r' ∷ b'e' ∷ b'g' ∷ []

-- Where the walk to the root ends: out of fuel, refused, or with an address.
pub data Walk : Type 0 where
  stuck refused : Walk
  at : ℕ → Walk

-- A bus, its cell counts, and the address on it.
pub record Place : Type 0 where
  pub bus : ℕ
  pub ac : ℕ
  pub sc : ℕ
  pub addr : ℕ

module _ (fdt : FdtLib) where
  -- One round of the walk: the parent bus.
  unfoldable pub step_up : Place → Option Place
  step_up place = do
    parent ← fdt.parent_offset place.bus
    pc ← between 1 2 (fdt.address_cells parent)
    addr ← through (fdt.get_prop place.bus ranges_name) place.ac pc place.sc place.addr
    sc ← between 0 2 (fdt.size_cells parent)
    some (record { bus = parent; ac = pc; sc = sc; addr = addr })

  -- The loop to the root.
  unfoldable pub climb : ℕ → Place → Walk
  climb zero place = stuck
  climb (suc fuel) place =
      let next : Walk = elim (step_up place) [ none ↦ refused | some place' ↦ climb fuel place' ] in
      if place.bus == 0 then at place.addr else next

  -- "reg" of a node on a bus, and its size.
  unfoldable pub first_reg : ℕ → ℕ → Option (Place × ℕ)
  first_reg node bus = do
    ac ← between 1 2 (fdt.address_cells bus)
    sc ← between 0 2 (fdt.size_cells bus)
    prop ← fdt.get_prop node reg_name
    (if ltb prop.len ((ac + sc) * 4)
        then none
        else some (
          record { bus = bus; ac = ac; sc = sc; addr = read_cells prop.bytes 0 ac 0 },
          read_cells prop.bytes ac sc 0,
        ))

  -- `GetTranslatedRegAddress` and `BlGetTranslatedRegAddress`: the address and the size.
  unfoldable pub translated_reg : ℕ → Option (Walk × ℕ)
  translated_reg node = do
    bus ← fdt.parent_offset node
    (place, size) ← first_reg node bus
    some (climb (place.bus + 1) place, size)

-- TRUE with the address and the size, or FALSE.
abbrev pub address_of : Option (Walk × ℕ) → Option (ℕ × ℕ)
address_of none = none
address_of (some (stuck, size)) = none
address_of (some (refused, size)) = none
address_of (some (at addr, size)) = some (addr, size)

abbrev pub first : List ℕ → Option ℕ
first [] = none
first (node ∷ nodes) = some node

abbrev pub or_else {ℓ} : {A : Type ℓ} → Option A → Option A → Option A
or_else none o = o
or_else (some a) o = some a

abbrev pub blconfig_name : List ℕ
blconfig_name = b'b' ∷ b'l' ∷ b'c' ∷ b'o' ∷ b'n' ∷ b'f' ∷ b'i' ∷ b'g' ∷ []

-- "raspberrypi,bootloader-config"
abbrev pub bootloader_config_name : List ℕ
bootloader_config_name =
    b'r' ∷ b'a' ∷ b's' ∷ b'p' ∷ b'b' ∷ b'e' ∷ b'r' ∷ b'r' ∷ b'y' ∷ b'p' ∷ b'i' ∷ b',' ∷ b'b' ∷ b'o'
    ∷ b'o' ∷ b't' ∷ b'l' ∷ b'o' ∷ b'a' ∷ b'd' ∷ b'e' ∷ b'r' ∷ b'-' ∷ b'c' ∷ b'o' ∷ b'n' ∷ b'f'
    ∷ b'i' ∷ b'g' ∷ []

-- `FindBlconfigNode`
unfoldable pub find_blconfig_node : FdtLib → Option ℕ
find_blconfig_node fdt =
    or_else (first (fdt.compatible bootloader_config_name)) (fdt.path_offset blconfig_name)

-- The staging of the blconfig region: the length of what is read, and the region's address. The limits are
-- BLCONFIG_REGION_MAX and BLCONFIG_STAGE_MAX, BLCONFIG_VAR_MAX_LEN for BootloaderConfigDxe.
abbrev pub blconfig_region_max : ℕ
blconfig_region_max = 0x1_0000

abbrev pub blconfig_stage_max : ℕ
blconfig_stage_max = 0x2000

unfoldable pub blconfig_region : FdtLib → Option (ℕ × ℕ)
blconfig_region fdt = do
  node ← find_blconfig_node fdt
  (address, size) ← address_of (translated_reg fdt node)
  (if address == 0 || (size == 0 || leb blconfig_region_max size)
      then none
      else some (address, min size blconfig_stage_max))

-- The bytes that are read from a region, one by one.
abbrev pub staged : Mem → ℕ → ℕ → List ℕ
staged memory address zero = []
staged memory address (suc n) = memory address ∷ staged memory (address + 1) n
