-- ===== src/BoardRevision.antt =====
-- Platform/RaspberryPi/Library/BoardRevisionHelperLib/BoardRevisionHelperLib.c (under
-- meta-rpi5-uefi/recipes-bsp/edk2-platforms/files/edk2-platforms): what a board's revision code says.
-- A switch is a table of its cases; NULL is `none`.
pub mod Tables
pub mod Tests
use Prim.Native.String.{String}
use rpi5_uefi_build.Common.{
  ℕ, ◌-◌, ◌*◌, ◌/◌, ◌%◌, ◌^◌, Bool, ◌||◌, Option, none, some, List, [], ◌∷◌, leb, ◌==◌,
  if◌then◌else◌, u64,
}

-- The first case for `key`.
unfoldable pub switch {ℓ} : {A : Type ℓ} → ℕ → List (ℕ × A) → Option A
switch key [] = none
switch key ((k, v) ∷ cases) = let later = switch key cases in if key == k then some v else later

-- The value behind `default:`, or after the switch.
abbrev pub or_else {ℓ} : {A : Type ℓ} → Option A → A → A
or_else none d = d
or_else (some v) d = v

abbrev pub memory_size_field : ℕ → ℕ
memory_size_field rev = rev / 2 ^ 20 % 2 ^ 3

abbrev pub manufacturer_field : ℕ → ℕ
manufacturer_field rev = rev / 2 ^ 16 % 2 ^ 4

abbrev pub processor_field : ℕ → ℕ
processor_field rev = rev / 2 ^ 12 % 2 ^ 4

abbrev pub type_field : ℕ → ℕ
type_field rev = rev / 2 ^ 4 % 2 ^ 8

abbrev pub revision_field : ℕ → ℕ
revision_field rev = rev % 2 ^ 4

abbrev pub size_256mb : ℕ
size_256mb = 0x1000_0000

unfoldable pub get_memory_size : ℕ → ℕ
get_memory_size rev = if rev == 0 then size_256mb else u64 (size_256mb * 2 ^ memory_size_field rev)

-- The cases of `BoardRevisionGetModelFamily`.
abbrev pub families : List (ℕ × ℕ)
families =
    (0x00, 1)
    ∷ (0x01, 1)
    ∷ (0x02, 1)
    ∷ (0x03, 1)
    ∷ (0x06, 1)
    ∷ (0x09, 1)
    ∷ (0x0c, 1)
    ∷ (0x04, 2)
    ∷ (0x08, 3)
    ∷ (0x0a, 3)
    ∷ (0x0d, 3)
    ∷ (0x0e, 3)
    ∷ (0x10, 3)
    ∷ (0x11, 4)
    ∷ (0x13, 4)
    ∷ (0x14, 4)
    ∷ (0x17, 5)
    ∷ (0x18, 5)
    ∷ (0x19, 5)
    ∷ (0x1a, 5)
    ∷ []

unfoldable pub get_model_family : ℕ → ℕ
unfolding switch
get_model_family rev = if rev == 0 then 0 else or_else (switch (type_field rev) families) 0

-- The cases of `BoardRevisionGetModelName`.
abbrev pub models : List (ℕ × String)
models =
    (0x00, "Raspberry Pi Model A")
    ∷ (0x01, "Raspberry Pi Model B")
    ∷ (0x02, "Raspberry Pi Model A+")
    ∷ (0x03, "Raspberry Pi Model B+")
    ∷ (0x04, "Raspberry Pi 2 Model B")
    ∷ (0x06, "Raspberry Pi Compute Module 1")
    ∷ (0x08, "Raspberry Pi 3 Model B")
    ∷ (0x09, "Raspberry Pi Zero")
    ∷ (0x0a, "Raspberry Pi Compute Module 3")
    ∷ (0x0c, "Raspberry Pi Zero W")
    ∷ (0x0d, "Raspberry Pi 3 Model B+")
    ∷ (0x0e, "Raspberry Pi 3 Model A+")
    ∷ (0x10, "Raspberry Pi Compute Module 3+")
    ∷ (0x11, "Raspberry Pi 4 Model B")
    ∷ (0x13, "Raspberry Pi 400")
    ∷ (0x14, "Raspberry Pi Compute Module 4")
    ∷ (0x17, "Raspberry Pi 5 Model B")
    ∷ (0x18, "Raspberry Pi Compute Module 5")
    ∷ (0x19, "Raspberry Pi 500")
    ∷ (0x1a, "Raspberry Pi Compute Module 5 Lite")
    ∷ []

unfoldable pub get_model_name : ℕ → String
unfolding switch
get_model_name rev =
    if rev == 0
    then "Unknown Raspberry Pi Model"
    else or_else (switch (type_field rev) models) "Unknown Raspberry Pi Model"

-- BOARD_VARIANT_FROM_REVISION
abbrev pub variant_from_revision : ℕ
variant_from_revision = 2 ^ 64 - 1

-- `FdtNameByVariant` on `mFdtNamesRpi5B`, which has two entries.
unfoldable pub rpi5_fdt_name : ℕ → ℕ → String
rpi5_fdt_name rev variant =
    let wanted = if variant == variant_from_revision then revision_field rev else variant in
    let index = if leb 2 wanted then 0 else wanted in
    if index == 0 then "bcm2712-rpi-5-b.dtb" else "bcm2712-d-rpi-5-b.dtb"

-- The cases of `BoardRevisionGetFdtName` but 0x17, the Pi 5 B.
abbrev pub fdt_names : List (ℕ × String)
fdt_names =
    (0x00, "bcm2835-rpi-a.dtb")
    ∷ (0x01, "bcm2835-rpi-b.dtb")
    ∷ (0x02, "bcm2835-rpi-a-plus.dtb")
    ∷ (0x03, "bcm2835-rpi-b-plus.dtb")
    ∷ (0x04, "bcm2836-rpi-2-b.dtb")
    ∷ (0x06, "bcm2835-rpi-cm.dtb")
    ∷ (0x08, "bcm2837-rpi-3-b.dtb")
    ∷ (0x09, "bcm2835-rpi-zero.dtb")
    ∷ (0x0a, "bcm2837-rpi-cm3.dtb")
    ∷ (0x0c, "bcm2835-rpi-zero-w.dtb")
    ∷ (0x0d, "bcm2837-rpi-3-b-plus.dtb")
    ∷ (0x0e, "bcm2837-rpi-3-a-plus.dtb")
    ∷ (0x10, "bcm2837-rpi-cm3.dtb")
    ∷ (0x11, "bcm2711-rpi-4-b.dtb")
    ∷ (0x12, "bcm2837-rpi-zero-2-w.dtb")
    ∷ (0x13, "bcm2711-rpi-400.dtb")
    ∷ (0x14, "bcm2711-rpi-cm4.dtb")
    ∷ (0x18, "bcm2712-rpi-cm5-cm5io.dtb")
    ∷ (0x19, "bcm2712-rpi-500.dtb")
    ∷ (0x1a, "bcm2712-rpi-cm5l-cm5io.dtb")
    ∷ []

-- Codes without bit 23 are of the old scheme.
abbrev pub is_old_scheme : ℕ → Bool
is_old_scheme rev = rev == 0 || rev / 2 ^ 23 % 2 == 0

unfoldable pub get_fdt_name : ℕ → ℕ → Option String
unfolding switch rpi5_fdt_name
get_fdt_name rev variant =
    if is_old_scheme rev
    then none
    else if type_field rev == 0x17
    then some (rpi5_fdt_name rev variant)
    else switch (type_field rev) fdt_names

-- The cases of `BoardRevisionGetManufacturerName`.
abbrev pub manufacturers : List (ℕ × String)
manufacturers =
    (0x00, "Sony UK")
    ∷ (0x01, "Egoman")
    ∷ (0x02, "Embest")
    ∷ (0x04, "Embest")
    ∷ (0x03, "Sony Japan")
    ∷ (0x05, "Stadium")
    ∷ []

unfoldable pub get_manufacturer_name : ℕ → String
unfolding switch
get_manufacturer_name rev =
    if rev == 0
    then "Unknown Manufacturer"
    else or_else (switch (manufacturer_field rev) manufacturers) "Unknown Manufacturer"

-- The cases of `BoardRevisionGetProcessorName`.
abbrev pub processors : List (ℕ × String)
processors =
    (0x00, "BCM2835 (ARM11)")
    ∷ (0x01, "BCM2836 (Arm Cortex-A7)")
    ∷ (0x02, "BCM2837 (Arm Cortex-A53)")
    ∷ (0x03, "BCM2711 (Arm Cortex-A72)")
    ∷ (0x04, "BCM2712 (Arm Cortex-A76)")
    ∷ []

unfoldable pub get_processor_name : ℕ → String
unfolding switch
get_processor_name rev =
    if rev == 0
    then "Unknown CPU Model"
    else or_else (switch (processor_field rev) processors) "Unknown CPU Model"
