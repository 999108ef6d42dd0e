-- ===== src/BootConfig.antt =====
-- Platform/RaspberryPi/RPi5/Drivers/BootloaderConfigDxe/BootloaderConfigDxe.c (under meta-rpi5-uefi/
-- recipes-bsp/edk2-platforms/files/edk2-platforms), and BlStagedMarkerCleanup of BootloaderConfigSetup.c
-- beside it: the bootloader's configuration, read at boot and published in variables. The variable
-- services and the layout of RPI_BLCFG_DATA are parameters.
pub mod Publish
pub mod Tests
use rpi5_uefi_build.Common.{
  ℕ, ◌+◌, ◌*◌, ◌/◌, ◌^◌, ◌≡◌, ◌≢◌, refl, Bool, true, false, not, ◌&&◌, ◌||◌, Option, none, some,
  List, [], ◌∷◌, ltb, leb, ◌==◌, if◌then◌else◌, length, take, u8, Mem,
}
use rpi5_uefi_build.Common.State.{Act, pure, ◌>>=◌, ◌>>◌}
use rpi5_uefi_build.Fdt
use rpi5_uefi_build.Fdt.{FdtLib, Property, cell, blconfig_region, staged}
use rpi5_uefi_build.Blcfg.{CompareLib, Values, values_from_text}
use rpi5_uefi_build.Blcfg.Data.{FormData, values_from_data, values_to_data, values_equal}

-- EFI_STATUS
pub data Status : Type 0 where
  success : Status
  failed : ℕ → Status

abbrev pub is_error : Status → Bool
is_error success = false
is_error (failed code) = true

-- BlCfg, its staged copy, BMC_VAR_BOOTLOADER_CONFIG and BMC_VAR_BOOTLOADER_TIMESTAMP.
pub data Name : Type 0 where
  setup staged_setup config timestamp : Name

-- GetVariable and SetVariable, over an unknown state. A variable of size 0 is deleted.
pub record Variables : Type 1 where
  pub State : Type 0
  -- With the size of the buffer.
  pub get_variable : Name → ℕ → Act State (Status × List ℕ)
  pub set_variable : Name → List ℕ → Act State Status
  pub value : State → Name → List ℕ

-- RPI_BLCFG_DATA in memory.
pub record FormLayout : Type 0 where
  pub size : ℕ
  pub to_bytes : FormData → List ℕ
  pub of_bytes : List ℕ → FormData

-- The static variables. `raw` is mBlconfigRaw with its length.
pub record Boot : Type 0 where
  pub raw : Option (List ℕ)
  pub text_len : ℕ
  pub current : Values
  pub dtb_timestamp : ℕ
  pub has_timestamp : Bool
  pub published : Bool

-- A UINT32 in memory.
abbrev pub le32 : ℕ → List ℕ
le32 n = u8 n ∷ u8 (n / 2 ^ 8) ∷ u8 (n / 2 ^ 16) ∷ u8 (n / 2 ^ 24) ∷ []

abbrev pub of_le32 : List ℕ → ℕ
of_le32 [] = 0
of_le32 (b ∷ bytes) = b + 2 ^ 8 * of_le32 bytes

-- "/chosen/bootloader"
abbrev pub bootloader_path : List ℕ
bootloader_path =
    b'/' ∷ b'c' ∷ b'h' ∷ b'o' ∷ b's' ∷ b'e' ∷ b'n' ∷ b'/' ∷ b'b' ∷ b'o' ∷ b'o' ∷ b't' ∷ b'l' ∷ b'o'
    ∷ b'a' ∷ b'd' ∷ b'e' ∷ b'r' ∷ []

-- "update-timestamp"
abbrev pub update_timestamp_name : List ℕ
update_timestamp_name =
    b'u' ∷ b'p' ∷ b'd' ∷ b'a' ∷ b't' ∷ b'e' ∷ b'-' ∷ b't' ∷ b'i' ∷ b'm' ∷ b'e' ∷ b's' ∷ b't' ∷ b'a'
    ∷ b'm' ∷ b'p' ∷ []

abbrev pub stamp_of : Option Property → Option ℕ
stamp_of none = none
stamp_of (some prop) = if prop.len == 4 then some (cell prop.bytes 0) else none

-- The text ends at the first NUL or erased byte.
unfoldable pub text_length : List ℕ → ℕ
text_length [] = 0
text_length (c ∷ raw) = let rest = text_length raw in if c == 0 || c == 0xff then 0 else rest + 1

abbrev pub or_empty : Option (List ℕ) → List ℕ
or_empty none = []
or_empty (some l) = l

abbrev pub is_some : Option ℕ → Bool
is_some none = false
is_some (some n) = true

abbrev pub or_zero : Option ℕ → ℕ
or_zero none = 0
or_zero (some n) = n

-- The region in a pool buffer, if AllocatePool succeeds.
abbrev pub staged_region : Mem → Bool → Option (ℕ × ℕ) → Option (List ℕ)
staged_region memory pool none = none
staged_region memory pool (some (address, n)) =
    if pool then some (staged memory address n) else none

-- `LoadBlconfig` and BlValuesFromText behind it, with whether the tree's header is valid.
unfoldable pub load_blconfig : CompareLib → FdtLib → Bool → Mem → Bool → Boot
load_blconfig lib fdt header_ok memory pool =
    let stamp =
      if header_ok
      then Fdt.◌>>=◌ (fdt.path_offset bootloader_path)
          (λ node. stamp_of (fdt.get_prop node update_timestamp_name))
      else none in
    let raw = if header_ok then staged_region memory pool (blconfig_region fdt) else none in
    record {
      raw = raw;
      text_len = text_length (or_empty raw);
      current = values_from_text lib (take (text_length (or_empty raw)) (or_empty raw));
      dtb_timestamp = or_zero stamp;
      has_timestamp = is_some stamp;
      published = false;
    }

module _ (lib : CompareLib) (layout : FormLayout) (variables : Variables) where
  open variables use {State, get_variable, set_variable}

  abbrev pub is_synced : List ℕ → Status × List ℕ → Bool
  is_synced form (status, bytes) =
      not (is_error status) && (length bytes == layout.size && lib.compare_mem bytes form == 0)

  -- `SyncSetupVariable`; what SetVariable returns is only printed.
  unfoldable pub sync_setup_variable : Boot → Act State (Unit {0})
  sync_setup_variable boot =
      let form = layout.to_bytes (values_to_data boot.current) in
      get_variable setup layout.size >>= λ r.
      if is_synced form r then pure tt else (set_variable setup form >>= λ status. pure tt)

  -- Whether the staged values are the ones that run.
  abbrev pub is_applied : Boot → List ℕ → Bool
  is_applied boot bytes =
      (length bytes == layout.size) && elim (values_from_data (layout.of_bytes bytes)) [
        | none ↦ false
        | some values ↦ values_equal lib values boot.current
      ]

  abbrev pub forget_staged : Boot → Act State (Unit {0}) → Status × List ℕ → Act State (Unit {0})
  forget_staged boot delete_files (status, bytes) =
      if is_error status
      then pure tt
      else ((if is_applied boot bytes then delete_files else pure tt)
          >> (set_variable staged_setup [] >>= λ deleted. pure tt))

  -- `BlStagedMarkerCleanup`, with the deletion of the two files on the boot volume.
  unfoldable pub staged_marker_cleanup : Boot → Act State (Unit {0}) → Act State (Unit {0})
  staged_marker_cleanup boot delete_files =
      get_variable staged_setup layout.size >>= forget_staged boot delete_files

  abbrev pub is_current : Boot → Status × List ℕ → Bool
  is_current boot (status, bytes) =
      not (is_error status) && (length bytes == 4 && leb boot.dtb_timestamp (of_le32 bytes))

  -- The configuration first, then the timestamp.
  abbrev pub publish : Boot → Option (List ℕ) → Act State (Unit {0})
  publish boot none = pure tt
  publish boot (some raw) = set_variable config raw >>= λ status.
      if is_error status
      then pure tt
      else (set_variable timestamp (le32 boot.dtb_timestamp) >>= λ status'. pure tt)

  abbrev pub publish_if : Boot → Act State (Unit {0})
  publish_if boot =
      if not boot.has_timestamp
      then pure tt
      else (get_variable timestamp 4 >>= λ r.
          if is_current boot r then pure tt else publish boot boot.raw)

  -- `BootloaderConfigOnReadyToBoot`
  unfoldable pub on_ready_to_boot : Boot → Act State (Unit {0}) → Act State Boot
  on_ready_to_boot boot delete_files =
      if boot.published
      then pure boot
      else (staged_marker_cleanup boot delete_files
          >> (publish_if boot >>= λ done. pure (record boot { published = true })))

  -- `BootloaderConfigEntryPoint`, with the Setup page's installation and the status of
  -- EfiCreateEventReadyToBootEx.
  unfoldable pub bootloader_config_entry_point :
      FdtLib → Bool → Mem → Bool → Act State (Unit {0}) → Status → Act State (Status × Boot)
  bootloader_config_entry_point fdt header_ok memory pool install_page created =
      let boot = load_blconfig lib fdt header_ok memory pool in
      sync_setup_variable boot >> (install_page >> pure (created, boot))
