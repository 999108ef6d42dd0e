-- ===== src/Fmp.antt =====
-- Platform/RaspberryPi/RPi5/Library/Rpi5FmpDeviceLib/Rpi5FmpDeviceLib.c (under meta-rpi5-uefi/
-- recipes-bsp/edk2-platforms/files/edk2-platforms): the capsule update of the firmware file, which
-- also holds the variable store. The file system, the firmware volume header's layout and the PCDs,
-- which the build sets, are parameters; a progress callback is the list of what it is told.
pub mod Volumes
pub mod Update
pub mod Identity
pub mod Outcome
pub mod Reading
pub mod Tests
pub use Volumes.*
use rpi5_uefi_build.Common.{
  ℕ, ◌+◌, Bool, true, false, not, ◌||◌, Option, none, some, List, [], ◌∷◌, ltb, bit_or, ◌==◌,
  if◌then◌else◌, u64, sub64, Mem,
}

-- The PCDs that the file reads, and the names of EDK2 for a firmware volume: the size of its header, the
-- header's Signature and whether its FileSystemGuid is gEfiSystemNvDataFvGuid.
pub record Platform : Type 0 where
  pub nv_storage_variable_base : ℕ
  pub fd_base_address : ℕ
  pub update_supported : Bool
  pub firmware_version : ℕ
  pub firmware_version_string : List ℕ
  pub header_size : ℕ
  pub fvh_signature : ℕ
  pub signature : Mem → ℕ
  pub is_nv_guid : Mem → Bool
  pub attribute_updatable : ℕ
  pub attribute_reset_required : ℕ
  pub attribute_in_use : ℕ

-- LAST_ATTEMPT_STATUS, the values that the file reports.
pub data LastAttempt : Type 0 where
  succeeded unsuccessful invalid_format : LastAttempt

-- `mFirmwareFileNames`
abbrev pub firmware_file_names : List (List ℕ)
firmware_file_names =
    (b'a' ∷ b'r' ∷ b'm' ∷ b's' ∷ b't' ∷ b'u' ∷ b'b' ∷ b'8' ∷ b'-' ∷ b'2' ∷ b'7' ∷ b'1' ∷ b'2' ∷ b'.'
      ∷ b'b' ∷ b'i' ∷ b'n' ∷ [])
    ∷ (b'R' ∷ b'P' ∷ b'I' ∷ b'_' ∷ b'E' ∷ b'F' ∷ b'I' ∷ b'.' ∷ b'F' ∷ b'D' ∷ [])
    ∷ []

module _ (platform : Platform) where
  open platform use {update_supported, header_size, fvh_signature, signature, is_nv_guid}

  -- `RPI5_FMP_UPDATABLE_SIZE`
  abbrev pub updatable_size : ℕ
  updatable_size = sub64 platform.nv_storage_variable_base platform.fd_base_address

  -- Whether a firmware volume header is that of the variable store.
  abbrev pub is_nv_store : Mem → Bool
  is_nv_store header = not (not (signature header == fvh_signature) || not (is_nv_guid header))

  -- `Rpi5FmpValidatePayload`, where `none` is NULL.
  unfoldable pub validate_payload : Option Mem → ℕ → Status
  validate_payload none size = invalid_parameter
  validate_payload (some image) size =
      if ltb size updatable_size
      then invalid_parameter
      else if ltb updatable_size size
      then if ltb size (u64 (updatable_size + header_size))
        then invalid_parameter
        else if is_nv_store (λ i. image (updatable_size + i))
        then success
        else invalid_parameter
      else success

  -- `FmpDeviceGetSize`, whose result goes to a pointer that may be NULL.
  unfoldable pub get_size : Bool → Status × Option ℕ
  get_size size_given =
      if size_given then (success, some updatable_size) else (invalid_parameter, none)

  -- `FmpDeviceGetAttributes`, for the two pointers given or not.
  unfoldable pub get_attributes : Bool → Bool → Status × Option (ℕ × ℕ)
  get_attributes supported_given setting_given =
      if not supported_given || not setting_given then (invalid_parameter, none) else (
        success,
        some (
          bit_or (bit_or platform.attribute_updatable platform.attribute_reset_required)
              platform.attribute_in_use,
          let setting = bit_or platform.attribute_reset_required platform.attribute_in_use in
              if update_supported then bit_or setting platform.attribute_updatable else setting,
        ),
      )

  -- `FmpDeviceGetVersion`
  unfoldable pub get_version : Bool → Status × Option ℕ
  get_version version_given =
      if not version_given
      then (invalid_parameter, none)
      else (success, some platform.firmware_version)

  -- A copy of the string, unless the pool is exhausted.
  abbrev pub copied : List ℕ → Bool → Status × Option (List ℕ)
  copied [] pool = (unsupported, none)
  copied (c ∷ version) pool =
      if pool then (success, some (c ∷ version)) else (out_of_resources, none)

  -- `FmpDeviceGetVersionString`, with whether the pool has room; the PCD's text is empty also for NULL.
  unfoldable pub get_version_string : Bool → Bool → Status × Option (List ℕ)
  get_version_string string_given pool =
      if not string_given
      then (invalid_parameter, none)
      else copied platform.firmware_version_string pool

  -- `FmpDeviceCheckImageWithStatus`, for the two pointers given or not: whether *ImageUpdatable is
  -- IMAGE_UPDATABLE_VALID, and *LastAttemptStatus.
  unfoldable pub check_image_with_status :
      Bool → Bool → Option Mem → ℕ → Status × Option (Bool × LastAttempt)
  check_image_with_status updatable_given status_given image size =
      if not updatable_given || not status_given
      then (invalid_parameter, none)
      else if not update_supported
      then (success, some (false, unsuccessful))
      else if is_error (validate_payload image size)
      then (success, some (false, invalid_format))
      else (success, some (true, succeeded))

  -- `FmpDeviceCheckImage`
  unfoldable pub check_image : Bool → Option Mem → ℕ → Status × Option Bool
  check_image updatable_given image size =
      let r = check_image_with_status updatable_given true image size in
      (r.0, elim r.1 [ none ↦ none | some (valid, _) ↦ some valid ])
