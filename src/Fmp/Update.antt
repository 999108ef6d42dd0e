-- ===== src/Fmp/Update.antt =====
-- Rpi5FmpDeviceLib.c: finding the firmware file, reading it and writing it.
use rpi5_uefi_build.Common.{
  ℕ, zero, suc, ◌+◌, Bool, true, false, not, ◌&&◌, ◌||◌, Option, none, some, List, [], ◌∷◌, ◌++◌,
  ltb, ◌==◌, if◌then◌else◌, Mem,
}
use rpi5_uefi_build.Common.State.{Act, pure, ◌>>=◌, ◌>>◌, run, reads}
use rpi5_uefi_build.Fmp.{
  Status, success, not_found, invalid_parameter, buffer_too_small, device_error, write_protected,
  is_error, Media, Mode, read, read_write, Files, Platform, LastAttempt, succeeded, unsuccessful,
  invalid_format, firmware_file_names, updatable_size, is_nv_store, validate_payload,
}

-- The parameters that a call leaves behind: *ImageSize and the caller's buffer.
pub record Got : Type 0 where
  pub status : Status
  pub size : Option ℕ
  pub image : Option Mem

-- The end of an update: the status, *LastAttemptStatus, and what `Progress` was called with.
pub record Attempt : Type 0 where
  pub status : Status
  pub last : Option LastAttempt
  pub reported : List ℕ

-- The media is absent, or cannot be written although it has to be.
abbrev pub is_unusable : Mode → Option Media → Bool
is_unusable mode none = false
is_unusable read (some media) = not media.present
is_unusable read_write (some media) = not media.present || media.read_only

abbrev pub or_null : Option Mem → Mem
or_null none = λ i. 0
or_null (some m) = m

-- The calls of `Progress`, if it is given.
abbrev pub told : Bool → ℕ → List ℕ
told progress percent = if progress then percent ∷ [] else []

module _ (platform : Platform) (files : Files) where
  open files use {Disk, Volume, File}

  abbrev pub judge_header : Status × ℕ × Mem → Status
  judge_header (status, n, header) =
      if is_error status || not (n == platform.header_size)
      then not_found
      else if is_nv_store platform header
      then success
      else not_found

  -- `Rpi5FmpCheckFirmwareFile`
  unfoldable pub check_firmware_file : File → Act Disk Status
  check_firmware_file file = do
    status ← files.set_position file (updatable_size platform)
    (if is_error status
        then pure not_found
        else (files.read_file file platform.header_size (λ i. 0) >>= λ r. pure (judge_header r)))

  -- A candidate that was opened, behind its check.
  abbrev pub keep_or : File → Act Disk (Option File) → Status → Act Disk (Option File)
  keep_or file rest status =
      if is_error status then (run (files.close_file file) >> rest) else pure (some file)

  abbrev pub try_opened : Act Disk (Option File) → Option File → Act Disk (Option File)
  try_opened rest none = rest
  try_opened rest (some file) = check_firmware_file file >>= keep_or file rest

  -- The loop over the names, on one volume.
  unfoldable pub try_names : Mode → Volume → List (List ℕ) → Act Disk (Option File)
  try_names mode volume [] = pure none
  try_names mode volume (name ∷ names) =
      files.open_file volume name mode >>= try_opened (try_names mode volume names)

  abbrev pub Opened : Type 0
  Opened = Option (Volume × File)

  abbrev pub found_on : Volume → Act Disk Opened → Option File → Act Disk Opened
  found_on volume rest none = run (files.close_volume volume) >> rest
  found_on volume rest (some file) = pure (some (volume, file))

  abbrev pub try_volume : Mode → Act Disk Opened → Option Volume → Act Disk Opened
  try_volume mode rest none = rest
  try_volume mode rest (some volume) =
      try_names mode volume firmware_file_names >>= found_on volume rest

  -- The loop over the handles: `left` of them from `index` on.
  unfoldable pub search_handles : Mode → ℕ → ℕ → Act Disk Opened
  search_handles mode zero index = pure none
  search_handles mode (suc left) index =
      let rest = search_handles mode left (index + 1) in
      reads (λ d. files.block_io d index) >>= λ media.
      if is_unusable mode media then rest else (files.open_volume index >>= try_volume mode rest)

  abbrev pub search_found : Mode → Option ℕ → Act Disk Opened
  search_found mode none = pure none
  search_found mode (some count) = search_handles mode count 0

  -- `Rpi5FmpOpenFirmwareFile`
  unfoldable pub open_firmware_file : Mode → Act Disk Opened
  open_firmware_file mode = reads files.handles >>= search_found mode

  -- File->Read from the start, which has to read everything.
  abbrev pub read_region : File → Mem → Act Disk (Status × Mem)
  read_region file image = do
    status ← files.set_position file 0
    (if is_error status
        then pure (status, image)
        else (files.read_file file (updatable_size platform) image >>= λ r. pure (
          if not (is_error r.0) && not (r.1 == updatable_size platform) then device_error else r.0,
          r.2,
        )))

  abbrev pub got : Status × Mem → ℕ → Got
  got (status, image) size = record {
    status = status;
    size = some (if is_error status then size else updatable_size platform);
    image = some image;
  }

  abbrev pub get_opened : Mem → ℕ → Opened → Act Disk Got
  get_opened image size none =
      pure (record { status = not_found; size = some size; image = some image })
  get_opened image size (some (volume, file)) = do
    r ← read_region file image
    run (files.close_file file)
    run (files.close_volume volume)
    pure (got r size)

  -- `FmpDeviceGetImage`, where `none` is NULL.
  unfoldable pub get_image : Option Mem → Option ℕ → Act Disk Got
  get_image image none = pure (record { status = invalid_parameter; size = none; image = image })
  get_image none (some size) =
      pure
        (record { status = buffer_too_small; size = some (updatable_size platform); image = none })
  get_image (some image) (some size) =
      if ltb size (updatable_size platform)
      then pure (record {
        status = buffer_too_small;
        size = some (updatable_size platform);
        image = some image;
      })
      else (open_firmware_file read >>= get_opened image size)

  -- The write, and the flush behind it.
  unfoldable pub write_region : File → Mem → Act Disk Status
  write_region file image = do
    status ← files.set_position file 0
    (if is_error status
        then pure status
        else (files.write_file file (updatable_size platform) image >>= λ r.
            if is_error r.0
            then pure r.0
            else if not (r.1 == updatable_size platform)
            then pure device_error
            else files.flush file))

  abbrev pub written : Bool → Status → Attempt
  written progress status =
      if is_error status
      then record { status = status; last = some unsuccessful; reported = told progress 5 }
      else record {
        status = success;
        last = some succeeded;
        reported = told progress 5 ++ told progress 100;
      }

  abbrev pub write_opened : Bool → Mem → Opened → Act Disk Attempt
  write_opened progress image none =
      pure (record { status = not_found; last = some unsuccessful; reported = [] })
  write_opened progress image (some (volume, file)) = do
    status ← write_region file image
    run (files.close_file file)
    run (files.close_volume volume)
    pure (written progress status)

  -- `FmpDeviceSetImageWithStatus`: whether LastAttemptStatus and Progress are given, and the payload.
  unfoldable pub set_image_with_status : Bool → Bool → Option Mem → ℕ → Act Disk Attempt
  set_image_with_status status_given progress image size =
      if not status_given
      then pure (record { status = invalid_parameter; last = none; reported = [] })
      else if not platform.update_supported
      then pure (record { status = write_protected; last = some unsuccessful; reported = [] })
      else if is_error (validate_payload platform image size)
      then pure (record {
        status = validate_payload platform image size;
        last = some invalid_format;
        reported = [];
      })
      else (open_firmware_file read_write >>= write_opened progress (or_null image))

  -- `FmpDeviceSetImage`
  unfoldable pub set_image : Bool → Option Mem → ℕ → Act Disk Status
  set_image progress image size =
      set_image_with_status true progress image size >>= λ r. pure r.status
