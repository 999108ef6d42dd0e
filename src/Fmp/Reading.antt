-- ===== src/Fmp/Reading.antt =====
-- What FmpDeviceGetImage of Rpi5FmpDeviceLib.c gives.
use rpi5_uefi_build.Common.{
  ℕ, ◌<◌, ◌≡◌, refl, ap, ◌∙◌, not, ◌&&◌, Option, none, some, ◌==◌, ltb, if◌then◌else◌, Bool-cases,
  arith, Mem, inl, inr,
}
use rpi5_uefi_build.Common.State.{if_both}
use rpi5_uefi_build.Fmp.{
  Status, success, device_error, is_error, read, Files, Same, IsLawful, Platform, updatable_size,
}
use rpi5_uefi_build.Fmp.Update.{
  Got, or_null, open_firmware_file, read_region, get_opened, get_image,
}
use rpi5_uefi_build.Fmp.Identity.{
  success_of, IsFirmware, open_firmware_file-Same, open_firmware_file-IsFirmware,
}

module _ (platform : Platform) (files : Files) where
  open files use {Disk, Volume, File, FileId, bytes, file_of}

  -- No file changes; with success the buffer has the region of a firmware file, and *ImageSize its size.
  abbrev pub GetOutcome : Disk → Got × Disk → Type 0
  GetOutcome d r =
      Same files d r.1
      × (r.0.status ≡ success
          → (id : FileId) × IsFirmware platform files d id
            × (r.0.size ≡ some (updatable_size platform))
            × ((j : ℕ) → j < updatable_size platform → or_null r.0.image j ≡ bytes d id j))

  whole_read :
      (s : Status) (n : ℕ)
      → (if not (is_error s) && not (n == updatable_size platform) then device_error else s)
        ≡ success
      → (s ≡ success) × (n ≡ updatable_size platform)
  whole_read s n e = elim (Bool-cases (is_error s)) [
    | inl bad ↦ absurd (ground arith)
    | inr good ↦ (success_of s good, ground (arith, success_of s good))
  ]

  module _ (lawful : IsLawful files) where
    read_region_lem :
        (f : File) (image : Mem) (d : Disk)
        → Same files d (read_region platform files f image d).1
          × ((read_region platform files f image d).0.0 ≡ success
              → (j : ℕ) → j < updatable_size platform
              → (read_region platform files f image d).0.1 j ≡ bytes d (file_of f) j)
    read_region_lem f image d =
        let at = (files.set_position f 0 d).1 in
        let moved = lawful.set_position-Same f 0 d in
        let size = updatable_size platform in
        let r = files.read_file f size image at in
        elim (Bool-cases (is_error (files.set_position f 0 d).0)) [
          | inl bad ↦ rw bad (moved, λ e. absurd (ground arith))
          | inr good ↦ rw good (
              let start = lawful.position-set_position f 0 d (success_of _ good) in
              (
                λ id j. lawful.read_file-Same f size image at id j ∙ moved id j,
                λ e j less.
                    let (done, whole) = whole_read r.0.0 r.0.1 e in
                    lawful.read_file_lem f size image at j done (omega (arith, whole))
                    ∙ ap (bytes at (file_of f)) (omega (arith, start))
                    ∙ moved (file_of f) j,
              ))
        ]

    get_opened-GetOutcome :
        (image : Mem) (size : ℕ) (o : Option (Volume × File)) (d d' : Disk)
        → Same files d d'
        → ((x : Volume × File) → o ≡ some x → IsFirmware platform files d (file_of x.1))
        → GetOutcome d (get_opened platform files image size o d')
    get_opened-GetOutcome image size none d d' same firmware = (same, λ e. absurd (cc))
    get_opened-GetOutcome image size (some (v, f)) d d' same firmware =
        let r = read_region platform files f image d' in
        let (kept, gives) = read_region_lem f image d' in
        (
          λ id j.
              lawful.close_volume-Same v (files.close_file f r.1) id j
              ∙ lawful.close_file-Same f r.1 id j
              ∙ kept id j
              ∙ same id j,
          λ e. (
            file_of f,
            firmware (v, f) refl,
            rw e refl,
            λ j less. gives e j less ∙ same (file_of f) j,
          ),
        )

    -- With lawful file protocols, FmpDeviceGetImage changes no file; with success the buffer
    -- has the updatable region of a file with the variable store's header behind that region,
    -- and *ImageSize is the region's size.
    pub get_image-GetOutcome :
        (image : Option Mem) (size : Option ℕ) (d : Disk)
        → GetOutcome d (get_image platform files image size d)
    unfolding get_image
    get_image-GetOutcome image none d = (λ id j. refl, λ e. absurd (cc))
    get_image-GetOutcome none (some size) d = (λ id j. refl, λ e. absurd (cc))
    get_image-GetOutcome (some image) (some size) d =
        if_both (GetOutcome d) (ltb size (updatable_size platform)) _ _ d
          (λ small. (λ id j. refl, λ e. absurd (cc)))
          (λ room.
            get_opened-GetOutcome image size (open_firmware_file platform files read d).0 d
              (open_firmware_file platform files read d).1
              (open_firmware_file-Same platform files lawful read d)
              (open_firmware_file-IsFirmware platform files lawful read d))
