-- ===== src/Fmp/Outcome.antt =====
-- What an update leaves on the volumes (FmpDeviceSetImageWithStatus of Rpi5FmpDeviceLib.c).
use rpi5_uefi_build.Common.{
  ℕ, ◌<◌, ◌≤◌, ◌≡◌, ◌≢◌, refl, sym, ap, ◌∙◌, ◌⊎◌, inl, inr, Bool, true, not, Option, none, some,
  ◌==◌, Bool-cases, arith, Mem,
}
use rpi5_uefi_build.Common.State.{if_both}
use rpi5_uefi_build.Fmp.{
  success, is_error, read_write, Files, Same, IsWrittenOut, IsLawful, Platform, succeeded,
  unsuccessful, updatable_size, validate_payload,
}
use rpi5_uefi_build.Fmp.Update.{
  Attempt, or_null, open_firmware_file, write_region, write_opened, set_image_with_status,
}
use rpi5_uefi_build.Fmp.Identity.{
  success_of, IsFirmware, open_firmware_file-Same, open_firmware_file-IsFirmware,
}

module _ (platform : Platform) (files : Files) where
  open files use {Disk, Volume, File, FileId, bytes, file_of}

  -- No file has changed but one, and that one not behind the updatable region.
  abbrev pub OnlyRegion : Disk → Disk → FileId → Type 0
  OnlyRegion d d' id =
      ((id' : FileId) (j : ℕ) → id' ≢ id → bytes d' id' j ≡ bytes d id' j)
      × ((j : ℕ) → updatable_size platform ≤ j → bytes d' id j ≡ bytes d id j)

  -- The region has the new bytes, and they are on the medium.
  abbrev pub HasImage : Disk → FileId → Mem → Type 0
  HasImage d id image =
      ((j : ℕ) → j < updatable_size platform → bytes d id j ≡ image j) × IsWrittenOut files d id

  -- Nothing has changed and the call has failed; or updates are supported, the payload is valid, and
  -- only the region of a firmware file has changed: all of it with success, else the call has failed.
  abbrev pub SetOutcome : Disk → Option Mem → ℕ → Attempt × Disk → Type 0
  SetOutcome d image size r =
      (Same files d r.1 × (r.0.status ≢ success) × (r.0.last ≢ some succeeded))
      ⊎ ((id : FileId) × IsFirmware platform files d id
          × (platform.update_supported ≡ true)
          × (validate_payload platform image size ≡ success)
          × OnlyRegion d r.1 id
          × (((r.0.status ≡ success)
                × (r.0.last ≡ some succeeded)
                × HasImage r.1 id (or_null image))
              ⊎ ((r.0.status ≢ success) × (r.0.last ≡ some unsuccessful))))

  module _ (lawful : IsLawful files) where
    write_region-OnlyRegion :
        (f : File) (image : Mem) (d : Disk)
        → OnlyRegion d (write_region platform files f image d).1 (file_of f)
          × ((write_region platform files f image d).0 ≡ success
              → HasImage (write_region platform files f image d).1 (file_of f) image)
    unfolding write_region
    write_region-OnlyRegion f image d =
        let at = (files.set_position f 0 d).1 in
        let moved = lawful.set_position-Same f 0 d in
        let size = updatable_size platform in
        let w = files.write_file f size image at in
        elim (Bool-cases (is_error (files.set_position f 0 d).0)) [
          | inl bad ↦
              rw bad (
                (λ id' j ne. moved id' j, λ j past. moved (file_of f) j),
                λ e. absurd (ground arith),
              )
          | inr good ↦ rw good (
              let start = lawful.position-set_position f 0 d (success_of _ good) in
              let others = λ (id' : FileId) (j : ℕ) (ne : id' ≢ file_of f).
                lawful.write_file-other f size image at id' j ne ∙ moved id' j in
              let past = λ (j : ℕ) (h : size ≤ j).
                lawful.write_file-outside f size image at j (inr (omega (arith, start)))
                ∙ moved (file_of f) j in
              elim (Bool-cases (is_error w.0.0)) [
                | inl bad' ↦ rw bad' ((others, past), λ e. absurd (ground arith))
                | inr good' ↦ rw good' (elim (Bool-cases (w.0.1 == size)) [
                  | inl whole ↦ rw whole (
                      let kept = lawful.flush-Same f w.1 in
                      (
                        (
                          λ id' j ne. kept id' j ∙ others id' j ne,
                          λ j h. kept (file_of f) j ∙ past j h,
                        ),
                        λ e. (
                          λ j less.
                              kept (file_of f) j
                              ∙ sym (ap (bytes w.1 (file_of f)) (omega (arith, start)))
                              ∙ lawful.write_file_lem f size image at j (success_of _ good')
                                  (ground arith),
                          lawful.flush-IsWrittenOut f w.1 e,
                        ),
                      ))
                  | inr short ↦ rw short ((others, past), λ e. absurd (cc))
                ])
              ])
        ]

    closed-Same :
        (v : Volume) (f : File) (d : Disk)
        → Same files d (files.close_volume v (files.close_file f d))
    closed-Same v f d id j =
        lawful.close_volume-Same v (files.close_file f d) id j ∙ lawful.close_file-Same f d id j

    write_opened-SetOutcome :
        (progress : Bool) (image : Option Mem) (size : ℕ) (o : Option (Volume × File)) (d d' : Disk)
        → Same files d d'
        → ((x : Volume × File) → o ≡ some x → IsFirmware platform files d (file_of x.1))
        → platform.update_supported ≡ true
        → validate_payload platform image size ≡ success
        → SetOutcome d image size (write_opened platform files progress (or_null image) o d')
    write_opened-SetOutcome progress image size none d d' same firmware supported valid =
        inl (same, λ e. cc, λ e. cc)
    write_opened-SetOutcome progress image size (some (v, f)) d d' same firmware supported valid =
        let w = write_region platform files f (or_null image) d' in
        let ((others, past), done) = write_region-OnlyRegion f (or_null image) d' in
        let kept = closed-Same v f w.1 in
        let region : OnlyRegion d (files.close_volume v (files.close_file f w.1)) (file_of f) = (
          λ id' j ne. kept id' j ∙ others id' j ne ∙ same id' j,
          λ j h. kept (file_of f) j ∙ past j h ∙ same (file_of f) j,
        ) in
        inr (
          file_of f,
          firmware (v, f) refl,
          supported,
          valid,
          region,
          elim (Bool-cases (is_error w.0)) [
            | inl bad ↦ rw bad (inr (λ e. absurd (ground arith), refl))
            | inr good ↦ rw good (
                inl (
                  refl,
                  refl,
                  let (new, out) = done (success_of w.0 good) in
                      (
                        λ j less. kept (file_of f) j ∙ new j less,
                        lawful.close_volume-IsWrittenOut v _ _
                            (lawful.close_file-IsWrittenOut f w.1 _ out),
                      ),
                ))
          ],
        )

    -- With lawful file protocols, on every outcome of FmpDeviceSetImageWithStatus either no
    -- file has changed and the call has not succeeded; or updates are supported, the payload
    -- is valid, and a file with the variable store's header behind the updatable region is
    -- the only one changed, and that not behind the region, where the variables are. Then,
    -- with success, the region is the payload and all of the file is on the medium; else the
    -- last attempt is reported as unsuccessful.
    pub set_image_with_status-SetOutcome :
        (progress : Bool) (image : Option Mem) (size : ℕ) (d : Disk)
        → SetOutcome d image size (set_image_with_status platform files true progress image size d)
    unfolding set_image_with_status
    set_image_with_status-SetOutcome progress image size d =
        let Goal = SetOutcome d image size in
        if_both Goal (not platform.update_supported) _ _ d
          (λ never. inl (λ id j. refl, λ e. cc, λ e. cc))
          (λ supported.
            if_both Goal (is_error (validate_payload platform image size)) _ _ d
              (λ bad. inl (λ id j. refl, λ e. absurd (ground arith), λ e. cc))
              (λ good.
                write_opened-SetOutcome progress image size
                  (open_firmware_file platform files read_write d).0 d
                  (open_firmware_file platform files read_write d).1
                  (open_firmware_file-Same platform files lawful read_write d)
                  (open_firmware_file-IsFirmware platform files lawful read_write d) (ground arith)
                  (success_of _ good)))
