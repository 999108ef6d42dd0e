-- ===== src/Fmp/Tests.antt =====
-- Updates of the only file of a small disk, whose writes go through at once.
use rpi5_uefi_build.Common.{
  ℕ, ◌+◌, ◌-◌, ◌<◌, ◌≤◌, ◌≡◌, refl, ◌⊎◌, true, false, ◌&&◌, Option, some, ltb, leb, ◌==◌,
  if◌then◌else◌, arith, Mem, [], ◌∷◌,
}
use rpi5_uefi_build.Fmp.{success, Files, IsLawful, Platform, validate_payload}
use rpi5_uefi_build.Fmp.Update.{
  set_image_with_status, get_image, open_firmware_file, search_handles, try_names,
  check_firmware_file, write_region,
}
use rpi5_uefi_build.Fmp.Outcome.{SetOutcome, set_image_with_status-SetOutcome}
use rpi5_uefi_build.Fmp.Reading.{GetOutcome, get_image-GetOutcome}

record SmallDisk : Type 0 where
  content : Mem
  at : ℕ

abbrev overwritten : SmallDisk → ℕ → Mem → Mem
overwritten d n m j = if leb d.at j && ltb j (d.at + n) then m (j - d.at) else d.content j

abbrev small_files : Files
small_files = record {
  Disk = SmallDisk;
  Volume = Unit {0};
  File = Unit {0};
  FileId = Unit {0};
  file_of = λ f. tt;
  handles = λ d. some 1;
  block_io = λ d h. some (record { present = true; read_only = false });
  open_volume = λ h d. (some tt, d);
  open_file = λ v name mode d. (some tt, d);
  set_position = λ f p d. (success, record d { at = p });
  read_file = λ f n m d. ((success, n, λ j. d.content (d.at + j)), d);
  write_file = λ f n m d. ((success, n), record d { content = overwritten d n m });
  flush = λ f d. (success, d);
  close_file = λ f d. d;
  close_volume = λ v d. d;
  bytes = λ d id. d.content;
  medium = λ d id. d.content;
  position = λ d f. d.at;
}

write-outside :
    (d : SmallDisk) (n : ℕ) (m : Mem) (j : ℕ)
    → (j < d.at) ⊎ (d.at + n ≤ j)
    → overwritten d n m j ≡ d.content j
write-outside d n m j h = ground arith

write-inside :
    (d : SmallDisk) (n : ℕ) (m : Mem) (j : ℕ) → j < n → overwritten d n m (d.at + j) ≡ m j
write-inside d n m j h =
    let inside : (leb d.at (d.at + j) && ltb (d.at + j) (d.at + n)) ≡ true = ground arith in
    let back : d.at + j - d.at ≡ j = omega arith in rw (inside, back) refl

small_files-IsLawful : IsLawful small_files
small_files-IsLawful = record {
  open_volume-Same = λ h d id j. refl;
  open_file-Same = λ v name mode d id j. refl;
  set_position-Same = λ f p d id j. refl;
  position-set_position = λ f p d e. refl;
  read_file-Same = λ f n m d id j. refl;
  read_file_lem = λ f n m d j e less. refl;
  write_file-other = λ f n m d id j ne. absurd (ne refl);
  write_file-outside = λ f n m d j h. write-outside d n m j h;
  write_file_lem = λ f n m d j e less. write-inside d n m j less;
  flush-Same = λ f d id j. refl;
  flush-IsWrittenOut = λ f d e j. refl;
  close_file-Same = λ f d id j. refl;
  close_file-IsWrittenOut = λ f d id h. h;
  close_volume-Same = λ v d id j. refl;
  close_volume-IsWrittenOut = λ v d id h. h;
}

-- A region of four bytes before the variable store.
abbrev small_platform : Platform
small_platform = record {
  nv_storage_variable_base = 12;
  fd_base_address = 8;
  update_supported = true;
  firmware_version = 1;
  firmware_version_string = b'1' ∷ [];
  header_size = 2;
  fvh_signature = 9;
  signature = λ m. m 0;
  is_nv_guid = λ m. m 1 == 5;
  attribute_updatable = 1;
  attribute_reset_required = 2;
  attribute_in_use = 8;
}

abbrev small_disk : SmallDisk
small_disk = record { content = λ j. if j == 4 then 9 else if j == 5 then 5 else j; at = 3 }

abbrev new_image : Option Mem
new_image = some (λ j. 7 + j)

set_image_with_status-SetOutcome_example :
    SetOutcome small_platform small_files small_disk new_image 4
      (set_image_with_status small_platform small_files true true new_image 4 small_disk)
set_image_with_status-SetOutcome_example =
    set_image_with_status-SetOutcome small_platform small_files small_files-IsLawful true new_image
      4 small_disk

get_image-GetOutcome_example :
    GetOutcome small_platform small_files small_disk
      (get_image small_platform small_files new_image (some 8) small_disk)
get_image-GetOutcome_example =
    get_image-GetOutcome small_platform small_files small_files-IsLawful new_image (some 8)
      small_disk

written_region :
    (set_image_with_status small_platform small_files true true new_image 4 small_disk).1.content 3
    ≡ 10
unfolding set_image_with_status validate_payload open_firmware_file search_handles try_names
    check_firmware_file write_region
written_region = refl
