-- ===== src/Fmp/Volumes.antt =====
-- The protocols that Rpi5FmpDeviceLib.c calls, over an unknown state: the volumes of the machine and
-- EFI_FILE_PROTOCOL on them.
use rpi5_uefi_build.Common.{ℕ, ◌+◌, ◌<◌, ◌≤◌, ◌≡◌, ◌≢◌, ◌⊎◌, Bool, true, false, Option, List, Mem}

-- EFI_STATUS; `failed` is an error of the file system's own.
pub data Status : Type 0 where
  success not_found invalid_parameter buffer_too_small device_error : Status
  write_protected unsupported out_of_resources : Status
  failed : ℕ → Status

-- EFI_ERROR
abbrev pub is_error : Status → Bool
is_error success = false
is_error _ = true

-- EFI_BLOCK_IO_MEDIA
pub record Media : Type 0 where
  pub present : Bool
  pub read_only : Bool

pub data Mode : Type 0 where
  read read_write : Mode

pub record Files : Type 1 where
  pub Disk : Type 0
  pub Volume : Type 0
  -- An open file, and which file it is.
  pub File : Type 0
  pub FileId : Type 0
  pub file_of : File → FileId
  -- The number of handles that LocateHandleBuffer finds.
  pub handles : Disk → Option ℕ
  -- What HandleProtocol and OpenVolume give for a handle.
  pub block_io : Disk → ℕ → Option Media
  pub open_volume : ℕ → Disk → Option Volume × Disk
  pub open_file : Volume → List ℕ → Mode → Disk → Option File × Disk
  pub set_position : File → ℕ → Disk → Status × Disk
  -- The status, the size that was read, and the buffer.
  pub read_file : File → ℕ → Mem → Disk → (Status × ℕ × Mem) × Disk
  pub write_file : File → ℕ → Mem → Disk → (Status × ℕ) × Disk
  pub flush : File → Disk → Status × Disk
  pub close_file : File → Disk → Disk
  pub close_volume : Volume → Disk → Disk
  -- What a reader of the file sees, what is on the medium, and where an open file stands.
  pub bytes : Disk → FileId → Mem
  pub medium : Disk → FileId → Mem
  pub position : Disk → File → ℕ

module _ (files : Files) where
  open files use {Disk, FileId, bytes, medium}

  abbrev pub Same : Disk → Disk → Type 0
  Same d d' = (id : FileId) (j : ℕ) → bytes d' id j ≡ bytes d id j

  -- Nothing of the file waits in a cache.
  abbrev pub IsWrittenOut : Disk → FileId → Type 0
  IsWrittenOut d id = (j : ℕ) → medium d id j ≡ bytes d id j

-- What the UEFI specification says of them: only Write changes a file, and only in the range that it
-- is given, at the position that SetPosition has set.
pub record IsLawful (files : Files) : Type 0 where
  pub open_volume-Same : (h : ℕ) (d : files.Disk) → Same files d (files.open_volume h d).1
  pub open_file-Same :
      (v : files.Volume) (name : List ℕ) (mode : Mode) (d : files.Disk)
      → Same files d (files.open_file v name mode d).1
  pub set_position-Same :
      (f : files.File) (p : ℕ) (d : files.Disk) → Same files d (files.set_position f p d).1
  pub position-set_position :
      (f : files.File) (p : ℕ) (d : files.Disk)
      → (files.set_position f p d).0 ≡ success
      → files.position (files.set_position f p d).1 f ≡ p
  pub read_file-Same :
      (f : files.File) (n : ℕ) (m : Mem) (d : files.Disk) → Same files d (files.read_file f n m d).1
  pub read_file_lem :
      (f : files.File) (n : ℕ) (m : Mem) (d : files.Disk) (j : ℕ)
      → (files.read_file f n m d).0.0 ≡ success
      → j < (files.read_file f n m d).0.1
      → (files.read_file f n m d).0.2 j ≡ files.bytes d (files.file_of f) (files.position d f + j)
  pub write_file-other :
      (f : files.File) (n : ℕ) (m : Mem) (d : files.Disk) (id : files.FileId) (j : ℕ)
      → id ≢ files.file_of f
      → files.bytes (files.write_file f n m d).1 id j ≡ files.bytes d id j
  pub write_file-outside :
      (f : files.File) (n : ℕ) (m : Mem) (d : files.Disk) (j : ℕ)
      → (j < files.position d f) ⊎ (files.position d f + n ≤ j)
      → files.bytes (files.write_file f n m d).1 (files.file_of f) j
        ≡ files.bytes d (files.file_of f) j
  pub write_file_lem :
      (f : files.File) (n : ℕ) (m : Mem) (d : files.Disk) (j : ℕ)
      → (files.write_file f n m d).0.0 ≡ success
      → j < (files.write_file f n m d).0.1
      → files.bytes (files.write_file f n m d).1 (files.file_of f) (files.position d f + j) ≡ m j
  pub flush-Same : (f : files.File) (d : files.Disk) → Same files d (files.flush f d).1
  pub flush-IsWrittenOut :
      (f : files.File) (d : files.Disk)
      → (files.flush f d).0 ≡ success
      → IsWrittenOut files (files.flush f d).1 (files.file_of f)
  pub close_file-Same : (f : files.File) (d : files.Disk) → Same files d (files.close_file f d)
  pub close_file-IsWrittenOut :
      (f : files.File) (d : files.Disk) (id : files.FileId)
      → IsWrittenOut files d id
      → IsWrittenOut files (files.close_file f d) id
  pub close_volume-Same :
      (v : files.Volume) (d : files.Disk) → Same files d (files.close_volume v d)
  pub close_volume-IsWrittenOut :
      (v : files.Volume) (d : files.Disk) (id : files.FileId)
      → IsWrittenOut files d id
      → IsWrittenOut files (files.close_volume v d) id
