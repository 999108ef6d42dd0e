-- ===== src/Eeprom/Update.antt =====
-- `EepromReplaceFileIn` and `EepromSetTimestamp` of BootloaderConfigDxe/EepromImage.c. A function
-- that writes through `Image` returns the new memory beside its status. `CopyMem` and `SetMem` are
-- those of the parameter `lib`.
use rpi5_uefi_build.Common.{
  ℕ, zero, suc, ◌+◌, ◌-◌, ◌%◌, not, ◌&&◌, ◌||◌, Option, none, some, List, [], ◌∷◌, ltb, leb, ◌==◌,
  if◌then◌else◌, u32, u64, sub64, not32, Mem, store, BaseMemoryLib,
}
use rpi5_uefi_build.Eeprom.{
  Status, success, not_found, bad_buffer_size, volume_full, FileLoc, Query, put_be32, put_le32,
  find_file_in,
}
use rpi5_uefi_build.Eeprom.Layout

-- `while ((PadStart & 7) != 0) Image[PadStart++] = 0xFF;` Seven rounds end it.
unfoldable pub fill_to_8 : ℕ → Mem → ℕ → Mem × ℕ
fill_to_8 zero image at = (image, at)
fill_to_8 (suc fuel) image at =
    let more = fill_to_8 fuel (store image at 0xff) (u64 (at + 1)) in
    if at % 8 == 0 then (image, at) else more

module _ (lib : BaseMemoryLib) where
  -- The padding from `pad_start` up to the next section.
  unfoldable pub pad_from : Mem → FileLoc → ℕ → Mem
  pad_from image loc pad_start =
      let pad_bytes = sub64 loc.next_offset pad_start in
      if leb 8 pad_bytes && not loc.is_last
      then lib.set_mem
          (put_be32 (put_be32 image pad_start Layout.pad_magic) (pad_start + 4)
            (u32 (pad_bytes - 8)))
          (u64 (pad_start + 8)) (pad_bytes - 8) 0xff
      else lib.set_mem image pad_start pad_bytes 0xff

  unfoldable pub pad_after : Mem → FileLoc → ℕ → Mem
  pad_after image loc end =
      let (filled, pad_start) = fill_to_8 7 image end in pad_from filled loc pad_start

  unfoldable pub write_content : Mem → FileLoc → Mem → ℕ → Mem
  write_content image loc content n =
      pad_after
        (lib.copy_mem (put_be32 image (loc.hdr_offset + 4) (u32 (n + Layout.filename_len + 4)))
          loc.content_offset content n)
        loc (u64 (loc.content_offset + n))

  unfoldable pub replace_file_in : Mem → ℕ → Query → Mem → ℕ → Status × Mem
  replace_file_in image size q content n =
      if ltb Layout.max_file_size n
      then (bad_buffer_size, image)
      else elim (find_file_in image size q) [
        | none ↦ (not_found, image)
        | some loc ↦
            if ltb (sub64 size Layout.erase_align) (u64 (loc.content_offset + n))
              || ltb loc.next_offset (u64 (loc.content_offset + n))
            then (volume_full, image)
            else (success, write_content image loc content n)
      ]

-- "updatetime"
abbrev pub updatetime : List ℕ
updatetime = b'u' ∷ b'p' ∷ b'd' ∷ b'a' ∷ b't' ∷ b'e' ∷ b't' ∷ b'i' ∷ b'm' ∷ b'e' ∷ []

abbrev pub read_only_query : Query
read_only_query = record {
  walk_start = 0;
  win_start = 0;
  win_end = Layout.read_only_size;
  name = updatetime;
}

abbrev pub partition_a_query : Query
partition_a_query = record {
  walk_start = 0;
  win_start = Layout.partition_a_start;
  win_end = Layout.partition_a_end;
  name = updatetime;
}

-- The location that `EepromSetTimestamp` goes on with: found, and at least 8 bytes long.
abbrev pub stamp_slot : Option FileLoc → Option FileLoc
stamp_slot none = none
stamp_slot (some loc) = if ltb loc.content_len 8 then none else some loc

unfoldable pub put_stamp : Mem → ℕ → ℕ → Mem
put_stamp image at time = put_le32 (put_le32 image at (not32 time)) (at + 4) time

unfoldable pub set_timestamp : Mem → ℕ → ℕ → Status × Mem
set_timestamp image size time = elim (stamp_slot (find_file_in image size read_only_query)) [
  | none ↦ (success, put_le32 (put_le32 image (size - 4) time) (size - 8) (not32 time))
  | some loc ↦
      let copied = put_stamp image loc.content_offset time in
      elim (stamp_slot (find_file_in copied size partition_a_query)) [
        | none ↦ (not_found, copied)
        | some loc_a ↦ (success, put_stamp copied loc_a.content_offset time)
      ]
]
