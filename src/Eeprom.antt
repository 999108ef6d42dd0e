-- ===== src/Eeprom.antt =====
-- Platform/RaspberryPi/RPi5/Drivers/BootloaderConfigDxe/EepromImage.c (under
-- meta-rpi5-uefi/recipes-bsp/edk2-platforms/files/edk2-platforms): the section chain of a
-- bootloader EEPROM image. The image is byte memory; a file name is the list of its characters.
pub mod Layout
pub mod Chain
pub mod WellFormed
pub mod Bounds
pub mod Name
pub mod Find
pub mod Update
pub mod Bytes
pub mod Padding
pub mod Replace
pub mod Local
pub mod RoundTrip
pub mod Timestamp
pub mod Tests
use Layout
use mathlib.Core.Option
use rpi5_uefi_build.Common.{
  ℕ, zero, suc, ◌+◌, ◌-◌, ◌*◌, ◌/◌, ◌%◌, ◌^◌, Bool, true, false, not, ◌&&◌, ◌||◌, Option, none,
  some, List, [], ◌∷◌, bit_and, ltb, leb, ◌==◌, if◌then◌else◌, u8, u32, u64, sub64, not32, align8,
  Mem, store, BaseMemoryLib,
}

-- EFI_STATUS, the values that this file returns.
pub data Status : Type 0 where
  success not_found bad_buffer_size volume_full : Status

pub record Section : Type 0 where
  pub magic : ℕ
  pub offset : ℕ
  pub len : ℕ

pub record FileLoc : Type 0 where
  pub hdr_offset : ℕ
  pub content_offset : ℕ
  pub content_len : ℕ
  pub next_offset : ℕ
  pub is_last : Bool

-- The four bytes are disjoint fields, so `|` of the shifted bytes is their sum.
unfoldable pub be32 : Mem → ℕ → ℕ
be32 p i = p i * 2 ^ 24 + p (i + 1) * 2 ^ 16 + p (i + 2) * 2 ^ 8 + p (i + 3)

unfoldable pub put_be32 : Mem → ℕ → ℕ → Mem
put_be32 p i v =
    store
      (store (store (store p i (u8 (v / 2 ^ 24))) (i + 1) (u8 (v / 2 ^ 16))) (i + 2)
        (u8 (v / 2 ^ 8)))
      (i + 3) (u8 v)

unfoldable pub put_le32 : Mem → ℕ → ℕ → Mem
put_le32 p i v =
    store (store (store (store p i (u8 v)) (i + 1) (u8 (v / 2 ^ 8))) (i + 2) (u8 (v / 2 ^ 16)))
      (i + 3) (u8 (v / 2 ^ 24))

-- What one round of the walk sees at `offset`: the end of the chain, a corrupt header, or a section.
pub data Seen : Type 0 where
  stop corrupt : Seen
  entry : Section → Seen

unfoldable pub look : Mem → ℕ → ℕ → Seen
look image size offset =
    let magic = be32 image offset in
    let len = be32 image (offset + 4) in
    if leb (u64 (offset + 8)) size
    then if magic == 0 || magic == 0xffff_ffff
      then stop
      else if not (bit_and magic Layout.section_magic_mask == Layout.section_magic)
      then corrupt
      else if ltb (sub64 (sub64 size offset) 8) len
      then corrupt
      else entry (record { magic = magic; offset = offset; len = len })
    else stop

abbrev pub next_section : Section → ℕ
next_section s = align8 (u64 (s.offset + 8 + s.len))

-- `WalkSections` with `left` = Cap - Count rounds left; `none` is -1.
unfoldable pub walk_sections : Mem → ℕ → ℕ → ℕ → Option (List Section)
walk_sections image size zero offset = elim (look image size offset) [ stop ↦ some [] | _ ↦ none ]
walk_sections image size (suc left) offset = elim (look image size offset) [
  | stop ↦ some []
  | corrupt ↦ none
  | entry s ↦ Option.map (λ rest. s ∷ rest) (walk_sections image size left (next_section s))
]

-- The last loop of `FileNameMatches`.
unfoldable pub zeros : Mem → ℕ → ℕ → Bool
zeros image zero at = true
zeros image (suc left) at = image at == 0 && zeros image left (at + 1)

-- `FileNameMatches` with `left` of the field's bytes to go.
unfoldable pub name_matches : Mem → ℕ → ℕ → List ℕ → Bool
unfolding zeros
name_matches image zero at [] = true
name_matches image zero at (c ∷ name) = false
name_matches image (suc left) at [] = zeros image (suc left) at
name_matches image (suc left) at (c ∷ name) =
    image at == u8 c && name_matches image left (at + 1) name

abbrev pub file_name_matches : Mem → ℕ → List ℕ → Bool
file_name_matches image field name = name_matches image Layout.filename_len field name

-- `EepromImageValid` of a buffer that is not NULL.
unfoldable pub eeprom_image_valid : Mem → ℕ → Bool
unfolding be32
eeprom_image_valid image size =
    size == Layout.image_size_2712 && be32 image 0 == Layout.section_magic

-- The window [start, stop) and the name that `EepromFindFileIn` looks for.
pub record Query : Type 0 where
  pub walk_start : ℕ
  pub win_start : ℕ
  pub win_end : ℕ
  pub name : List ℕ

unfoldable pub selects : Mem → Query → Section → Bool
unfolding name_matches
selects image q s =
    s.magic == Layout.file_magic
    && leb q.win_start s.offset
    && ltb s.offset q.win_end
    && file_name_matches image (s.offset + 8) q.name

-- The first loop of `EepromFindFileIn`: the section that it stops at, and those after it.
unfoldable pub first_match : Mem → Query → List Section → Option (Section × List Section)
first_match image q [] = none
first_match image q (s ∷ rest) =
    let later = first_match image q rest in if selects image q s then some (s, rest) else later

-- The second loop: the first section that is no padding, or the limit.
unfoldable pub next_real : ℕ → List Section → ℕ
next_real limit [] = limit
next_real limit (s ∷ rest) =
    let later = next_real limit rest in if s.magic == Layout.pad_magic then later else s.offset

unfoldable pub pad_limit : ℕ → Query → ℕ
pad_limit size q =
    let limit = sub64 size Layout.erase_align in if ltb q.win_end limit then q.win_end else limit

abbrev pub is_empty : List Section → Bool
is_empty [] = true
is_empty (s ∷ rest) = false

unfoldable pub locate : ℕ → Query → Section × List Section → FileLoc
unfolding next_real pad_limit
locate size q (s, rest) = record {
  hdr_offset = s.offset;
  content_offset = u64 (s.offset + 4 + Layout.file_hdr_len);
  content_len = if leb (Layout.filename_len + 4) s.len then s.len - Layout.filename_len - 4 else 0;
  next_offset = next_real (pad_limit size q) rest;
  is_last = is_empty rest;
}

-- `none` is FALSE. A count of 0 has no section to match.
unfoldable pub find_file_in : Mem → ℕ → Query → Option FileLoc
unfolding walk_sections first_match locate
find_file_in image size q = elim (walk_sections image size Layout.max_sections q.walk_start) [
  | none ↦ none
  | some sections ↦ Option.map (locate size q) (first_match image q sections)
]
