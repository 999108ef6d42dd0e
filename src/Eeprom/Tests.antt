-- ===== src/Eeprom/Tests.antt =====
-- A small image with the update time in both partitions, and runs of EepromImage.c on it.
use rpi5_uefi_build.Common.{
  ℕ, ◌+◌, ◌-◌, ◌≤◌, ◌<◌, ◌≡◌, refl, arith, true, false, ◌&&◌, none, some, List, [], ◌∷◌, get_or,
  length, ltb, leb, if◌then◌else◌, Mem, BaseMemoryLib,
}
use rpi5_uefi_build.Eeprom.{
  success, Section, FileLoc, be32, look, walk_sections, zeros, name_matches, selects, first_match,
  next_real, pad_limit, locate, find_file_in, put_le32,
}
use rpi5_uefi_build.Eeprom.Layout
use rpi5_uefi_build.Eeprom.Bounds.{IsLaid, walk_sections-IsLaid}
use rpi5_uefi_build.Eeprom.WellFormed.{WellFormed, walk_sections_iff}
use rpi5_uefi_build.Eeprom.Find.{IsFound, IsPlaced, find_file_in-IsPlaced}
use rpi5_uefi_build.Eeprom.Replace.{
  IsSized, IsWritten, Fits, replace_file_in-IsWritten, replace_file_in-success_iff,
  replace_file_in-error_unchanged,
}
use rpi5_uefi_build.Eeprom.RoundTrip.{find_file_in-replace_file_in}
use rpi5_uefi_build.Eeprom.Update.{
  read_only_query, partition_a_query, replace_file_in, stamp_slot, put_stamp,
}

-- A BaseMemoryLib that does what it documents.
abbrev plain : BaseMemoryLib
plain = record {
  copy_mem = λ m at source n j. if leb at j && ltb j (at + n) then source (j - at) else m j;
  copy_mem_lem = λ m at source n j. refl;
  set_mem = λ m at n v j. if leb at j && ltb j (at + n) then v else m j;
  set_mem_lem = λ m at n v j. refl;
}

-- The header of an "updatetime" file and its 8 bytes.
abbrev time_file : List ℕ
time_file =
    0x55 ∷ 0xaa ∷ 0xf1 ∷ 0x1f ∷ 0 ∷ 0 ∷ 0 ∷ 24 ∷ b'u' ∷ b'p' ∷ b'd' ∷ b'a' ∷ b't' ∷ b'e' ∷ b't'
    ∷ b'i' ∷ b'm' ∷ b'e' ∷ 0 ∷ 0 ∷ 0 ∷ 0 ∷ 0 ∷ 0 ∷ 1 ∷ 2 ∷ 3 ∷ 4 ∷ 5 ∷ 6 ∷ 7 ∷ 8 ∷ []

-- That file, and the header of the padding up to partition A.
abbrev low_bytes : List ℕ
low_bytes =
    0x55 ∷ 0xaa ∷ 0xf1 ∷ 0x1f ∷ 0 ∷ 0 ∷ 0 ∷ 24 ∷ b'u' ∷ b'p' ∷ b'd' ∷ b'a' ∷ b't' ∷ b'e' ∷ b't'
    ∷ b'i' ∷ b'm' ∷ b'e' ∷ 0 ∷ 0 ∷ 0 ∷ 0 ∷ 0 ∷ 0 ∷ 1 ∷ 2 ∷ 3 ∷ 4 ∷ 5 ∷ 6 ∷ 7 ∷ 8 ∷ 0x55 ∷ 0xaa
    ∷ 0xfe ∷ 0xef ∷ 0 ∷ 0 ∷ 0xff ∷ 0xd8 ∷ []

abbrev sample : Mem
sample i = if ltb i 0x1_0000 then get_or low_bytes i 0xff else get_or time_file (i - 0x1_0000) 0xff

-- The read-only copy alone.
abbrev low_only : Mem
low_only i = get_or time_file i 0xff

abbrev erased : Mem
erased i = 0xff

abbrev size : ℕ
size = Layout.image_size_2712

abbrev head : Section
head = record { magic = Layout.file_magic; offset = 0; len = 24 }

abbrev padding : Section
padding = record { magic = Layout.pad_magic; offset = 32; len = 0xffd8 }

abbrev second : Section
second = record { magic = Layout.file_magic; offset = 0x1_0000; len = 24 }

abbrev sections : List Section
sections = head ∷ padding ∷ second ∷ []

sample-walked : walk_sections sample size 64 0 ≡ some sections
unfolding walk_sections look be32
sample-walked = refl

abbrev found : FileLoc
found = record {
  hdr_offset = 0;
  content_offset = 24;
  content_len = 8;
  next_offset = 0x1_0000;
  is_last = false;
}

sample-found : find_file_in sample size read_only_query ≡ some found
unfolding find_file_in walk_sections look be32 first_match selects name_matches zeros locate
    next_real pad_limit
sample-found = refl

is_found : IsFound sample size read_only_query found
unfolding walk_sections look be32 selects name_matches zeros locate next_real pad_limit
is_found = record {
  sections = sections;
  walked = refl;
  before = [];
  found = head;
  rest = padding ∷ second ∷ [];
  first = record { splits = refl; skipped = tt; selected = refl };
  located = refl;
}

-- Three bytes that replace the file's eight.
abbrev content : Mem
content i = 7 + i

read_only-IsSized : IsSized size read_only_query
read_only-IsSized = ground arith

fits : Fits size found 3
fits = omega arith

tail-walked : walk_sections sample size 1 0x1_0000 ≡ some (second ∷ [])
unfolding walk_sections look be32
tail-walked = refl

find_file_in-replace_file_in_example :
    (loc' : FileLoc) × (find_file_in
        (replace_file_in plain sample size read_only_query content 3).1
        size
        read_only_query
      ≡ some loc')
    × (loc'.content_len ≡ 3)
    × ((i : ℕ)
        → i < 3
        → (replace_file_in plain sample size read_only_query content 3).1 (loc'.content_offset + i)
          ≡ content i)
unfolding is_found
find_file_in-replace_file_in_example =
    find_file_in-replace_file_in plain sample size read_only_query content 3 found 1 (second ∷ [])
      read_only-IsSized is_found fits tt tail-walked (omega arith)

replace_file_in-IsWritten_example :
    ((replace_file_in plain sample size read_only_query content 3).0 ≡ success)
    × IsWritten sample found content 3
        (replace_file_in plain sample size read_only_query content 3).1
replace_file_in-IsWritten_example =
    replace_file_in-IsWritten plain sample size read_only_query content 3 read_only-IsSized found
      sample-found fits

replace_file_in-success_iff_example :
    (loc : FileLoc) × (find_file_in sample size read_only_query ≡ some loc) × Fits size loc 3
replace_file_in-success_iff_example =
    (replace_file_in-success_iff plain sample size read_only_query content 3 read_only-IsSized).0
      replace_file_in-IsWritten_example.0

missing : find_file_in erased size read_only_query ≡ none
unfolding find_file_in walk_sections look be32 first_match
missing = refl

replace_file_in-error_unchanged_example :
    (replace_file_in plain erased size read_only_query content 3).1 ≡ erased
unfolding replace_file_in
replace_file_in-error_unchanged_example =
    replace_file_in-error_unchanged plain erased size read_only_query content 3 read_only-IsSized
      (rw missing (λ e. absurd (cc)))

walk_sections_iff_example : WellFormed sample size 0 sections × (length sections ≤ 64)
walk_sections_iff_example = (walk_sections_iff sample size 64 0 sections).0 sample-walked

walk_sections-IsLaid_example : IsLaid sample size 0 sections
walk_sections-IsLaid_example =
    walk_sections-IsLaid sample size (omega arith) 64 0 sections (omega arith) sample-walked

find_file_in-IsPlaced_example : IsPlaced sample size read_only_query found
find_file_in-IsPlaced_example =
    find_file_in-IsPlaced sample size read_only_query found (omega arith) (omega arith) sample-found

abbrev found_a : FileLoc
found_a = record {
  hdr_offset = 0x1_0000;
  content_offset = 0x1_0018;
  content_len = 8;
  next_offset = 0x10_7000;
  is_last = true;
}

sample-found_a :
    stamp_slot (find_file_in (put_stamp sample 24 99) size partition_a_query) ≡ some found_a
unfolding find_file_in walk_sections look be32 first_match selects name_matches zeros locate
    next_real pad_limit put_stamp put_le32
sample-found_a = refl

abbrev found_low : FileLoc
found_low = record {
  hdr_offset = 0;
  content_offset = 24;
  content_len = 8;
  next_offset = 0x1_0000;
  is_last = true;
}

low_only-found : stamp_slot (find_file_in low_only size read_only_query) ≡ some found_low
unfolding find_file_in walk_sections look be32 first_match selects name_matches zeros locate
    next_real pad_limit
low_only-found = refl

low_only-missing :
    stamp_slot (find_file_in (put_stamp low_only 24 99) size partition_a_query) ≡ none
unfolding find_file_in walk_sections look be32 first_match selects put_stamp put_le32
low_only-missing = refl
