-- ===== src/Eeprom/Layout.antt =====
-- The layout constants of BootloaderConfigDxe/EepromImage.h, and EEPROM_MAX_SECTIONS.
use rpi5_uefi_build.Common.{ℕ, ◌+◌, ◌-◌, ◌*◌}

abbrev pub image_size_2712 : ℕ
image_size_2712 = 0x20_0000

abbrev pub section_magic : ℕ
section_magic = 0x55aa_f00f

abbrev pub section_magic_mask : ℕ
section_magic_mask = 0xffff_f00f

abbrev pub file_magic : ℕ
file_magic = 0x55aa_f11f

abbrev pub pad_magic : ℕ
pad_magic = 0x55aa_feef

abbrev pub file_hdr_len : ℕ
file_hdr_len = 20

abbrev pub filename_len : ℕ
filename_len = 12

abbrev pub read_only_size : ℕ
read_only_size = 0x1_0000

abbrev pub partition_a_start : ℕ
partition_a_start = read_only_size

abbrev pub partition_a_end : ℕ
partition_a_end = read_only_size + 988 * 1024

abbrev pub erase_align : ℕ
erase_align = 0x1000

abbrev pub max_file_size : ℕ
max_file_size = erase_align - file_hdr_len

abbrev pub max_sections : ℕ
max_sections = 64
