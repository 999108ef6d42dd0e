-- ===== src/MemoryMap/Tests.antt =====
-- The map of a board of 8 GB, with the PCDs of RPi5.dsc and RPi5.fdf.
use rpi5_uefi_build.Common.{arith}
use rpi5_uefi_build.BoardRevision.{get_memory_size}
use rpi5_uefi_build.MemoryMap.{Layout, regions}
use rpi5_uefi_build.MemoryMap.Regions.{IsSane, IsMap, regions-IsMap}

abbrev rpi5 : Layout
rpi5 = record {
  fd_base = 0;
  variables_base = 0x3b_0000;
  fdt_base = 0x3e_0000;
  fdt_size = 0x2_0000;
  system_memory_base = 0x40_0000;
  system_memory_end = 0x3f7f_ffff;
}

rpi5-IsSane : IsSane rpi5
rpi5-IsSane = record {
  fd_below = omega arith;
  variables_below = omega arith;
  fdt_below = omega arith;
  memory_below = omega arith;
  memory_end = omega arith;
}

regions-IsMap_example : IsMap rpi5 (get_memory_size 0xd0_4170) (regions rpi5 0xd0_4170)
regions-IsMap_example = regions-IsMap rpi5 rpi5-IsSane 0xd0_4170
