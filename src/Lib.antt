-- ===== src/Lib.antt =====
-- Verification of drivers and libraries of the Raspberry Pi 5 UEFI firmware. All sources are C, under
-- meta-rpi5-uefi/recipes-bsp/edk2-platforms/files/edk2-platforms (left out of the paths below).
--
-- The parts. BootloaderConfigDxe edits the configuration of the board's bootloader: it keeps the
-- bootloader's EEPROM image in memory (EepromImage.c), replaces files in its chain of sections,
-- stamps the update time, hashes the new configuration text (Sha256.c) and parses and rebuilds that
-- text (BlcfgValues.c). ActiveCoolerDxe runs the fan from a timer; it reaches the RP1's pins through
-- Rp1GpioLib. BoardRevisionHelperLib reads the board's revision code.
--
-- Eeprom: Platform/RaspberryPi/RPi5/Drivers/BootloaderConfigDxe/EepromImage.c. The image is byte
--   memory (Common.Memory). `walk_sections` is WalkSections with the rounds that its array has left;
--   `find_file_in` EepromFindFileIn; Update has EepromReplaceFileIn (`replace_file_in`) and
--   EepromSetTimestamp (`set_timestamp`). A function that writes returns the new image. CopyMem and
--   SetMem are the fields of `BaseMemoryLib`, a parameter. WellFormed says what a section
--   chain is.
-- Sha256: Platform/RaspberryPi/RPi5/Drivers/BootloaderConfigDxe/Sha256.c. `sha256_block` is
--   Sha256Block, `bl_sha256` BlSha256. The loop over whole blocks runs on `Len` rounds of fuel, one
--   for each byte; a round takes 64 bytes, so the loop stops by its own test.
-- Blcfg: Platform/RaspberryPi/RPi5/Drivers/BootloaderConfigDxe/BlcfgValues.c. `values_from_text`
--   is BlValuesFromText, Data the conversions from and to the setup form, Build has
--   BlBuildNewConfigText. The loops over lines run on one round for each character of the text; a
--   round takes a character at least. CompareMem and AsciiStrCmp are fields of `CompareLib`.
-- Fan: Platform/RaspberryPi/RPi5/Drivers/ActiveCoolerDxe/ActiveCoolerDxe.c. The static variables
--   are the record `Fan`; `poll_tick` is FanPollTick, Control has RPI_FAN_PROTOCOL and the
--   ExitBootServices handler, Policy ReadPolicy and TripMilliC, Hardware the register accesses.
--   Reach is the driver as a transition system. The entry point's event and protocol registration
--   is not modelled: `loaded` is the state that it leaves,
--   the policy still zeroed.
-- Gem: Silicon/Broadcom/Drivers/Net/Rp1GemDxe. The record `Gem` is RP1_GEM_PRIVATE_DATA with what the
--   descriptors and buffers hold; Regs and PhyRegs are the register constants. Dma has GemDmaAlloc and
--   GemDmaFree over DmaLib, a parameter; Mac the bring-up, Mdio, Tx and Rx the other functions of
--   GemHw.c; Phy is Phy.c, Snp and Snp.Traffic are Snp.c. Tx.Fifo and Rx.Queue are the queues that the
--   rings implement; the hardware's part is a step of its own between calls. The receive loop runs on
--   17 rounds, one more than there are descriptors: a round empties a descriptor or ends the loop, the
--   hardware's writes during one call left out. The polling loops have the source's counts. Whether
--   EfiAcquireLockOrFail gets the lock is an argument; delays and DEBUG output are left out, ASSERTs
--   stop nothing. What ReceiveFilters writes behind the array of multicast addresses is left out.
--   DriverBinding.c and ComponentName.c are not modelled.
-- Spi: Platform/RaspberryPi/RPi5/Drivers/BootloaderConfigDxe/Bcm2712SpiFlash.c. `spi_xfer` is SpiXfer,
--   Image has SpiProbeJedec and Bcm2712BootSpiReadImage; Search says what they do on the wire. The loop of
--   a transfer runs on (bytes + 1) * (SPI_STALL_LIMIT + 1) rounds: each takes a byte or counts a
--   stall. The callers' buffers are not NULL. Locate is Bcm2712BootSpiLocate.
-- Fmp: Platform/RaspberryPi/RPi5/Library/Rpi5FmpDeviceLib/Rpi5FmpDeviceLib.c. The firmware's file also
--   holds the variable store. `set_image_with_status` is FmpDeviceSetImageWithStatus, `get_image`
--   FmpDeviceGetImage, `open_firmware_file` Rpi5FmpOpenFirmwareFile. `Files` has the file protocols over
--   an unknown state, and `IsLawful` what the UEFI specification says of them. A handle without
--   a file system and a volume that does not open are one answer of `open_volume`. The functions that
--   only return EFI_UNSUPPORTED are left out.
-- Rtc: Platform/RaspberryPi/Library/RpiRtcLib/RpiRtcLib.c. `get_time`, `set_time`, `get_wakeup_time`,
--   `set_wakeup_time` are LibGetTime and its siblings, `rtc_initialize` LibRtcInitialize. TimeBaseLib and
--   the firmware protocol are parameters; an output buffer is the value that it held before.
-- Fdt: the walk through the device tree that PowerButtonDxe.c and BootloaderConfigDxe.c have in
--   common, `translated_reg`, and the blconfig region. FdtLib is a parameter. The walk runs on one round
--   more than the bus's offset: a parent's offset is smaller.
-- PowerButton: Platform/RaspberryPi/RPi5/Drivers/PowerButtonDxe/PowerButtonDxe.c. The static variables are
--   the record `Button`; `poll` is PowerButtonPoll, `power_button_entry_point` the entry point, Halt has
--   ReadPowerOffOnHalt, whose scan runs on one round more than the text has characters. Labels end in
--   a NUL within their property.
-- BootConfig: Platform/RaspberryPi/RPi5/Drivers/BootloaderConfigDxe/BootloaderConfigDxe.c. `load_blconfig`
--   is LoadBlconfig, `on_ready_to_boot` BootloaderConfigOnReadyToBoot with BlStagedMarkerCleanup of
--   BootloaderConfigSetup.c. The variable services and the layout of the setup variable are parameters;
--   the deletion of the staged files and the Setup page's installation are arguments.
-- MemoryMap: Platform/RaspberryPi/RPi5/Library/PlatformLib/RaspberryPiMem.c. `regions` is the table of
--   ArmPlatformGetVirtualMemoryMap. The PCDs are parameters.
-- Bcm2712Gpio: Silicon/Broadcom/Bcm27xx/Library/Bcm2712GpioLib/Bcm2712GpioLib.c. Tables has the two pin
--   tables, a failed ASSERT is its FailAction, and a shift by 32 and more a parameter.
-- Rp1Gpio: Silicon/RaspberryPi/RpiSiliconPkg/Library/Rp1GpioLib/Rp1GpioLib.c.
-- BoardRevision: Platform/RaspberryPi/Library/BoardRevisionHelperLib/BoardRevisionHelperLib.c.
-- Common: the shared vocabulary. Mmio models register accesses: a run is a history of reads and
--   writes, and what a read returns is the device's answer to the history so far, left open.
--
-- Integers are natural numbers with the wrap-around of C written out (Common.Word). Pointers are
-- offsets into byte memory; a NULL argument and out-of-bounds accesses of a caller's buffer are not
-- modelled. Where a theorem is about an image of bounded size, the bound keeps offsets from wrapping;
-- the images of the boards have 2 MiB.
--
-- Not modelled: the drivers that are mostly protocol glue (setup forms, Redfish, driver bindings, PCI), the
-- build recipes and the vendored themes.
pub mod Common
pub mod Gem
pub mod Spi
pub mod Fmp
pub mod Rtc
pub mod Fdt
pub mod PowerButton
pub mod BootConfig
pub mod MemoryMap
pub mod Bcm2712Gpio
pub mod Blcfg
pub mod BoardRevision
pub mod Eeprom
pub mod Rp1Gpio
pub mod Fan
pub mod Sha256
