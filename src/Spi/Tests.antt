-- ===== src/Spi/Tests.antt =====
-- A transfer of the boot SPI's driver.
use rpi5_uefi_build.Common.{[], true, refl, ◌≡◌}
use rpi5_uefi_build.Common.Mmio.{Device}
use rpi5_uefi_build.Spi.{BootSpi, Transfer, spi_xfer}
use rpi5_uefi_build.Fdt.Tests.{chain}
use rpi5_uefi_build.Spi.Locate.{fixed_spi, locate}
use rpi5_uefi_build.Spi.Wire.{XferEnds}
use rpi5_uefi_build.Spi.Xfer.{spi_xfer-XferEnds}

abbrev boot_spi : BootSpi
boot_spi = record {
  spi_base = 0x10_7d00_4000;
  cs_bank_base = 0x10_7d50_8500;
  cs_mask = 2;
  cs_pin = 1;
  cs_active_low = true;
  pinctrl_base = 0x10_7d50_4100;
  is_d0 = true;
}

-- Every FIFO is ready, and the flash answers 0x01.
abbrev ready_device : Device
ready_device = record { reply = λ h a. 0x7_0001 }

abbrev read_id : Transfer
read_id = record { tx = λ i. 0x9f; tx_len = 1; rx_len = 3 }

spi_xfer-XferEnds_example :
    XferEnds boot_spi read_id []
      (spi_xfer ready_device boot_spi read_id (λ i. 0) []).0
      (spi_xfer ready_device boot_spi read_id (λ i. 0) []).1
spi_xfer-XferEnds_example = spi_xfer-XferEnds ready_device boot_spi read_id (λ i. 0) []

-- A tree without the nodes.
fallback : locate chain ≡ fixed_spi
unfolding locate
fallback = refl
