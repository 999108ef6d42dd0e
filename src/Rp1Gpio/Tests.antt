-- ===== src/Rp1Gpio/Tests.antt =====
-- Two pins of the RP1, configured.
use rpi5_uefi_build.Common.{arith, []}
use rpi5_uefi_build.Common.Mmio.{Device}
use rpi5_uefi_build.Rp1Gpio.{set_function, set_pull, pull_down, pull_up}
use rpi5_uefi_build.Rp1Gpio.Fields.{Apart, written, set_function-set_pull-Apart}

abbrev sample_device : Device
sample_device = record { reply = λ h a. 0x96 }

set_function-set_pull-Apart_example :
    Apart
      (written
        (set_pull sample_device 0x1f_0000_0000 45 pull_down
          (set_function sample_device 0x1f_0000_0000 45 0 []).1).1)
      (written
        (set_pull sample_device 0x1f_0000_0000 33 pull_up
          (set_function sample_device 0x1f_0000_0000 33 5 []).1).1)
set_function-set_pull-Apart_example =
    set_function-set_pull-Apart sample_device sample_device 0x1f_0000_0000 45 33 0 5 pull_down
      pull_up (omega arith) (omega arith) (omega arith) (λ e. absurd (omega arith))
