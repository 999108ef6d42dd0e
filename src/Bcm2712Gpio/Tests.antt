-- ===== src/Bcm2712Gpio/Tests.antt =====
-- Runs of Bcm2712GpioLib.c on a device whose registers hold one word.
use rpi5_uefi_build.Common.{ℕ, ◌≡◌, refl, arith, [], ◌∷◌, true, false}
use rpi5_uefi_build.Common.Mmio.{Device, rd, wr}
use rpi5_uefi_build.Rp1Gpio.Fields.{written}
use rpi5_uefi_build.Bcm2712Gpio.{
  gio, gio_aon, reg_address, gpio_get_function, gpio_set_function, gpio_get_pull, gpio_set_pull,
  gpio_write, gpio_read, gpio_get_direction, gpio_set_direction, input, other_direction, alt_count,
  pin_registers,
}
use rpi5_uefi_build.Bcm2712Gpio.Tables.{pin}
use rpi5_uefi_build.Bcm2712Gpio.Functions.{gpio_set_function-SetAlone}

abbrev holds : ℕ → Device
holds v = record { reply = λ h a. v }

-- The function of pin 2 of the first controller is in bits 4 to 7, that of pin 3 in bits 8 to 11.
gpio_set_function-SetAlone_example :
    (written (gpio_set_function (holds 0x1234) gio 2 7 []).1 ≡ reg_address (holds 0) gio 0 ∷ [])
    × ((gpio_get_function (holds 0x1274) gio 3 []).0 ≡ 2)
unfolding pin_registers gpio_set_function gpio_get_function
gpio_set_function-SetAlone_example =
    gpio_set_function-SetAlone gio 2 3 (pin 0 4 0x10 12) (pin 0 8 0x10 14) (holds 0x1234)
      (holds 0x1274) 7 [] [] refl refl (λ e. absurd (omega arith)) refl (omega arith) refl

runs :
    ((gpio_get_function (holds 0x1234) gio 2 []).0 ≡ 3)
    × ((gpio_get_function (holds 0x1234) gio 0 []).0 ≡ alt_count)
    × ((gpio_get_function (holds 0x1234) gio 47 []).0 ≡ alt_count)
    × ((gpio_get_pull (holds 0x30000000) gio_aon 5 []).0 ≡ 3)
    × (gpio_set_pull (holds 0) gio 2 3 [] ≡ (tt, []))
    × (written (gpio_set_pull (holds 0) gio 2 2 []).1 ≡ 0x10_7d50_4110 ∷ [])
    × (written (gpio_set_direction (holds 0) gio (λ n. 0) 2 other_direction []).1 ≡ [])
    × (gpio_set_direction (holds 0) gio_aon (λ n. 0) 33 input []
        ≡ (tt, wr 0x10_7d51_7c28 0 ∷ rd 0x10_7d51_7c28 0 ∷ []))
    × (gpio_write (holds 0x10) gio (λ n. 0) 4 false []
        ≡ (tt, wr 0x10_7d50_8504 0 ∷ rd 0x10_7d50_8504 0x10 ∷ []))
    × ((gpio_read (holds 0x10) gio (λ n. 0) 4 []).0 ≡ true)
    × ((gpio_get_direction (holds 0x10) gio (λ n. 0) 4 []).0 ≡ input)
unfolding pin_registers gpio_get_function gpio_get_pull gpio_set_pull gpio_write gpio_read
    gpio_get_direction gpio_set_direction
runs = (refl, refl, refl, refl, refl, refl, refl, refl, refl, refl, refl)
