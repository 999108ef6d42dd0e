-- ===== src/Fan/Hardware.antt =====
-- The register accesses of ActiveCoolerDxe.c: the PWM channel of the fan, its clock and its pin,
-- and the AVS temperature sensor.
use rpi5_uefi_build.Common.{
  ℕ, ◌+◌, ◌*◌, ◌/◌, ◌^◌, Option, none, some, bit_and, bit_or, ◌==◌, if◌then◌else◌, u32, u64,
}
use rpi5_uefi_build.Common.Int.{ℤ, sub_ℕ}
use rpi5_uefi_build.Common.Mmio.{Device, M, pure, ◌>>=◌, ◌>>◌, read32, write32}
use rpi5_uefi_build.Fan.Policy.{duty255}
use rpi5_uefi_build.Rp1Gpio.{set_function, set_pull, pull_down}

abbrev pub avs_ro_temp_status : ℕ
avs_ro_temp_status = 0x10_7d54_2200

abbrev pub avs_temp_valid_mask : ℕ
avs_temp_valid_mask = 0x1_0400

abbrev pub avs_temp_raw_mask : ℕ
avs_temp_raw_mask = 0x3ff

abbrev pub rp1_clocks_main_base : ℕ
rp1_clocks_main_base = 0x1_8000

abbrev pub rp1_pwm1_base : ℕ
rp1_pwm1_base = 0x9_c000

abbrev pub pwm_global_set_update : ℕ
pwm_global_set_update = 2 ^ 31

abbrev pub fan_pwm_channel : ℕ
fan_pwm_channel = 3

abbrev pub fan_pwm_gpio : ℕ
fan_pwm_gpio = 45

abbrev pub fan_pwm_range_ticks : ℕ
fan_pwm_range_ticks = 2078

abbrev pub pwm_chan_ctrl : ℕ → ℕ
pwm_chan_ctrl c = 0x14 + c * 16

abbrev pub pwm_chan_range : ℕ → ℕ
pwm_chan_range c = 0x18 + c * 16

abbrev pub pwm_chan_duty : ℕ → ℕ
pwm_chan_duty c = 0x20 + c * 16

-- MODE_TE_MS | INVERT | FIFO_POP
abbrev pub pwm_chan_mode : ℕ
pwm_chan_mode = bit_or (bit_or 1 8) 0x100

abbrev pub clk_ctrl_enable : ℕ
clk_ctrl_enable = 2 ^ 11

abbrev pub clk_ctrl_auxsrc_xosc : ℕ
clk_ctrl_auxsrc_xosc = 2 * 2 ^ 5

-- DutyTicks of `FanSetLevel`
unfoldable pub duty_ticks : ℕ → ℕ
duty_ticks level = u32 (duty255 level * fan_pwm_range_ticks + 127) / 255

-- The temperature that a status word stands for, or `none` while it is invalid.
unfoldable pub avs_temperature : ℕ → Option ℤ
avs_temperature status =
    if bit_and status avs_temp_valid_mask == avs_temp_valid_mask
    then some (sub_ℕ 450000 (550 * bit_and status avs_temp_raw_mask))
    else none

module _ (device : Device) where
  -- `AvsReadMilliCelsius`
  unfoldable pub avs_read_milli_c : M (Option ℤ)
  avs_read_milli_c = do status ← read32 device avs_ro_temp_status; pure (avs_temperature status)

  -- `FanPwmLatch`
  unfoldable pub pwm_latch : ℕ → M (Unit {0})
  pwm_latch base = do
    global ← read32 device (u64 (base + rp1_pwm1_base))
    write32 (u64 (base + rp1_pwm1_base)) (bit_or global pwm_global_set_update)

  -- The register accesses of `FanSetLevel`
  unfoldable pub set_level : ℕ → ℕ → M (Unit {0})
  unfolding pwm_latch duty_ticks
  set_level base level = do
    write32 (u64 (base + rp1_pwm1_base + pwm_chan_duty fan_pwm_channel)) (duty_ticks level)
    pwm_latch base

  enable_clock : ℕ → M (Unit {0})
  enable_clock base = do
    write32 (u64 (base + rp1_clocks_main_base + 0x88)) 1
    write32 (u64 (base + rp1_clocks_main_base + 0x8c)) 0
    write32 (u64 (base + rp1_clocks_main_base + 0x84)) (bit_or clk_ctrl_auxsrc_xosc clk_ctrl_enable)

  -- The clock of `FanHwInit`, programmed only if it is disabled.
  unfoldable pub clock_init : ℕ → M (Unit {0})
  unfolding enable_clock
  clock_init base = do
    ctrl ← read32 device (u64 (base + rp1_clocks_main_base + 0x84))
    if bit_and ctrl clk_ctrl_enable == 0 then enable_clock base else pure tt

  -- `FanHwInit`
  unfoldable pub hw_init : ℕ → M (Unit {0})
  unfolding clock_init pwm_latch
  hw_init base = do
    clock_init base
    set_function device base fan_pwm_gpio 0
    set_pull device base fan_pwm_gpio pull_down
    write32 (u64 (base + rp1_pwm1_base + pwm_chan_ctrl fan_pwm_channel)) pwm_chan_mode
    write32 (u64 (base + rp1_pwm1_base + pwm_chan_range fan_pwm_channel)) fan_pwm_range_ticks
    write32 (u64 (base + rp1_pwm1_base + pwm_chan_duty fan_pwm_channel)) 0
    global ← read32 device (u64 (base + rp1_pwm1_base))
    write32 (u64 (base + rp1_pwm1_base)) (bit_or global (2 ^ fan_pwm_channel))
    pwm_latch base
