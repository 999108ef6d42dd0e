-- ===== src/Blcfg/Data.antt =====
-- `BlValuesFromData`, `BlValuesToData` and `BlValuesEqual` of BootloaderConfigDxe/BlcfgValues.c:
-- the values as the setup form's variable store holds them.
use mathlib.Core.Option
use rpi5_uefi_build.Common.{
  ℕ, zero, suc, ◌+◌, ◌-◌, Bool, ◌&&◌, Option, none, some, List, [], ◌∷◌, ◌++◌, ltb, ◌==◌, not,
  if◌then◌else◌, length, replicate,
}
use rpi5_uefi_build.Blcfg.{CompareLib, Values, parse_boot_order, to_flag}

-- RPI_BLCFG_BOOT_ORDER_MAXLEN
abbrev pub order_maxlen : ℕ
order_maxlen = 11

-- RPI_BLCFG_DATA; `order` is the array of order_maxlen + 1 CHAR16.
pub record FormData : Type 0 where
  pub order : List ℕ
  pub uart : ℕ
  pub halt : ℕ
  pub wake : ℕ
  pub psu : ℕ

-- The loop of `BlValuesFromData` with `left` rounds to go; `none` is FALSE.
unfoldable pub ascii_of : ℕ → List ℕ → Option (List ℕ)
ascii_of zero s = some []
ascii_of (suc left) [] = some []
ascii_of (suc left) (c ∷ s) =
    let rest = Option.map (λ out. c ∷ out) (ascii_of left s) in
    if c == 0 then some [] else if ltb 0x7f c then none else rest

-- The numbers, once the boot order is there.
unfoldable pub take_numbers : FormData → Option (List ℕ) → Option Values
take_numbers d none = none
take_numbers d (some order) =
    if not (d.psu == 0) && not (d.psu == 3000) && not (d.psu == 5000)
    then none
    else some (record {
      order = order;
      uart = to_flag d.uart;
      halt = to_flag d.halt;
      wake = to_flag d.wake;
      psu = d.psu;
    })

abbrev pub parse_ascii : Option (List ℕ) → Option (List ℕ)
parse_ascii none = none
parse_ascii (some s) = parse_boot_order s

-- `BlValuesFromData`
unfoldable pub values_from_data : FormData → Option Values
values_from_data d = take_numbers d (parse_ascii (ascii_of order_maxlen d.order))

-- `BlValuesToData`
unfoldable pub values_to_data : Values → FormData
values_to_data v = record {
  order = v.order ++ replicate (order_maxlen + 1 - length v.order) 0;
  uart = v.uart;
  halt = v.halt;
  wake = v.wake;
  psu = v.psu;
}

-- `BlValuesEqual`
unfoldable pub values_equal : CompareLib → Values → Values → Bool
values_equal lib a b =
    lib.ascii_str_cmp a.order b.order == 0
    && a.uart == b.uart
    && a.halt == b.halt
    && a.wake == b.wake
    && a.psu == b.psu
