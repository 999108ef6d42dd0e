-- ===== src/Blcfg/Form.antt =====
-- The values and the setup form's store of them, of BlcfgValues.c: there and back.
use rpi5_uefi_build.Common.{
  ℕ, zero, suc, ◌+◌, ◌-◌, ◌≤◌, ◌≡◌, refl, arith, true, false, not, ◌&&◌, some, List, [], ◌∷◌, ◌++◌,
  length, ltb, ◌==◌, All, replicate,
}
use rpi5_uefi_build.Blcfg.{Values, is_hex, to_flag}
use rpi5_uefi_build.Blcfg.Canonical.{IsCanonical, parse_boot_order-order}
use rpi5_uefi_build.Blcfg.Data.{
  ascii_of, take_numbers, values_from_data, values_to_data, order_maxlen,
}

-- A character that `BlValuesFromData` takes.
abbrev IsAscii : ℕ → Type 0
IsAscii c = (1 ≤ c) × (c ≤ 0x7f)

ascii_of-append :
    (left : ℕ) (s : List ℕ) (n : ℕ)
    → All IsAscii s
    → length s ≤ left
    → ascii_of left (s ++ replicate n 0) ≡ some s
unfolding ascii_of
ascii_of-append zero [] n h le = refl
ascii_of-append zero (c ∷ s) n h le = absurd (omega arith)
ascii_of-append (suc left) [] zero h le = refl
ascii_of-append (suc left) [] (suc n) h le = refl
ascii_of-append (suc left) (c ∷ s) n h le =
    let set : (c == 0) ≡ false = ground (arith, h.0.0) in
    let low : ltb 0x7f c ≡ false = ground (arith, h.0.1) in
    rw (set, low, ascii_of-append left s n h.1 (omega arith))

hex-IsAscii : (s : List ℕ) → All (λ c. is_hex c ≡ true) s → All IsAscii s
hex-IsAscii [] h = tt
hex-IsAscii (c ∷ s) h = (ground arith, hex-IsAscii s h.1)

to_flag-flag : (n : ℕ) → n ≤ 1 → to_flag n ≡ n
to_flag-flag n h = ground arith

module _ (v : Values) (c : IsCanonical v) where
  order-IsAscii : All IsAscii v.order
  order-IsAscii = rw c.order_is ((omega arith), ((omega arith), hex-IsAscii c.digits c.hex))

  -- For canonical values, BlValuesFromData accepts what BlValuesToData stores and gives the
  -- same values.
  pub values_from_data-values_to_data : values_from_data (values_to_data v) ≡ some v
  unfolding values_from_data values_to_data take_numbers
  values_from_data-values_to_data =
      let short : length v.order ≤ order_maxlen = rw c.order_is (omega (arith, c.few)) in
      let ascii =
        ascii_of-append order_maxlen v.order (order_maxlen + 1 - length v.order) order-IsAscii
          short in
      let offered : (not (v.psu == 0) && not (v.psu == 3000) && not (v.psu == 5000)) ≡ false =
        ground (arith, c.psu_known) in
      rw (ascii, parse_boot_order-order v c, offered)
        (λ i. some (record {
          order = v.order;
          uart = to_flag-flag v.uart c.uart_flag i;
          halt = to_flag-flag v.halt c.halt_flag i;
          wake = to_flag-flag v.wake c.wake_flag i;
          psu = v.psu;
        }))
