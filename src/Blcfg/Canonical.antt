-- ===== src/Blcfg/Canonical.antt =====
-- The values that the setup form and the text can hold, and their round trip through the characters of
-- a line, of BlcfgValues.c.
use rpi5_uefi_build.Common.{
  ℕ, zero, suc, ◌≤◌, ◌≡◌, ◌≢◌, refl, sym, ◌∙◌, ap, ◌⊎◌, inl, inr, arith, true, false, ◌||◌, some,
  List, [], ◌∷◌, length, ltb, ◌==◌, All,
}
use rpi5_uefi_build.Blcfg.{
  BlKey, boot_order, boot_uart, power_off_on_halt, wake_on_gpio, psu_max_current, Values, trim_cr,
  is_hex, lower, is_blank, skip_blanks, trim_blanks, strip_0x, hex_digits, parse_boot_order,
  parse_decimal, decimal_from, order_or, flag_or, psu_or, snap_psu,
}
use rpi5_uefi_build.Blcfg.Build.{key_value, psu_digits, digit}
use rpi5_uefi_build.Blcfg.Lines.{IsLine}

-- "0x" and one to eight lower-case hex digits; flags; a current that the form offers.
pub record IsCanonical (v : Values) : Type 0 where
  pub digits : List ℕ
  pub order_is : v.order ≡ b'0' ∷ b'x' ∷ digits
  pub some_digit : 1 ≤ length digits
  pub few : length digits ≤ 8
  pub hex : All (λ c. is_hex c ≡ true) digits
  pub uart_flag : v.uart ≤ 1
  pub halt_flag : v.halt ≤ 1
  pub wake_flag : v.wake ≤ 1
  pub psu_known : (v.psu ≡ 0) ⊎ (v.psu ≡ 3000) ⊎ (v.psu ≡ 5000)

hex_digits-hex : (s : List ℕ) → All (λ c. is_hex c ≡ true) s → hex_digits s ≡ some s
unfolding hex_digits
hex_digits-hex [] h = refl
hex_digits-hex (c ∷ s) h =
    let low : lower c ≡ c = ground arith in rw (low, h.0, hex_digits-hex s h.1)

trim_blanks-hex : (s : List ℕ) → All (λ c. is_hex c ≡ true) s → trim_blanks s ≡ s
unfolding trim_blanks
trim_blanks-hex [] h = refl
trim_blanks-hex (c ∷ []) h = let dark : is_blank c ≡ false = ground arith in rw dark
trim_blanks-hex (c ∷ d ∷ s) h = rw (trim_blanks-hex (d ∷ s) h.1)

trim_cr-hex : (s : List ℕ) → All (λ c. is_hex c ≡ true) s → trim_cr s ≡ s
unfolding trim_cr
trim_cr-hex [] h = refl
trim_cr-hex (c ∷ []) h = let other : (c == 13) ≡ false = ground arith in rw other
trim_cr-hex (c ∷ d ∷ s) h = ap (λ l. c ∷ l) (trim_cr-hex (d ∷ s) h.1)

IsLine-hex : (s : List ℕ) → All (λ c. is_hex c ≡ true) s → IsLine s
IsLine-hex [] h = tt
IsLine-hex (c ∷ s) h = ((λ e. ground arith), IsLine-hex s h.1)

parse-digits :
    (s : List ℕ)
    → 1 ≤ length s
    → length s ≤ 8
    → All (λ c. is_hex c ≡ true) s
    → parse_boot_order (trim_cr (b'0' ∷ b'x' ∷ s)) ≡ some (b'0' ∷ b'x' ∷ s)
unfolding parse_boot_order skip_blanks strip_0x trim_cr trim_blanks
parse-digits [] lo hi h = absurd (omega arith)
parse-digits (d ∷ s) lo hi h =
    let sized : (length (d ∷ s) == 0 || ltb 8 (length (d ∷ s))) ≡ false = ground arith in
    rw (trim_cr-hex (d ∷ s) h, trim_blanks-hex (d ∷ s) h, sized, hex_digits-hex (d ∷ s) h)

trim_cr-prefix :
    (s : List ℕ)
    → 1 ≤ length s
    → All (λ c. is_hex c ≡ true) s
    → trim_cr (b'0' ∷ b'x' ∷ s) ≡ b'0' ∷ b'x' ∷ s
unfolding trim_cr
trim_cr-prefix [] lo h = absurd (omega arith)
trim_cr-prefix (d ∷ s) lo h = ap (λ l. b'0' ∷ b'x' ∷ l) (trim_cr-hex (d ∷ s) h)

order_or-parsed : (s o : List ℕ) → parse_boot_order s ≡ some o → order_or (some s) ≡ o
unfolding order_or
order_or-parsed s o e = rw (order_or, e)

some-value : {a b : List ℕ} → some a ≡ some b → a ≡ b
some-value h = cc

psu-IsLine : {d : ℕ} → d ≢ 10 → IsLine (d ∷ b'0' ∷ b'0' ∷ b'0' ∷ []) × (4 ≤ 10)
psu-IsLine ne = (
  (
    ne,
    ((λ e. absurd (omega arith)), ((λ e. absurd (omega arith)), ((λ e. absurd (omega arith)), tt))),
  ),
  omega arith,
)

module _ (v : Values) (c : IsCanonical v) where
  pub parse-order : order_or (some (trim_cr v.order)) ≡ v.order
  parse-order = rw c.order_is (
      order_or-parsed (trim_cr (b'0' ∷ b'x' ∷ c.digits)) (b'0' ∷ b'x' ∷ c.digits)
        (parse-digits c.digits c.some_digit c.few c.hex))

  -- The order alone, without a line around it.
  pub parse_boot_order-order : parse_boot_order v.order ≡ some v.order
  unfolding trim_cr
  parse_boot_order-order = rw c.order_is (
      ap parse_boot_order (sym (trim_cr-prefix c.digits c.some_digit c.hex))
      ∙ parse-digits c.digits c.some_digit c.few c.hex)

  -- What is written for a key is short and has no newline.
  pub key_value-IsLine :
      (k : BlKey) (value : List ℕ) → key_value k v ≡ some value → IsLine value × (length value ≤ 10)
  unfolding key_value psu_digits
  key_value-IsLine boot_order value h =
      let whole : value ≡ b'0' ∷ b'x' ∷ c.digits = ground (arith, c.order_is) in
      rw whole (
        ((λ e. absurd (omega arith)), ((λ e. absurd (omega arith)), IsLine-hex c.digits c.hex)),
        omega (arith, c.few),
      )
  key_value-IsLine boot_uart value h =
      let whole : value ≡ digit v.uart ∷ [] = ground arith in
      rw whole (((λ e. omega (arith, c.uart_flag)), tt), omega arith)
  key_value-IsLine power_off_on_halt value h =
      let whole : value ≡ digit v.halt ∷ [] = ground arith in
      rw whole (((λ e. omega (arith, c.halt_flag)), tt), omega arith)
  key_value-IsLine wake_on_gpio value h =
      let whole : value ≡ digit v.wake ∷ [] = ground arith in
      rw whole (((λ e. omega (arith, c.wake_flag)), tt), omega arith)
  key_value-IsLine psu_max_current value h = elim c.psu_known [
    | inl e ↦ absurd (ground (arith, e))
    | inr (inl e) ↦
        let whole : value ≡ b'3' ∷ b'0' ∷ b'0' ∷ b'0' ∷ [] = sym (some-value (rw e at h)) in
        rw whole (psu-IsLine (λ e. absurd (omega arith)))
    | inr (inr e) ↦
        let whole : value ≡ b'5' ∷ b'0' ∷ b'0' ∷ b'0' ∷ [] = sym (some-value (rw e at h)) in
        rw whole (psu-IsLine (λ e. absurd (omega arith)))
  ]

pub flag-written : (n old : ℕ) → n ≤ 1 → flag_or (some (trim_cr (digit n ∷ []))) old ≡ n
unfolding flag_or parse_decimal decimal_from trim_cr
flag-written zero old h = refl
flag-written (suc zero) old h = refl
flag-written (suc (suc n)) old h = absurd (omega arith)

pub psu-written :
    (n old : ℕ) → (n ≡ 3000) ⊎ (n ≡ 5000) → psu_or (some (trim_cr (psu_digits n))) old ≡ n
unfolding psu_or parse_decimal decimal_from trim_cr psu_digits snap_psu
psu-written n old (inl e) = rw e
psu-written n old (inr e) = rw e
