-- ===== src/Blcfg.antt =====
-- Platform/RaspberryPi/RPi5/Drivers/BootloaderConfigDxe/BlcfgValues.c (under
-- meta-rpi5-uefi/recipes-bsp/edk2-platforms/files/edk2-platforms): the managed values of the
-- bootloader's key=value text. A text is the list of its characters from `Pos` on; a NUL-terminated
-- string the list of those before the NUL.
pub mod Lines
pub mod Keys
pub mod Canonical
pub mod Rebuild
pub mod Copy
pub mod Append
pub mod RoundTrip
pub mod Form
pub mod Total
pub mod Kept
pub mod Data
pub mod Build
pub mod Tests
use mathlib.Core.Option
use rpi5_uefi_build.Common.{
  ℕ, zero, suc, ◌+◌, ◌-◌, ◌*◌, ◌/◌, ◌%◌, ◌^◌, ◌≡◌, ◌↔◌, Bool, true, false, not, ◌&&◌, ◌||◌, Option,
  none, some, List, [], ◌∷◌, ◌++◌, ltb, leb, ◌==◌, if◌then◌else◌, length, take, drop, get_or,
  replicate, u64,
}

-- What is used of EDK2's BaseLib and BaseMemoryLib, which the source only calls: the comparisons.
-- `compare_mem a b` is CompareMem on two buffers that hold the bytes `a` and `b`, as many each.
pub record CompareLib : Type 0 where
  pub compare_mem : List ℕ → List ℕ → ℕ
  pub compare_mem_iff : (a b : List ℕ) → length a ≡ length b → (compare_mem a b ≡ 0) ↔ (a ≡ b)
  pub ascii_str_cmp : List ℕ → List ℕ → ℕ
  pub ascii_str_cmp_iff : (a b : List ℕ) → (ascii_str_cmp a b ≡ 0) ↔ (a ≡ b)

-- BL_KEY
pub data BlKey : Type 0 where
  boot_order boot_uart power_off_on_halt wake_on_gpio psu_max_current : BlKey

abbrev pub all_keys : List BlKey
all_keys = boot_order ∷ boot_uart ∷ power_off_on_halt ∷ wake_on_gpio ∷ psu_max_current ∷ []

-- `mBlKeyNames`
abbrev pub key_name : BlKey → List ℕ
key_name boot_order = b'B' ∷ b'O' ∷ b'O' ∷ b'T' ∷ b'_' ∷ b'O' ∷ b'R' ∷ b'D' ∷ b'E' ∷ b'R' ∷ []
key_name boot_uart = b'B' ∷ b'O' ∷ b'O' ∷ b'T' ∷ b'_' ∷ b'U' ∷ b'A' ∷ b'R' ∷ b'T' ∷ []
key_name power_off_on_halt =
    b'P' ∷ b'O' ∷ b'W' ∷ b'E' ∷ b'R' ∷ b'_' ∷ b'O' ∷ b'F' ∷ b'F' ∷ b'_' ∷ b'O' ∷ b'N' ∷ b'_' ∷ b'H'
    ∷ b'A' ∷ b'L' ∷ b'T' ∷ []
key_name wake_on_gpio =
    b'W' ∷ b'A' ∷ b'K' ∷ b'E' ∷ b'_' ∷ b'O' ∷ b'N' ∷ b'_' ∷ b'G' ∷ b'P' ∷ b'I' ∷ b'O' ∷ []
key_name psu_max_current =
    b'P' ∷ b'S' ∷ b'U' ∷ b'_' ∷ b'M' ∷ b'A' ∷ b'X' ∷ b'_' ∷ b'C' ∷ b'U' ∷ b'R' ∷ b'R' ∷ b'E' ∷ b'N'
    ∷ b'T' ∷ []

-- BLCFG_VALUES
pub record Values : Type 0 where
  pub order : List ℕ
  pub uart : ℕ
  pub halt : ℕ
  pub wake : ℕ
  pub psu : ℕ

-- The line from `Pos` up to `LineEnd`, and the text behind its newline.
unfoldable pub line_of : List ℕ → List ℕ
line_of [] = []
line_of (c ∷ text) = let rest = line_of text in if c == 10 then [] else c ∷ rest

unfoldable pub after_line : List ℕ → List ℕ
after_line [] = []
after_line (c ∷ text) = let rest = after_line text in if c == 10 then text else rest

-- The value of a line without the carriage return at its end.
unfoldable pub trim_cr : List ℕ → List ℕ
trim_cr [] = []
trim_cr (c ∷ []) = if c == 13 then [] else c ∷ []
trim_cr (c ∷ d ∷ value) = c ∷ trim_cr (d ∷ value)

module _ (lib : CompareLib) where
  -- The test that a line is one of `name`.
  unfoldable pub is_line_of : List ℕ → List ℕ → Bool
  is_line_of name line =
      ltb (length name) (length line)
      && lib.compare_mem (take (length name) line) name == 0
      && get_or line (length name) 0 == b'='

  -- The loop of `BlTextGetValue`. Each round takes a character at least, so `Len` rounds are enough.
  unfoldable pub get_value_loop : ℕ → List ℕ → List ℕ → Option (List ℕ) → Option (List ℕ)
  get_value_loop zero name text found = found
  get_value_loop (suc fuel) name [] found = found
  get_value_loop (suc fuel) name (c ∷ text) found =
      let line = line_of (c ∷ text) in
      get_value_loop fuel name (after_line (c ∷ text))
        (if is_line_of name line then some (trim_cr (drop (length name + 1) line)) else found)

  -- `BlTextGetValue`; `none` is FALSE.
  unfoldable pub text_get_value : List ℕ → List ℕ → Option (List ℕ)
  text_get_value text name = get_value_loop (length text) name text none

abbrev pub is_blank : ℕ → Bool
is_blank c = c == 32 || c == 9

unfoldable pub skip_blanks : List ℕ → List ℕ
skip_blanks [] = []
skip_blanks (c ∷ s) = let rest = skip_blanks s in if is_blank c then rest else c ∷ s

-- The loop that takes blanks off the end.
unfoldable pub trim_blanks : List ℕ → List ℕ
trim_blanks [] = []
trim_blanks (c ∷ s) = elim (trim_blanks s) [
  | [] ↦ if is_blank c then [] else c ∷ []
  | d ∷ rest ↦ c ∷ d ∷ rest
]

-- The prefix 0x is taken off if something follows it.
unfoldable pub strip_0x : List ℕ → List ℕ
strip_0x [] = []
strip_0x (c ∷ []) = c ∷ []
strip_0x (c ∷ d ∷ []) = c ∷ d ∷ []
strip_0x (c ∷ d ∷ e ∷ s) = if c == b'0' && (d == b'x' || d == b'X') then e ∷ s else c ∷ d ∷ e ∷ s

abbrev pub lower : ℕ → ℕ
lower c = if leb b'A' c && leb c b'F' then c - b'A' + b'a' else c

abbrev pub is_hex : ℕ → Bool
is_hex c = (leb b'0' c && leb c b'9') || (leb b'a' c && leb c b'f')

unfoldable pub hex_digits : List ℕ → Option (List ℕ)
hex_digits [] = some []
hex_digits (c ∷ s) =
    let rest = Option.map (λ digits. lower c ∷ digits) (hex_digits s) in
    if is_hex (lower c) then rest else none

-- `ParseBootOrder`; `none` is FALSE.
unfoldable pub parse_boot_order : List ℕ → Option (List ℕ)
parse_boot_order s =
    let digits = strip_0x (trim_blanks (skip_blanks s)) in
    if length digits == 0 || ltb 8 (length digits)
    then none
    else Option.map (λ out. b'0' ∷ b'x' ∷ out) (hex_digits digits)

unfoldable pub decimal_from : ℕ → List ℕ → Option ℕ
decimal_from value [] = some value
decimal_from value (c ∷ s) =
    let rest = decimal_from (u64 (value * 10 + (c - b'0'))) s in
    if ltb c b'0' || ltb b'9' c || ltb 0xff_ffff value then none else rest

-- `ParseDecimal`; `none` is FALSE.
unfoldable pub parse_decimal : List ℕ → Option ℕ
unfolding decimal_from
parse_decimal [] = none
parse_decimal (c ∷ s) = decimal_from 0 (c ∷ s)

-- BL_BOOT_ORDER_DEFAULT
abbrev pub default_order : List ℕ
default_order = b'0' ∷ b'x' ∷ b'f' ∷ b'4' ∷ b'1' ∷ []

-- `SetDefaults`
abbrev pub default_values : Values
default_values = record { order = default_order; uart = 0; halt = 0; wake = 1; psu = 0 }

-- The current of a number in the text, if it says one.
unfoldable pub snap_psu : ℕ → ℕ → ℕ
snap_psu n old = if leb 4000 n then 5000 else if leb 1500 n then 3000 else old

abbrev pub to_flag : ℕ → ℕ
to_flag n = if n == 0 then 0 else 1

-- A value that has been found and parsed, or the default.
unfoldable pub order_or : Option (List ℕ) → List ℕ
order_or none = default_order
order_or (some s) = elim (parse_boot_order s) [ none ↦ default_order | some order ↦ order ]

unfoldable pub flag_or : Option (List ℕ) → ℕ → ℕ
flag_or none old = old
flag_or (some s) old = elim (parse_decimal s) [ none ↦ old | some n ↦ to_flag n ]

unfoldable pub psu_or : Option (List ℕ) → ℕ → ℕ
psu_or none old = old
psu_or (some s) old = elim (parse_decimal s) [ none ↦ old | some n ↦ snap_psu n old ]

-- `BlValuesFromText`
unfoldable pub values_from_text : CompareLib → List ℕ → Values
values_from_text lib text = record {
  order = order_or (text_get_value lib text (key_name boot_order));
  uart = flag_or (text_get_value lib text (key_name boot_uart)) default_values.uart;
  halt = flag_or (text_get_value lib text (key_name power_off_on_halt)) default_values.halt;
  wake = flag_or (text_get_value lib text (key_name wake_on_gpio)) default_values.wake;
  psu = psu_or (text_get_value lib text (key_name psu_max_current)) default_values.psu;
}
