-- ===== src/Blcfg/Build.antt =====
-- `FormatKeyLine`, `AppendWanted` and `BlBuildNewConfigText` of BootloaderConfigDxe/BlcfgValues.c.
-- `Out` is the list of the characters before `OutPos`; EFI_BUFFER_TOO_SMALL is `none`.
use rpi5_uefi_build.Common.{
  ℕ, zero, suc, ◌+◌, ◌-◌, ◌/◌, ◌%◌, Bool, true, false, not, ◌||◌, Option, none, some, List, [], ◌∷◌,
  ◌++◌, ltb, leb, ◌==◌, if◌then◌else◌, length, u8,
}
use rpi5_uefi_build.Blcfg.{
  CompareLib, BlKey, boot_order, boot_uart, power_off_on_halt, wake_on_gpio, psu_max_current,
  all_keys, key_name, Values, line_of, after_line, is_line_of, default_order,
}

abbrev pub digit : ℕ → ℕ
digit n = u8 (b'0' + n)

-- The digits of PsuMaxCurrent.
unfoldable pub psu_digits : ℕ → List ℕ
psu_digits n =
    let low = if leb 1000 n then n % 1000 else n in
    let last = digit (low / 100) ∷ digit (low / 10 % 10) ∷ digit (low % 10) ∷ [] in
    if leb 1000 n then digit (n / 1000) ∷ last else last

-- `Value` of `FormatKeyLine`; `none` where it returns 0 first.
unfoldable pub key_value : BlKey → Values → Option (List ℕ)
key_value boot_order v = some v.order
key_value boot_uart v = some (digit v.uart ∷ [])
key_value power_off_on_halt v = some (digit v.halt ∷ [])
key_value wake_on_gpio v = some (digit v.wake ∷ [])
key_value psu_max_current v = if v.psu == 0 then none else some (psu_digits v.psu)

-- The line for a value, if it fits.
unfoldable pub key_line : BlKey → Option (List ℕ) → ℕ → List ℕ
key_line k none cap = []
key_line k (some value) cap =
    if ltb cap (length (key_name k) + 1 + length value + 1)
    then []
    else key_name k ++ (b'=' ∷ (value ++ (10 ∷ [])))

-- `FormatKeyLine`: the characters that it writes.
abbrev pub format_key_line : BlKey → Values → ℕ → List ℕ
format_key_line k v cap = key_line k (key_value k v) cap

-- Whether each key has been seen.
pub record Seen : Type 0 where
  pub order : Bool
  pub uart : Bool
  pub halt : Bool
  pub wake : Bool
  pub psu : Bool

abbrev pub none_seen : Seen
none_seen = record { order = false; uart = false; halt = false; wake = false; psu = false }

abbrev pub seen_key : Seen → BlKey → Bool
seen_key s boot_order = s.order
seen_key s boot_uart = s.uart
seen_key s power_off_on_halt = s.halt
seen_key s wake_on_gpio = s.wake
seen_key s psu_max_current = s.psu

abbrev pub mark : Seen → BlKey → Seen
mark s boot_order = record s { order = true }
mark s boot_uart = record s { uart = true }
mark s power_off_on_halt = record s { halt = true }
mark s wake_on_gpio = record s { wake = true }
mark s psu_max_current = record s { psu = true }

-- The output so far.
pub record Building : Type 0 where
  pub seen : Seen
  pub out : List ℕ

-- LineEnd < OrigLen
unfoldable pub has_newline : List ℕ → Bool
has_newline [] = false
has_newline (c ∷ text) = c == 10 || has_newline text

-- Out[OutPos - 1] != '\n', of an `Out` that is not empty.
unfoldable pub is_unended : List ℕ → Bool
is_unended [] = false
is_unended (c ∷ []) = not (c == 10)
is_unended (c ∷ d ∷ out) = is_unended (d ∷ out)

module _ (lib : CompareLib) where
  -- `Match`: the first of the keys whose line this is.
  unfoldable pub match_key : List ℕ → List BlKey → Option BlKey
  match_key line [] = none
  match_key line (k ∷ keys) =
      let later = match_key line keys in if is_line_of lib (key_name k) line then some k else later

abbrev pub text_built : Option Building → Option (List ℕ)
text_built none = none
text_built (some b) = some b.out

module _ (lib : CompareLib) (v : Values) (cap : ℕ) where
  -- What one line adds to the output. The line stands without its newline, `ended` says that it has
  -- one.
  unfoldable pub put_line : List ℕ → Bool → Option BlKey → Building → Option Building
  put_line line ended none b =
      if ltb cap (length b.out + length line + 1)
      then none
      else some (record b { out = b.out ++ line ++ (if ended then 10 ∷ [] else []) })
  put_line line ended (some k) b =
      if seen_key b.seen k
      then some b
      else if ltb cap (length b.out + 64)
      then none
      else some
          (record { seen = mark b.seen k; out = b.out ++ format_key_line k v (cap - length b.out) })

  -- The loop over the lines. Each round takes a character at least, so `OrigLen` rounds are enough.
  unfoldable pub copy_loop : ℕ → List ℕ → Building → Option Building
  copy_loop zero text b = some b
  copy_loop (suc fuel) [] b = some b
  copy_loop (suc fuel) (c ∷ text) b =
      let line = line_of (c ∷ text) in
      elim (put_line line (has_newline (c ∷ text)) (match_key lib line all_keys) b) [
        | none ↦ none
        | some b' ↦ copy_loop fuel (after_line (c ∷ text)) b'
      ]

  -- A last line without a newline gets one.
  unfoldable pub end_line : Building → Option Building
  end_line b =
      if is_unended b.out
      then if ltb cap (length b.out + 1) then none else some (record b { out = b.out ++ (10 ∷ []) })
      else some b

  -- `AppendWanted`
  unfoldable pub append_wanted : BlKey → Bool
  append_wanted boot_order = not (lib.ascii_str_cmp v.order default_order == 0)
  append_wanted boot_uart = not (v.uart == 0)
  append_wanted power_off_on_halt = not (v.halt == 0)
  append_wanted wake_on_gpio = not (v.wake == 1)
  append_wanted psu_max_current = not (v.psu == 0)

  -- The line of a key that is missing from the text.
  unfoldable pub put_missing : BlKey → Building → Option Building
  put_missing k b =
      if seen_key b.seen k || not (append_wanted k)
      then some b
      else if ltb cap (length b.out + 64)
      then none
      else some (record b { out = b.out ++ format_key_line k v (cap - length b.out) })

  unfoldable pub append_loop : List BlKey → Building → Option Building
  append_loop [] b = some b
  append_loop (k ∷ keys) b = elim (put_missing k b) [ none ↦ none | some b' ↦ append_loop keys b' ]

  unfoldable pub ended_then_append : Option Building → Option Building
  ended_then_append none = none
  ended_then_append (some b) = elim (end_line b) [ none ↦ none | some b' ↦ append_loop all_keys b' ]

  -- `BlBuildNewConfigText`
  unfoldable pub build_new_config_text : List ℕ → Option (List ℕ)
  build_new_config_text text =
      text_built
        (ended_then_append (copy_loop (length text) text (record { seen = none_seen; out = [] })))
