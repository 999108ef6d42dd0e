-- ===== src/Blcfg/Rebuild.antt =====
-- What `BlBuildNewConfigText` of BlcfgValues.c keeps while it builds: the output is a text of lines in
-- which each key has the value written for it, or no line yet.
use mathlib.Core.Option
use rpi5_uefi_build.Common.{
  ℕ, ◌≤◌, ◌≡◌, ◌≢◌, refl, sym, ◌∙◌, ap, ◌⊎◌, inl, inr, arith, true, false, Option, none, some, List,
  [], ◌∷◌, ◌++◌, length, All, All-append,
}
use rpi5_uefi_build.Blcfg.{
  CompareLib, BlKey, boot_order, boot_uart, power_off_on_halt, wake_on_gpio, psu_max_current,
  key_name, Values, trim_cr, is_line_of,
}
use rpi5_uefi_build.Blcfg.Build.{Seen, seen_key, mark, key_value, has_newline}
use rpi5_uefi_build.Blcfg.Keys.{written_line, drop-append, is_line_of-written_line, key_cases}
use rpi5_uefi_build.Blcfg.Lines.{IsLine, flat, flat-append, find_last, find_last-append}

abbrev pub stored : Values → BlKey → Option (List ℕ)
stored v k = Option.map trim_cr (key_value k v)

-- `out` is a text of lines; each key has its value in it, or no line and is not marked as seen.
pub record HasValues (lib : CompareLib) (v : Values) (seen : Seen) (out : List ℕ) : Type 0 where
  pub lines : List (List ℕ)
  pub is_flat : out ≡ flat lines
  pub clean : All IsLine lines
  pub values :
      (k : BlKey)
      → (find_last lib (key_name k) lines none ≡ stored v k)
        ⊎ ((find_last lib (key_name k) lines none ≡ none) × (seen_key seen k ≡ false))

pub mark_cases : (s : Seen) (j k : BlKey) → (k ≡ j) ⊎ (seen_key (mark s j) k ≡ seen_key s k)
mark_cases s boot_order boot_order = inl refl
mark_cases s boot_order boot_uart = inr refl
mark_cases s boot_order power_off_on_halt = inr refl
mark_cases s boot_order wake_on_gpio = inr refl
mark_cases s boot_order psu_max_current = inr refl
mark_cases s boot_uart boot_order = inr refl
mark_cases s boot_uart boot_uart = inl refl
mark_cases s boot_uart power_off_on_halt = inr refl
mark_cases s boot_uart wake_on_gpio = inr refl
mark_cases s boot_uart psu_max_current = inr refl
mark_cases s power_off_on_halt boot_order = inr refl
mark_cases s power_off_on_halt boot_uart = inr refl
mark_cases s power_off_on_halt power_off_on_halt = inl refl
mark_cases s power_off_on_halt wake_on_gpio = inr refl
mark_cases s power_off_on_halt psu_max_current = inr refl
mark_cases s wake_on_gpio boot_order = inr refl
mark_cases s wake_on_gpio boot_uart = inr refl
mark_cases s wake_on_gpio power_off_on_halt = inr refl
mark_cases s wake_on_gpio wake_on_gpio = inl refl
mark_cases s wake_on_gpio psu_max_current = inr refl
mark_cases s psu_max_current boot_order = inr refl
mark_cases s psu_max_current boot_uart = inr refl
mark_cases s psu_max_current power_off_on_halt = inr refl
mark_cases s psu_max_current wake_on_gpio = inr refl
mark_cases s psu_max_current psu_max_current = inl refl

pub IsLine-decided : (l : List ℕ) → has_newline l ≡ false → IsLine l
unfolding has_newline
IsLine-decided [] h = tt
IsLine-decided (c ∷ l) h = ((λ e. ground arith), IsLine-decided l (ground arith))

pub key_name-IsLine : (k : BlKey) → IsLine (key_name k)
unfolding has_newline
key_name-IsLine boot_order = IsLine-decided (key_name boot_order) refl
key_name-IsLine boot_uart = IsLine-decided (key_name boot_uart) refl
key_name-IsLine power_off_on_halt = IsLine-decided (key_name power_off_on_halt) refl
key_name-IsLine wake_on_gpio = IsLine-decided (key_name wake_on_gpio) refl
key_name-IsLine psu_max_current = IsLine-decided (key_name psu_max_current) refl

pub key_name-length : (k : BlKey) → length (key_name k) ≤ 17
key_name-length boot_order = omega arith
key_name-length boot_uart = omega arith
key_name-length power_off_on_halt = omega arith
key_name-length wake_on_gpio = omega arith
key_name-length psu_max_current = omega arith

pub false-true : ¬ (false ≡ true)
false-true e = cc

module _ (lib : CompareLib) (v : Values) where
  -- A line of no key changes no value.
  pub add_line :
      (seen : Seen) (out l : List ℕ)
      → HasValues lib v seen out
      → IsLine l
      → ((k : BlKey) → is_line_of lib (key_name k) l ≡ false)
      → HasValues lib v seen (out ++ (l ++ (10 ∷ [])))
  add_line seen out l h line other = record {
    lines = h.lines ++ (l ∷ []);
    is_flat = ap (λ o. o ++ (l ++ (10 ∷ []))) h.is_flat ∙ sym (flat-append h.lines l);
    clean = All-append IsLine h.lines (l ∷ []) h.clean (line, tt);
    values = λ k. rw (find_last-append lib (key_name k) h.lines l none, other k) (h.values k);
  }

  -- The line of a key gives it its value.
  pub add_value :
      (seen seen' : Seen) (out value : List ℕ) (j : BlKey)
      → HasValues lib v seen out
      → key_value j v ≡ some value
      → IsLine value
      → ((k : BlKey) → (k ≡ j) ⊎ (seen_key seen' k ≡ seen_key seen k))
      → HasValues lib v seen' (out ++ (written_line j value ++ (10 ∷ [])))
  add_value seen seen' out value j h e line marks =
      let written : find_last lib (key_name j) (h.lines ++ (written_line j value ∷ [])) none
          ≡ stored v j =
        rw
          (
            find_last-append lib (key_name j) h.lines (written_line j value) none,
            is_line_of-written_line lib j value,
            drop-append (key_name j) value b'=',
            e,
          )
          refl in
      record {
        lines = h.lines ++ (written_line j value ∷ []);
        is_flat =
            ap (λ o. o ++ (written_line j value ++ (10 ∷ []))) h.is_flat
            ∙ sym (flat-append h.lines (written_line j value));
        clean = All-append IsLine h.lines (written_line j value ∷ []) h.clean (
          All-append (λ c. c ≢ 10) (key_name j) (b'=' ∷ value) (key_name-IsLine j)
              ((λ e. absurd (omega arith)), line),
          tt,
        );
        values = λ k. elim (key_cases lib k j value) [
          | inl same ↦ rw same (inl written)
          | inr other ↦
              rw (find_last-append lib (key_name k) h.lines (written_line j value) none, other)
                (elim (marks k) [
                  | inl same ↦
                      absurd
                        (false-true (sym other ∙ rw same (is_line_of-written_line lib j value)))
                  | inr kept ↦ rw kept (h.values k)
                ])
        ];
      }
