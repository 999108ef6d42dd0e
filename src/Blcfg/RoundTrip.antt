-- ===== src/Blcfg/RoundTrip.antt =====
-- `BlValuesFromText` of what `BlBuildNewConfigText` builds, of BlcfgValues.c.
use rpi5_uefi_build.Common.{
  some-eq, ℕ, ◌≡◌, refl, sym, ◌∙◌, subst, ◌⊎◌, inl, inr, arith, false, none, some, List, [], length,
  ◌==◌, All, Option-cases,
}
use rpi5_uefi_build.Blcfg.{
  CompareLib, BlKey, boot_order, boot_uart, power_off_on_halt, wake_on_gpio, psu_max_current,
  all_keys, key_name, Values, text_get_value, values_from_text, order_or, flag_or, psu_or,
  default_order,
}
use rpi5_uefi_build.Blcfg.Append.{Covers, end_line-HasValues, append_loop-Missing}
use rpi5_uefi_build.Blcfg.Build.{
  Seen, none_seen, Building, seen_key, key_value, copy_loop, end_line, append_loop, append_wanted,
  ended_then_append, build_new_config_text,
}
use rpi5_uefi_build.Blcfg.Canonical.{IsCanonical, parse-order, flag-written, psu-written}
use rpi5_uefi_build.Blcfg.Copy.{copy_loop-Rests, none-some}
use rpi5_uefi_build.Blcfg.Lines.{flat, find_last, get_value_loop-flat}
use rpi5_uefi_build.Blcfg.Rebuild.{false-true, HasValues, stored}

nothing_seen : (k : BlKey) → seen_key none_seen k ≡ false
nothing_seen boot_order = refl
nothing_seen boot_uart = refl
nothing_seen power_off_on_halt = refl
nothing_seen wake_on_gpio = refl
nothing_seen psu_max_current = refl

module _ (lib : CompareLib) (v : Values) (cap : ℕ) (c : IsCanonical v) where
  start : HasValues lib v none_seen []
  unfolding find_last
  start = record {
    lines = [];
    is_flat = refl;
    clean = tt;
    values = λ k. inr (refl, nothing_seen k);
  }

  -- Every key has its value in the text, or needs none.
  record IsRebuilt (out : List ℕ) : Type 0 where
    pub seen : Seen
    pub values : HasValues lib v seen out
    pub covered : All (Covers lib v cap c seen) all_keys

  build-IsRebuilt :
      (text out : List ℕ) → build_new_config_text lib v cap text ≡ some out → IsRebuilt out
  unfolding build_new_config_text ended_then_append
  build-IsRebuilt text out e =
      let first : Building = record { seen = none_seen; out = [] } in
      elim (Option-cases (copy_loop lib v cap (length text) text first)) [
        | inl full ↦ absurd (none-some (rw full at e))
        | inr (copied, e₁) ↦ elim (Option-cases (end_line lib v cap copied)) [
          | inl full ↦ absurd (none-some (rw (e₁, ended_then_append, full) at e))
          | inr (ended, e₂) ↦ elim (Option-cases (append_loop lib v cap all_keys ended)) [
            | inl full ↦ absurd (none-some (rw (e₁, ended_then_append, e₂, full) at e))
            | inr (built, e₃) ↦
                let rests =
                  copy_loop-Rests lib v cap c (length text) text first copied (omega arith) start
                    e₁ in
                let (values, _) = end_line-HasValues lib v cap c copied ended rests e₂ in
                let missing =
                  append_loop-Missing lib v cap c all_keys ended built ended.seen (λ k h. h) values
                    e₃ in
                record {
                  seen = missing.after;
                  values =
                      subst (λ o. HasValues lib v missing.after o)
                        (some-eq (rw (e₁, ended_then_append, e₂, e₃) at e)) missing.values;
                  covered = missing.covered;
                }
          ]
        ]
      ]

  covered-All :
      (seen : Seen)
      → All (Covers lib v cap c seen) all_keys
      → (k : BlKey) → Covers lib v cap c seen k
  covered-All seen h boot_order = h.0
  covered-All seen h boot_uart = h.1.0
  covered-All seen h power_off_on_halt = h.1.1.0
  covered-All seen h wake_on_gpio = h.1.1.1.0
  covered-All seen h psu_max_current = h.1.1.1.1.0

  -- What `BlTextGetValue` finds for a key.
  abbrev Found : List ℕ → BlKey → Type 0
  Found out k =
      (text_get_value lib out (key_name k) ≡ stored v k)
      ⊎ ((text_get_value lib out (key_name k) ≡ none) × (append_wanted lib v cap k ≡ false))

  found : (out : List ℕ) → IsRebuilt out → (k : BlKey) → Found out k
  unfolding text_get_value
  found out r k =
      let lines = r.values.lines in
      let read : text_get_value lib out (key_name k) ≡ find_last lib (key_name k) lines none =
        rw r.values.is_flat (
          get_value_loop-flat lib (key_name k) (length (flat lines)) lines none r.values.clean
            (omega arith)) in
      elim (r.values.values k) [
        | inl value ↦ inl (read ∙ value)
        | inr (absent, unseen) ↦ elim (covered-All r.seen r.covered k) [
          | inl seen ↦ absurd (false-true (sym unseen ∙ seen))
          | inr plain ↦ inr (read ∙ absent, plain)
        ]
      ]

  read_order :
      (out : List ℕ)
      → Found out boot_order
      → order_or (text_get_value lib out (key_name boot_order)) ≡ v.order
  unfolding key_value append_wanted order_or
  read_order out (inl e) = rw e (parse-order v c)
  read_order out (inr (e, plain)) =
      rw e (sym ((lib.ascii_str_cmp_iff v.order default_order).0 (ground arith)))

  read_uart :
      (out : List ℕ)
      → Found out boot_uart
      → flag_or (text_get_value lib out (key_name boot_uart)) 0 ≡ v.uart
  unfolding key_value append_wanted flag_or
  read_uart out (inl e) = rw e (flag-written v.uart 0 c.uart_flag)
  read_uart out (inr (e, plain)) = rw e (ground arith)

  read_halt :
      (out : List ℕ)
      → Found out power_off_on_halt
      → flag_or (text_get_value lib out (key_name power_off_on_halt)) 0 ≡ v.halt
  unfolding key_value append_wanted flag_or
  read_halt out (inl e) = rw e (flag-written v.halt 0 c.halt_flag)
  read_halt out (inr (e, plain)) = rw e (ground arith)

  read_wake :
      (out : List ℕ)
      → Found out wake_on_gpio
      → flag_or (text_get_value lib out (key_name wake_on_gpio)) 1 ≡ v.wake
  unfolding key_value append_wanted flag_or
  read_wake out (inl e) = rw e (flag-written v.wake 1 c.wake_flag)
  read_wake out (inr (e, plain)) = rw e (ground arith)

  stored_psu : psu_or (stored v psu_max_current) 0 ≡ v.psu
  unfolding key_value psu_or
  stored_psu = elim c.psu_known [
    | inl e ↦ rw e refl
    | inr e ↦
        let set : (v.psu == 0) ≡ false = ground (arith, e) in
        rw (key_value, set) (psu-written v.psu 0 e)
  ]

  read_psu :
      (out : List ℕ)
      → Found out psu_max_current
      → psu_or (text_get_value lib out (key_name psu_max_current)) 0 ≡ v.psu
  unfolding append_wanted psu_or
  read_psu out (inl e) = rw e stored_psu
  read_psu out (inr (e, plain)) = rw e (ground arith)

  -- For canonical values, and whatever the text was: when BlBuildNewConfigText has built the
  -- new text, BlValuesFromText of it gives exactly these values.
  pub values_from_text-build_new_config_text :
      (text out : List ℕ)
      → build_new_config_text lib v cap text ≡ some out
      → values_from_text lib out ≡ v
  unfolding values_from_text
  values_from_text-build_new_config_text text out e =
      let f = found out (build-IsRebuilt text out e) in
      λ i. record {
        order = read_order out (f boot_order) i;
        uart = read_uart out (f boot_uart) i;
        halt = read_halt out (f power_off_on_halt) i;
        wake = read_wake out (f wake_on_gpio) i;
        psu = read_psu out (f psu_max_current) i;
      }
