-- ===== src/Blcfg/Total.antt =====
-- `BlBuildNewConfigText` of BlcfgValues.c succeeds when the buffer has room.
use rpi5_uefi_build.Common.{
  ℕ, zero, suc, ◌+◌, ◌-◌, ◌*◌, ◌≤◌, ◌≡◌, refl, inl, inr, arith, Bool, true, false, not, ◌||◌,
  Option, none, some, List, [], ◌∷◌, ◌++◌, length, length-append, ltb, ◌==◌, Bool-cases,
  if◌then◌else◌,
}
use rpi5_uefi_build.Blcfg.{
  CompareLib, BlKey, boot_order, boot_uart, power_off_on_halt, wake_on_gpio, psu_max_current,
  all_keys, key_name, Values, line_of, after_line,
}
use rpi5_uefi_build.Blcfg.Build.{
  Seen, none_seen, Building, seen_key, mark, key_value, key_line, match_key, put_line, copy_loop,
  end_line, put_missing, append_loop, append_wanted, has_newline, is_unended, ended_then_append,
  build_new_config_text,
}
use rpi5_uefi_build.Blcfg.Canonical.{IsCanonical, key_value-IsLine}
use rpi5_uefi_build.Blcfg.Rebuild.{key_name-length}

abbrev one_if : Bool → ℕ
one_if b = if b then 1 else 0

line-length :
    (t : List ℕ) → length (line_of t) + length (after_line t) + one_if (has_newline t) ≡ length t
unfolding line_of after_line has_newline
line-length [] = refl
line-length (c ∷ t) = elim (Bool-cases (c == 10)) [
  | inl e ↦ rw e (omega arith)
  | inr e ↦ rw e (omega (arith, line-length t))
]

-- A line of a key has at most 29 characters; `room` is that much for each key not seen.
abbrev room : Seen → ℕ
room s =
    (if s.order then 0 else 29)
    + (if s.uart then 0 else 29)
    + (if s.halt then 0 else 29)
    + (if s.wake then 0 else 29)
    + (if s.psu then 0 else 29)

room-mark : (s : Seen) (j : BlKey) → seen_key s j ≡ false → room (mark s j) + 29 ≡ room s
room-mark s boot_order h = ground (arith, h)
room-mark s boot_uart h = ground (arith, h)
room-mark s power_off_on_halt h = ground (arith, h)
room-mark s wake_on_gpio h = ground (arith, h)
room-mark s psu_max_current h = ground (arith, h)

module _ (lib : CompareLib) (v : Values) (cap : ℕ) (c : IsCanonical v) where
  key_line-length :
      (j : BlKey) (o : Option (List ℕ)) (n : ℕ) → key_value j v ≡ o → length (key_line j o n) ≤ 29
  unfolding key_line
  key_line-length j none n e = omega arith
  key_line-length j (some value) n e =
      let (_, short) = key_value-IsLine v c j value e in
      let name = key_name-length j in
      elim (Bool-cases (ltb n (length (key_name j) + 1 + length value + 1))) [
        | inl full ↦ rw full (omega arith)
        | inr fits ↦ rw fits (
            omega (
              arith,
              length-append (key_name j) (b'=' ∷ (value ++ (10 ∷ []))),
              length-append value (10 ∷ []),
            ))
      ]

  -- A round has room, and leaves as much for the rest of the text.
  put_line-total :
      (line : List ℕ) (ended : Bool) (o : Option BlKey) (b : Building) (rest : ℕ)
      → length b.out + (length line + one_if ended + rest) + room b.seen + 210 ≤ cap
      → (b' : Building) × (put_line lib v cap line ended o b ≡ some b')
        × (length b'.out + rest + room b'.seen + 210 ≤ cap)
  unfolding put_line
  put_line-total line true none b rest h =
      let fits : ltb cap (length b.out + length line + 1) ≡ false = ground arith in
      (
        record b { out = b.out ++ line ++ (10 ∷ []) },
        rw fits refl,
        omega (arith, length-append (b.out ++ line) (10 ∷ []), length-append b.out line),
      )
  put_line-total line false none b rest h =
      let fits : ltb cap (length b.out + length line + 1) ≡ false = ground arith in
      (
        record b { out = b.out ++ line ++ [] },
        rw fits refl,
        omega (arith, length-append (b.out ++ line) [], length-append b.out line),
      )
  put_line-total line ended (some j) b rest h = elim (Bool-cases (seen_key b.seen j)) [
    | inl before ↦ (b, rw before refl, omega arith)
    | inr first ↦
        let fits : ltb cap (length b.out + 64) ≡ false = ground arith in
        let added = key_line j (key_value j v) (cap - length b.out) in
        (
          record { seen = mark b.seen j; out = b.out ++ added },
          rw (first, fits) refl,
          omega (
            arith,
            length-append b.out added,
            key_line-length j (key_value j v) (cap - length b.out) refl,
            room-mark b.seen j first,
          ),
        )
  ]

  copy_loop-total :
      (fuel : ℕ) (text : List ℕ) (b : Building)
      → length b.out + length text + room b.seen + 210 ≤ cap
      → (b' : Building) × (copy_loop lib v cap fuel text b ≡ some b') × (length b'.out + 210 ≤ cap)
  unfolding copy_loop
  copy_loop-total zero text b h = (b, refl, omega arith)
  copy_loop-total (suc fuel) [] b h = (b, refl, omega arith)
  copy_loop-total (suc fuel) (x ∷ text) b h =
      let line = line_of (x ∷ text) in
      let rest = after_line (x ∷ text) in
      let (b₁, e, h₁) =
        put_line-total line (has_newline (x ∷ text)) (match_key lib line all_keys) b (length rest)
          (omega (arith, line-length (x ∷ text))) in
      let (b', e', h') = copy_loop-total fuel rest b₁ h₁ in (b', rw (copy_loop, e) e', h')

  end_line-total :
      (b : Building)
      → length b.out + 210 ≤ cap
      → (b' : Building) × (end_line lib v cap b ≡ some b') × (length b'.out + 209 ≤ cap)
  unfolding end_line
  end_line-total b h = elim (Bool-cases (is_unended b.out)) [
    | inr ended ↦ (b, rw ended refl, omega arith)
    | inl unended ↦
        let fits : ltb cap (length b.out + 1) ≡ false = ground arith in
        (
          record b { out = b.out ++ (10 ∷ []) },
          rw (unended, fits) refl,
          omega (arith, length-append b.out (10 ∷ [])),
        )
  ]

  put_missing-total :
      (j : BlKey) (b : Building)
      → length b.out + 64 ≤ cap
      → (b' : Building) × (put_missing lib v cap j b ≡ some b')
        × (length b'.out ≤ length b.out + 29)
  unfolding put_missing
  put_missing-total j b h =
      elim (Bool-cases (seen_key b.seen j || not (append_wanted lib v cap j))) [
        | inl skip ↦ (b, rw skip refl, omega arith)
        | inr go ↦
            let fits : ltb cap (length b.out + 64) ≡ false = ground arith in
            let added = key_line j (key_value j v) (cap - length b.out) in
            (
              record b { out = b.out ++ added },
              rw (go, fits) refl,
              omega (
                arith,
                length-append b.out added,
                key_line-length j (key_value j v) (cap - length b.out) refl,
              ),
            )
      ]

  append_loop-total :
      (keys : List BlKey) (b : Building)
      → length b.out + 29 * length keys + 64 ≤ cap
      → (b' : Building) × (append_loop lib v cap keys b ≡ some b')
  unfolding append_loop
  append_loop-total [] b h = (b, refl)
  append_loop-total (j ∷ keys) b h =
      let (b₁, e, short) = put_missing-total j b (omega arith) in
      let (b', e') = append_loop-total keys b₁ (omega arith) in (b', rw (append_loop, e) e')

  -- For canonical values and a buffer 355 characters larger than the text, BlBuildNewConfigText
  -- builds a new text.
  pub build_new_config_text_total :
      (text : List ℕ)
      → length text + 355 ≤ cap
      → (out : List ℕ) × (build_new_config_text lib v cap text ≡ some out)
  unfolding build_new_config_text ended_then_append
  build_new_config_text_total text h =
      let first : Building = record { seen = none_seen; out = [] } in
      let (copied, e₁, h₁) = copy_loop-total (length text) text first (omega arith) in
      let (ended, e₂, h₂) = end_line-total copied h₁ in
      let (built, e₃) = append_loop-total all_keys ended (omega arith) in
      (built.out, rw (e₁, ended_then_append, e₂, e₃) refl)
