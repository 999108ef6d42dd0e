-- ===== src/Blcfg/Copy.antt =====
-- The loops of `BlBuildNewConfigText` of BlcfgValues.c keep the values of the text that they build.
use rpi5_uefi_build.Common.{
  some-eq, append_assoc, append-nil, ℕ, zero, suc, ◌+◌, ◌-◌, ◌≤◌, ◌≡◌, refl, sym, ◌∙◌, subst, ◌⊎◌,
  inl, inr, arith, Bool, true, false, Option, none, some, List, [], ◌∷◌, ◌++◌, length, ltb,
  Bool-cases, Option-cases, if◌then◌else◌, ltb-false,
}
use rpi5_uefi_build.Blcfg.{CompareLib, BlKey, all_keys, key_name, Values, line_of, after_line}
use rpi5_uefi_build.Blcfg.Build.{
  Seen, Building, seen_key, mark, key_value, key_line, match_key, put_line, copy_loop, is_unended,
  has_newline,
}
use rpi5_uefi_build.Blcfg.Canonical.{IsCanonical, key_value-IsLine}
use rpi5_uefi_build.Blcfg.Keys.{written_line, match_key-unmanaged}
use rpi5_uefi_build.Blcfg.Lines.{
  IsLine, line_of-IsLine, after_line-length, no_newline, is_unended-line, is_unended-flat,
}
use rpi5_uefi_build.Blcfg.Rebuild.{HasValues, add_line, add_value, mark_cases, key_name-length}

-- A line that fits is the written one with its newline.
key_line-fits :
    (k : BlKey) (value : List ℕ) (cap : ℕ)
    → length value ≤ 10
    → 64 ≤ cap
    → key_line k (some value) cap ≡ written_line k value ++ (10 ∷ [])
unfolding key_line
key_line-fits k value cap short room =
    let fits : ltb cap (length (key_name k) + 1 + length value + 1) ≡ false =
      ground (arith, key_name-length k) in
    rw fits (sym (append_assoc (key_name k) (b'=' ∷ value) (10 ∷ [])))

pub none-some : {A : Type 0} {a : A} → ¬ (none ≡ some a)
none-some h = cc

module _ (lib : CompareLib) (v : Values) (cap : ℕ) (c : IsCanonical v) where
  -- What `FormatKeyLine` writes gives the key its value, or leaves it without one.
  pub add_key :
      (seen seen' : Seen) (out : List ℕ) (j : BlKey) (o : Option (List ℕ))
      → key_value j v ≡ o
      → HasValues lib v seen out
      → length out + 64 ≤ cap
      → ((k : BlKey) → (k ≡ j) ⊎ (seen_key seen' k ≡ seen_key seen k))
      → HasValues lib v seen' (out ++ key_line j o (cap - length out))
  unfolding key_line
  add_key seen seen' out j none e h room marks = rw (append-nil out) (record {
    lines = h.lines;
    is_flat = h.is_flat;
    clean = h.clean;
    values = λ k. elim (marks k) [
      | inr kept ↦ rw kept (h.values k)
      | inl same ↦ inl (
          rw same (elim (h.values j) [ inl value ↦ value | inr (absent, _) ↦ rw (absent, e) refl ]))
    ];
  })
  add_key seen seen' out j (some value) e h room marks =
      let (line, short) = key_value-IsLine v c j value e in
      rw (key_line-fits j value (cap - length out) short (omega arith))
        (add_value lib v seen seen' out value j h e line marks)

  -- A managed line, whether it has a newline or not.
  put_managed :
      (line : List ℕ) (ended : Bool) (j : BlKey) (b b' : Building)
      → HasValues lib v b.seen b.out
      → put_line lib v cap line ended (some j) b ≡ some b'
      → HasValues lib v b'.seen b'.out
  unfolding put_line
  put_managed line ended j b b' h e = elim (Bool-cases (seen_key b.seen j)) [
    | inl before ↦
        subst (λ (x : Building). HasValues lib v x.seen x.out) (some-eq (rw before at e)) h
    | inr first ↦ elim (Bool-cases (ltb cap (length b.out + 64))) [
      | inl full ↦ absurd (none-some (rw (first, full) at e))
      | inr room ↦
          subst (λ (x : Building). HasValues lib v x.seen x.out) (some-eq (rw (first, room) at e))
            (add_key b.seen (mark b.seen j) b.out j (key_value j v) refl h
              (ltb-false cap (length b.out + 64) room) (mark_cases b.seen j))
    ]
  ]

  put_unmanaged :
      (line : List ℕ) (ended : Bool) (b b' : Building)
      → put_line lib v cap line ended none b ≡ some b'
      → b' ≡ record b { out = b.out ++ line ++ (if ended then 10 ∷ [] else []) }
  unfolding put_line
  put_unmanaged line ended b b' e = elim (Bool-cases (ltb cap (length b.out + length line + 1))) [
    | inl full ↦ absurd (none-some (rw full at e))
    | inr room ↦ sym (some-eq (rw room at e))
  ]

  -- What the loop over the lines leaves: the values, once a last line without a newline has got one.
  abbrev pub Rests : Building → Type 0
  Rests b =
      ((is_unended b.out ≡ false) × HasValues lib v b.seen b.out)
      ⊎ ((is_unended b.out ≡ true) × HasValues lib v b.seen (b.out ++ (10 ∷ [])))

  copy_loop-nil : (fuel : ℕ) (b : Building) → copy_loop lib v cap fuel [] b ≡ some b
  unfolding copy_loop
  copy_loop-nil zero b = refl
  copy_loop-nil (suc fuel) b = refl

  rests : (b : Building) → HasValues lib v b.seen b.out → Rests b
  rests b h = inl (rw h.is_flat (is_unended-flat h.lines), h)

  -- One line with its newline.
  put_ended :
      (line : List ℕ) (b b' : Building)
      → IsLine line
      → HasValues lib v b.seen b.out
      → put_line lib v cap line true (match_key lib line all_keys) b ≡ some b'
      → HasValues lib v b'.seen b'.out
  put_ended line b b' is_line h e = elim (Option-cases (match_key lib line all_keys)) [
    | inl other ↦
        subst (λ (x : Building). HasValues lib v x.seen x.out)
          (sym (put_unmanaged line true b b' (rw other at e)))
          (rw (append_assoc b.out line (10 ∷ [])) (
            add_line lib v b.seen b.out line h is_line (λ k. match_key-unmanaged lib line k other)))
    | inr (j, managed) ↦ put_managed line true j b b' h (rw managed at e)
  ]

  -- A last line without one.
  put_last :
      (x : ℕ) (line : List ℕ) (b b' : Building)
      → IsLine (x ∷ line)
      → HasValues lib v b.seen b.out
      → put_line lib v cap (x ∷ line) false (match_key lib (x ∷ line) all_keys) b ≡ some b'
      → Rests b'
  put_last x line b b' is_line h e = elim (Option-cases (match_key lib (x ∷ line) all_keys)) [
    | inl other ↦ subst Rests (sym (put_unmanaged (x ∷ line) false b b' (rw other at e))) (
        rw (append-nil (b.out ++ (x ∷ line)), append_assoc b.out (x ∷ line) (10 ∷ []))
          (inr (
            is_unended-line b.out line x is_line,
            add_line lib v b.seen b.out (x ∷ line) h is_line
                (λ k. match_key-unmanaged lib (x ∷ line) k other),
          )))
    | inr (j, managed) ↦ rests b' (put_managed (x ∷ line) false j b b' h (rw managed at e))
  ]

  -- The loop over the lines.
  pub copy_loop-Rests :
      (fuel : ℕ) (text : List ℕ) (b b' : Building)
      → length text ≤ fuel
      → HasValues lib v b.seen b.out
      → copy_loop lib v cap fuel text b ≡ some b'
      → Rests b'
  unfolding copy_loop
  copy_loop-Rests zero [] b b' le h e = subst Rests (some-eq e) (rests b h)
  copy_loop-Rests zero (x ∷ text) b b' le h e = absurd (omega arith)
  copy_loop-Rests (suc fuel) [] b b' le h e = subst Rests (some-eq e) (rests b h)
  copy_loop-Rests (suc fuel) (x ∷ text) b b' le h e =
      let line = line_of (x ∷ text) in
      let put = put_line lib v cap line (has_newline (x ∷ text)) (match_key lib line all_keys) b in
      elim (Option-cases put) [
        | inl full ↦ absurd (none-some (rw (copy_loop, full) at e))
        | inr (b₁, done) ↦ elim (Bool-cases (has_newline (x ∷ text))) [
          | inl ended ↦
              copy_loop-Rests fuel (after_line (x ∷ text)) b₁ b'
                (omega (arith, after_line-length x text))
                (put_ended line b b₁ (line_of-IsLine (x ∷ text)) h (rw ended at done))
                (rw (copy_loop, done) at e)
          | inr last ↦
              let (whole, nothing) = no_newline (x ∷ text) last in
              let more : copy_loop lib v cap fuel (after_line (x ∷ text)) b₁ ≡ some b' =
                rw (copy_loop, done) at e in
              subst Rests (some-eq (sym (copy_loop-nil fuel b₁) ∙ rw nothing at more)) (
                put_last x text b b₁ (subst IsLine whole (line_of-IsLine (x ∷ text))) h
                  (rw (last, whole) at done))
        ]
      ]
