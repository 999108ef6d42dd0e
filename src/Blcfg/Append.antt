-- ===== src/Blcfg/Append.antt =====
-- The end of `BlBuildNewConfigText` of BlcfgValues.c: the last newline and the keys that are missing.
use rpi5_uefi_build.Common.{
  some-eq, ℕ, ◌+◌, ◌≡◌, refl, sym, ◌∙◌, ap, subst, ◌⊎◌, inl, inr, true, false, some, List, [], ◌∷◌,
  length, ltb, All, Bool-cases, Option-cases, ltb-false,
}
use rpi5_uefi_build.Blcfg.{
  CompareLib, BlKey, boot_order, boot_uart, power_off_on_halt, wake_on_gpio, psu_max_current,
  Values,
}
use rpi5_uefi_build.Blcfg.Build.{
  Seen, Building, seen_key, mark, key_value, end_line, put_missing, append_loop, append_wanted,
}
use rpi5_uefi_build.Blcfg.Canonical.{IsCanonical}
use rpi5_uefi_build.Blcfg.Copy.{Rests, add_key, none-some}
use rpi5_uefi_build.Blcfg.Rebuild.{HasValues, mark_cases}

mark_self : (s : Seen) (j : BlKey) → seen_key (mark s j) j ≡ true
mark_self s boot_order = refl
mark_self s boot_uart = refl
mark_self s power_off_on_halt = refl
mark_self s wake_on_gpio = refl
mark_self s psu_max_current = refl

-- All that is seen in `s` is seen in `t`.
abbrev pub Grows : Seen → Seen → Type 0
Grows s t = (k : BlKey) → seen_key s k ≡ true → seen_key t k ≡ true

mark-Grows : (s : Seen) (j : BlKey) → Grows s (mark s j)
mark-Grows s j k h = elim (mark_cases s j k) [
  | inl same ↦ rw same (mark_self s j)
  | inr kept ↦ kept ∙ h
]

module _ (lib : CompareLib) (v : Values) (cap : ℕ) (c : IsCanonical v) where
  pub end_line-HasValues :
      (b b' : Building)
      → Rests lib v cap c b
      → end_line lib v cap b ≡ some b'
      → HasValues lib v b'.seen b'.out × (b'.seen ≡ b.seen)
  unfolding end_line
  end_line-HasValues b b' (inl (ended, h)) e =
      let same = some-eq (rw ended at e) in
      (
        subst (λ (x : Building). HasValues lib v x.seen x.out) same h,
        ap (λ (x : Building). x.seen) (sym same),
      )
  end_line-HasValues b b' (inr (unended, h)) e = elim (Bool-cases (ltb cap (length b.out + 1))) [
    | inl full ↦ absurd (none-some (rw (unended, full) at e))
    | inr room ↦
        let same = some-eq (rw (unended, room) at e) in
        (
          subst (λ (x : Building). HasValues lib v x.seen x.out) same h,
          ap (λ (x : Building). x.seen) (sym same),
        )
  ]

  -- A key has its value, or needs none.
  abbrev pub Covers : Seen → BlKey → Type 0
  Covers s k = (seen_key s k ≡ true) ⊎ (append_wanted lib v cap k ≡ false)

  -- What a round leaves behind `b` for the keys marked in `s`.
  pub record Missing (b b' : Building) (s : Seen) (keys : List BlKey) : Type 0 where
    pub after : Seen
    pub grows : Grows s after
    pub values : HasValues lib v after b'.out
    pub same_seen : b'.seen ≡ b.seen
    pub covered : All (Covers after) keys

  -- A round that adds nothing.
  kept :
      (j : BlKey) (b b' : Building) (s : Seen)
      → HasValues lib v s b.out
      → b ≡ b'
      → Covers s j
      → Missing b b' s (j ∷ [])
  kept j b b' s h same covered = record {
    after = s;
    grows = λ k e. e;
    values = subst (λ (x : Building). HasValues lib v s x.out) same h;
    same_seen = ap (λ (x : Building). x.seen) (sym same);
    covered = (covered, tt);
  }

  put_missing-Missing :
      (j : BlKey) (b b' : Building) (s : Seen)
      → Grows b.seen s
      → HasValues lib v s b.out
      → put_missing lib v cap j b ≡ some b'
      → Missing b b' s (j ∷ [])
  unfolding put_missing
  put_missing-Missing j b b' s grows h e = elim (Bool-cases (seen_key b.seen j)) [
    | inl before ↦ kept j b b' s h (some-eq (rw before at e)) (inl (grows j before))
    | inr first ↦ elim (Bool-cases (append_wanted lib v cap j)) [
      | inr plain ↦ kept j b b' s h (some-eq (rw (first, plain) at e)) (inr plain)
      | inl wanted ↦ elim (Bool-cases (ltb cap (length b.out + 64))) [
        | inl full ↦ absurd (none-some (rw (first, wanted, full) at e))
        | inr room ↦
            let same = some-eq (rw (first, wanted, room) at e) in
            record {
              after = mark s j;
              grows = mark-Grows s j;
              values =
                  subst (λ (x : Building). HasValues lib v (mark s j) x.out) same
                    (add_key lib v cap c s (mark s j) b.out j (key_value j v) refl h
                      (ltb-false cap (length b.out + 64) room) (mark_cases s j));
              same_seen = ap (λ (x : Building). x.seen) (sym same);
              covered = (inl (mark_self s j), tt);
            }
      ]
    ]
  ]

  pub append_loop-Missing :
      (keys : List BlKey) (b b' : Building) (s : Seen)
      → Grows b.seen s
      → HasValues lib v s b.out
      → append_loop lib v cap keys b ≡ some b'
      → Missing b b' s keys
  unfolding append_loop
  append_loop-Missing [] b b' s grows h e =
      let same = some-eq e in
      record {
        after = s;
        grows = λ k e. e;
        values = subst (λ (x : Building). HasValues lib v s x.out) same h;
        same_seen = ap (λ (x : Building). x.seen) (sym same);
        covered = tt;
      }
  append_loop-Missing (j ∷ keys) b b' s grows h e =
      elim (Option-cases (put_missing lib v cap j b)) [
        | inl full ↦ absurd (none-some (rw (append_loop, full) at e))
        | inr (b₁, done) ↦
            let first = put_missing-Missing j b b₁ s grows h done in
            let rest =
              append_loop-Missing keys b₁ b' first.after
                (λ k seen. first.grows k (grows k (rw first.same_seen at seen))) first.values
                (rw (append_loop, done) at e) in
            record {
              after = rest.after;
              grows = λ k seen. rest.grows k (first.grows k seen);
              values = rest.values;
              same_seen = rest.same_seen ∙ first.same_seen;
              covered = (
                elim first.covered.0 [ inl seen ↦ inl (rest.grows j seen) | inr plain ↦ inr plain ],
                rest.covered,
              );
            }
      ]
