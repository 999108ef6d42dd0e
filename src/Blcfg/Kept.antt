-- ===== src/Blcfg/Kept.antt =====
-- The unmanaged lines of the text that `BlBuildNewConfigText` of BlcfgValues.c rebuilds.
use rpi5_uefi_build.Common.{
  some-eq, append_assoc, append-nil, ℕ, zero, suc, ◌+◌, ◌-◌, ◌≤◌, ◌≡◌, ◌≢◌, refl, sym, ◌∙◌, ap,
  subst, inl, inr, arith, true, false, not, ◌||◌, Option, none, some, List, [], ◌∷◌, ◌++◌, length,
  length-append, ltb, All, All-append, Bool-cases, Option-cases,
}
use rpi5_uefi_build.Blcfg.{CompareLib, BlKey, all_keys, key_name, Values, line_of, after_line}
use rpi5_uefi_build.Blcfg.Build.{
  none_seen, Building, seen_key, key_value, key_line, match_key, put_line, copy_loop, end_line,
  put_missing, append_loop, append_wanted, has_newline, is_unended, ended_then_append,
  build_new_config_text,
}
use rpi5_uefi_build.Blcfg.Canonical.{IsCanonical, key_value-IsLine}
use rpi5_uefi_build.Blcfg.Copy.{none-some}
use rpi5_uefi_build.Blcfg.Keys.{written_line, is_line_of-written_line, match_key-unmanaged}
use rpi5_uefi_build.Blcfg.Lines.{
  IsLine, flat, flat-append, line_of-append, after_line-append, is_unended-flat,
}
use rpi5_uefi_build.Blcfg.Rebuild.{false-true, key_name-IsLine}

has_newline-append : (l r : List ℕ) → has_newline (l ++ (10 ∷ r)) ≡ true
unfolding has_newline
has_newline-append [] r = refl
has_newline-append (c ∷ l) r = ground (arith, has_newline-append l r)

module _ (lib : CompareLib) where
  -- The lines that are of no managed key.
  unfoldable pub unmanaged : List (List ℕ) → List (List ℕ)
  unmanaged [] = []
  unmanaged (l ∷ ls) =
      let rest = unmanaged ls in elim (match_key lib l all_keys) [ none ↦ l ∷ rest | some k ↦ rest ]

  unmanaged-none : (l : List ℕ) → match_key lib l all_keys ≡ none → unmanaged (l ∷ []) ≡ l ∷ []
  unfolding unmanaged
  unmanaged-none l e = rw (unmanaged, e)

  unmanaged-some :
      (l : List ℕ) (k : BlKey) → match_key lib l all_keys ≡ some k → unmanaged (l ∷ []) ≡ []
  unfolding unmanaged
  unmanaged-some l k e = rw (unmanaged, e)

  unmanaged-append : (ls ms : List (List ℕ)) → unmanaged (ls ++ ms) ≡ unmanaged ls ++ unmanaged ms
  unfolding unmanaged
  unmanaged-append [] ms = refl
  unmanaged-append (l ∷ ls) ms = elim (Option-cases (match_key lib l all_keys)) [
    | inl e ↦ rw (unmanaged, e) (ap (λ r. l ∷ r) (unmanaged-append ls ms))
    | inr (k, e) ↦ rw (unmanaged, e) (unmanaged-append ls ms)
  ]

  unmanaged-written_line : (j : BlKey) (value : List ℕ) → unmanaged (written_line j value ∷ []) ≡ []
  unmanaged-written_line j value =
      elim (Option-cases (match_key lib (written_line j value) all_keys)) [
        | inl e ↦ absurd (
            false-true (
              sym (match_key-unmanaged lib (written_line j value) j e)
              ∙ is_line_of-written_line lib j value))
        | inr (k, e) ↦ unmanaged-some (written_line j value) k e
      ]

-- `out` is a text of lines, and the unmanaged ones are `kept`.
pub record Keeps (lib : CompareLib) (kept : List (List ℕ)) (out : List ℕ) : Type 0 where
  pub lines : List (List ℕ)
  pub is_flat : out ≡ flat lines
  pub clean : All IsLine lines
  pub same : unmanaged lib lines ≡ kept

module _ (lib : CompareLib) (v : Values) (cap : ℕ) (c : IsCanonical v) where
  keep_line :
      (kept : List (List ℕ)) (out l : List ℕ)
      → Keeps lib kept out
      → IsLine l
      → Keeps lib (kept ++ unmanaged lib (l ∷ [])) (out ++ (l ++ (10 ∷ [])))
  keep_line kept out l h line = record {
    lines = h.lines ++ (l ∷ []);
    is_flat = ap (λ o. o ++ (l ++ (10 ∷ []))) h.is_flat ∙ sym (flat-append h.lines l);
    clean = All-append IsLine h.lines (l ∷ []) h.clean (line, tt);
    same = unmanaged-append lib h.lines (l ∷ []) ∙ ap (λ r. r ++ unmanaged lib (l ∷ [])) h.same;
  }

  -- The line of a key adds no unmanaged one.
  keep_key :
      (kept : List (List ℕ)) (out : List ℕ) (j : BlKey) (o : Option (List ℕ)) (n : ℕ)
      → key_value j v ≡ o
      → Keeps lib kept out
      → Keeps lib kept (out ++ key_line j o n)
  unfolding key_line
  keep_key kept out j none n e h = subst (λ o. Keeps lib kept o) (sym (append-nil out)) h
  keep_key kept out j (some value) n e h =
      elim (Bool-cases (ltb n (length (key_name j) + 1 + length value + 1))) [
        | inl full ↦ rw full (subst (λ o. Keeps lib kept o) (sym (append-nil out)) h)
        | inr fits ↦
            let whole = sym (append_assoc (key_name j) (b'=' ∷ value) (10 ∷ [])) in
            let line =
              All-append (λ c. c ≢ 10) (key_name j) (b'=' ∷ value) (key_name-IsLine j)
                ((λ e. absurd (omega arith)), (key_value-IsLine v c j value e).0) in
            let longer = keep_line kept out (written_line j value) h line in
            rw (fits, whole)
              (subst (λ k. Keeps lib k (out ++ (written_line j value ++ (10 ∷ []))))
                (ap (λ r. kept ++ r) (unmanaged-written_line lib j value) ∙ append-nil kept) longer)
      ]

  put_line-Keeps :
      (kept : List (List ℕ)) (l : List ℕ) (o : Option BlKey) (b b' : Building)
      → match_key lib l all_keys ≡ o
      → IsLine l
      → Keeps lib kept b.out
      → put_line lib v cap l true o b ≡ some b'
      → Keeps lib (kept ++ unmanaged lib (l ∷ [])) b'.out
  unfolding put_line
  put_line-Keeps kept l none b b' m line h e =
      elim (Bool-cases (ltb cap (length b.out + length l + 1))) [
        | inl full ↦ absurd (none-some (rw full at e))
        | inr room ↦
            subst (λ (x : Building). Keeps lib (kept ++ unmanaged lib (l ∷ [])) x.out)
              (some-eq (rw room at e))
              (rw (append_assoc b.out l (10 ∷ [])) (keep_line kept b.out l h line))
      ]
  put_line-Keeps kept l (some j) b b' m line h e =
      rw (unmanaged-some lib l j m, append-nil kept)
        (elim (Bool-cases (seen_key b.seen j)) [
          | inl before ↦ subst (λ (x : Building). Keeps lib kept x.out) (some-eq (rw before at e)) h
          | inr first ↦ elim (Bool-cases (ltb cap (length b.out + 64))) [
            | inl full ↦ absurd (none-some (rw (first, full) at e))
            | inr room ↦
                subst (λ (x : Building). Keeps lib kept x.out) (some-eq (rw (first, room) at e))
                  (keep_key kept b.out j (key_value j v) (cap - length b.out) refl h)
          ]
        ])

  -- One round of the loop.
  copy_step :
      (fuel y : ℕ) (t : List ℕ) (b b' : Building)
      → copy_loop lib v cap (suc fuel) (y ∷ t) b ≡ some b'
      → let line = line_of (y ∷ t) in
        (b₁ : Building) × (put_line lib v cap line
            (has_newline (y ∷ t))
            (match_key lib line all_keys)
            b
          ≡ some b₁)
        × (copy_loop lib v cap fuel (after_line (y ∷ t)) b₁ ≡ some b')
  unfolding copy_loop
  copy_step fuel y t b b' e =
      let line = line_of (y ∷ t) in
      elim (Option-cases
        (put_line lib v cap line (has_newline (y ∷ t)) (match_key lib line all_keys) b)) [
          | inl full ↦ absurd (none-some (rw (copy_loop, full) at e))
          | inr (b₁, done) ↦ (b₁, done, rw (copy_loop, done) at e)
        ]

  -- At a line with its newline.
  round :
      (fuel : ℕ) (l r : List ℕ) (b b' : Building)
      → IsLine l
      → copy_loop lib v cap (suc fuel) (l ++ (10 ∷ r)) b ≡ some b'
      → (b₁ : Building) × (put_line lib v cap l true (match_key lib l all_keys) b ≡ some b₁)
        × (copy_loop lib v cap fuel r b₁ ≡ some b')
  round fuel [] r b b' line e =
      let (b₁, done, more) = copy_step fuel 10 r b b' e in
      (
        b₁,
        rw (line_of-append [] r line, has_newline-append [] r) at done,
        rw (after_line-append [] r line) at more,
      )
  round fuel (x ∷ l) r b b' line e =
      let (b₁, done, more) = copy_step fuel x (l ++ (10 ∷ r)) b b' e in
      (
        b₁,
        rw (line_of-append (x ∷ l) r line, has_newline-append (x ∷ l) r) at done,
        rw (after_line-append (x ∷ l) r line) at more,
      )

  copy_loop-Keeps :
      (fuel : ℕ) (kept ls : List (List ℕ)) (b b' : Building)
      → All IsLine ls
      → length (flat ls) ≤ fuel
      → Keeps lib kept b.out
      → copy_loop lib v cap fuel (flat ls) b ≡ some b'
      → Keeps lib (kept ++ unmanaged lib ls) b'.out
  unfolding unmanaged copy_loop
  copy_loop-Keeps zero kept [] b b' lines le h e =
      rw (append-nil kept) (subst (λ (x : Building). Keeps lib kept x.out) (some-eq e) h)
  copy_loop-Keeps (suc fuel) kept [] b b' lines le h e =
      rw (append-nil kept) (subst (λ (x : Building). Keeps lib kept x.out) (some-eq e) h)
  copy_loop-Keeps zero kept (l ∷ ls) b b' lines le h e =
      absurd (omega (arith, length-append l (10 ∷ flat ls)))
  copy_loop-Keeps (suc fuel) kept (l ∷ ls) b b' lines le h e =
      let (b₁, done, more) = round fuel l (flat ls) b b' lines.0 e in
      let h₁ = put_line-Keeps kept l (match_key lib l all_keys) b b₁ refl lines.0 h done in
      let h' =
        copy_loop-Keeps fuel (kept ++ unmanaged lib (l ∷ [])) ls b₁ b' lines.1
          (omega (arith, length-append l (10 ∷ flat ls))) h₁ more in
      subst (λ k. Keeps lib k b'.out)
        (append_assoc kept (unmanaged lib (l ∷ [])) (unmanaged lib ls)
          ∙ ap (λ r. kept ++ r) (sym (unmanaged-append lib (l ∷ []) ls)))
        h'

  put_missing-Keeps :
      (kept : List (List ℕ)) (j : BlKey) (b b' : Building)
      → Keeps lib kept b.out
      → put_missing lib v cap j b ≡ some b'
      → Keeps lib kept b'.out
  unfolding put_missing
  put_missing-Keeps kept j b b' h e =
      elim (Bool-cases (seen_key b.seen j || not (append_wanted lib v cap j))) [
        | inl skip ↦ subst (λ (x : Building). Keeps lib kept x.out) (some-eq (rw skip at e)) h
        | inr go ↦ elim (Bool-cases (ltb cap (length b.out + 64))) [
          | inl full ↦ absurd (none-some (rw (go, full) at e))
          | inr room ↦
              subst (λ (x : Building). Keeps lib kept x.out) (some-eq (rw (go, room) at e))
                (keep_key kept b.out j (key_value j v) (cap - length b.out) refl h)
        ]
      ]

  append_loop-Keeps :
      (kept : List (List ℕ)) (keys : List BlKey) (b b' : Building)
      → Keeps lib kept b.out
      → append_loop lib v cap keys b ≡ some b'
      → Keeps lib kept b'.out
  unfolding append_loop
  append_loop-Keeps kept [] b b' h e = subst (λ (x : Building). Keeps lib kept x.out) (some-eq e) h
  append_loop-Keeps kept (j ∷ keys) b b' h e = elim (Option-cases (put_missing lib v cap j b)) [
    | inl full ↦ absurd (none-some (rw (append_loop, full) at e))
    | inr (b₁, done) ↦
        append_loop-Keeps kept keys b₁ b' (put_missing-Keeps kept j b b₁ h done)
          (rw (append_loop, done) at e)
  ]

  end_line-Keeps :
      (kept : List (List ℕ)) (b b' : Building)
      → Keeps lib kept b.out
      → end_line lib v cap b ≡ some b'
      → Keeps lib kept b'.out
  unfolding end_line
  end_line-Keeps kept b b' h e =
      let ended : is_unended b.out ≡ false = rw h.is_flat (is_unended-flat h.lines) in
      subst (λ (x : Building). Keeps lib kept x.out) (some-eq (rw ended at e)) h

  nothing : Keeps lib [] []
  unfolding unmanaged
  nothing = record { lines = []; is_flat = refl; clean = tt; same = refl }

  -- For canonical values and a text of lines that each end in a newline: what
  -- BlBuildNewConfigText builds is again a text of such lines, whose lines that are of no
  -- managed key are those of the old text, in their order.
  pub build_new_config_text-Keeps :
      (ls : List (List ℕ)) (out : List ℕ)
      → All IsLine ls
      → build_new_config_text lib v cap (flat ls) ≡ some out
      → Keeps lib (unmanaged lib ls) out
  unfolding build_new_config_text ended_then_append
  build_new_config_text-Keeps ls out lines e =
      let first : Building = record { seen = none_seen; out = [] } in
      let kept = unmanaged lib ls in
      elim (Option-cases (copy_loop lib v cap (length (flat ls)) (flat ls) first)) [
        | inl full ↦ absurd (none-some (rw full at e))
        | inr (copied, e₁) ↦ elim (Option-cases (end_line lib v cap copied)) [
          | inl full ↦ absurd (none-some (rw (e₁, ended_then_append, full) at e))
          | inr (ended, e₂) ↦ elim (Option-cases (append_loop lib v cap all_keys ended)) [
            | inl full ↦ absurd (none-some (rw (e₁, ended_then_append, e₂, full) at e))
            | inr (built, e₃) ↦
                let h₁ =
                  copy_loop-Keeps (length (flat ls)) [] ls first copied lines (omega arith) nothing
                    e₁ in
                let h₂ = end_line-Keeps kept copied ended h₁ e₂ in
                subst (λ o. Keeps lib kept o) (some-eq (rw (e₁, ended_then_append, e₂, e₃) at e))
                  (append_loop-Keeps kept all_keys ended built h₂ e₃)
          ]
        ]
      ]
