-- ===== src/PowerButton/Flag.antt =====
-- What ReadPowerOffOnHalt (PowerButtonDxe.c) says of a text, by its lines.
use rpi5_uefi_build.Common.{
  ℕ, zero, suc, ◌<◌, ◌≤◌, ◌≡◌, ◌≢◌, refl, sym, ap, ap₂, ◌∙◌, inl, inr, Bool, true, false, ◌&&◌,
  List, [], ◌∷◌, ◌++◌, length, length-take, take, get_or, ltb, ◌==◌, if◌then◌else◌, Bool-cases,
  arith, All,
}
use rpi5_uefi_build.Blcfg.{CompareLib}
use rpi5_uefi_build.PowerButton.Halt.{halt_key, skip_line, has_key, scan}

abbrev pub push : ℕ → List (List ℕ) → List (List ℕ)
push c [] = (c ∷ []) ∷ []
push c (l ∷ ls) = (c ∷ l) ∷ ls

-- The lines of a text, which ends at its first NUL.
abbrev pub lines : List ℕ → List (List ℕ)
lines [] = []
lines (c ∷ text) =
    let rest = lines text in if c == 0 then [] else if c == 10 then [] ∷ rest else push c rest

abbrev pub starts_with : List ℕ → List ℕ → Bool
starts_with [] l = true
starts_with (k ∷ key) [] = false
starts_with (k ∷ key) (c ∷ l) = k == c && starts_with key l

-- The first line that starts with the key has a `1` behind it.
abbrev pub first_is_set : List (List ℕ) → Bool
first_is_set [] = false
first_is_set (l ∷ ls) =
    let rest = first_is_set ls in
    if starts_with halt_key l then starts_with (halt_key ++ b'1' ∷ []) l else rest

-- The line at the start of a text.
abbrev line : List ℕ → List ℕ
line [] = []
line (c ∷ text) = let rest = line text in if c == 0 then [] else if c == 10 then [] else c ∷ rest

lines-line :
    (c : ℕ) (text : List ℕ)
    → (c == 0) ≡ false
    → lines (c ∷ text) ≡ line (c ∷ text) ∷ lines (skip_line (c ∷ text))
unfolding skip_line
lines-line c [] some_text = elim (Bool-cases (c == 10)) [
  | inl ended ↦ rw (some_text, ended) refl
  | inr more ↦ rw (some_text, more) refl
]
lines-line c (d ∷ text) some_text = elim (Bool-cases (c == 10)) [
  | inl ended ↦ rw (some_text, ended) refl
  | inr more ↦ elim (Bool-cases (d == 0)) [
    | inl nul ↦ rw (some_text, more, nul, nul) refl
    | inr go ↦ let later = lines-line d text go in rw (some_text, more) (ap (push c) later)
  ]
]

-- A key without a NUL or a newline is matched within the line.
starts_with-line :
    (key text : List ℕ)
    → All (λ k. (k ≢ 0) × (k ≢ 10)) key
    → starts_with key (line text) ≡ starts_with key text
starts_with-line [] text plain = refl
starts_with-line (k ∷ key) [] plain = refl
starts_with-line (k ∷ key) (c ∷ text) ((no_nul, no_newline), plain) = elim (Bool-cases (c == 0)) [
  | inl nul ↦ let other : (k == c) ≡ false = ground arith in rw (nul, other) refl
  | inr more ↦ elim (Bool-cases (c == 10)) [
    | inl newline ↦ let other : (k == c) ≡ false = ground arith in rw (more, newline, other) refl
    | inr go ↦ rw (more, go) (ap (λ b. k == c && b) (starts_with-line key text plain))
  ]
]

plain_key : All (λ k. (k ≢ 0) × (k ≢ 10)) (halt_key ++ b'1' ∷ [])
plain_key = omega arith

starts_with-take : (key text : List ℕ) → starts_with key text ≡ true → take (length key) text ≡ key
starts_with-take [] text h = refl
starts_with-take (k ∷ key) [] h = absurd (cc)
starts_with-take (k ∷ key) (c ∷ text) h =
    ap₂ ◌∷◌ (ground arith) (starts_with-take key text (ground arith))

take-starts_with : (key text : List ℕ) → take (length key) text ≡ key → starts_with key text ≡ true
take-starts_with [] text h = refl
take-starts_with (k ∷ key) [] h = absurd (cc)
take-starts_with (k ∷ key) (c ∷ text) h =
    let rest = take-starts_with key text (ground arith) in ground arith

-- Behind a key that matches, the longer key is a matter of one more character.
starts_with-next :
    (key text : List ℕ) (c : ℕ)
    → starts_with key text ≡ true
    → starts_with (key ++ c ∷ []) text
      ≡ (ltb (length key) (length text) && get_or text (length key) 0 == c)
starts_with-next [] [] c h = refl
starts_with-next [] (d ∷ text) c h = ground arith
starts_with-next (k ∷ key) [] c h = absurd (cc)
starts_with-next (k ∷ key) (d ∷ text) c h =
    let next = starts_with-next key text c (ground arith) in ground arith

take-all : (n : ℕ) (text : List ℕ) → length text ≤ n → take n text ≡ text
take-all zero [] h = refl
take-all zero (c ∷ text) h = absurd (omega arith)
take-all (suc n) [] h = refl
take-all (suc n) (c ∷ text) h = ap (◌∷◌ c) (take-all n text (omega arith))

skip_line-length : (text : List ℕ) → length (skip_line text) ≤ length text
unfolding skip_line
skip_line-length [] = omega arith
skip_line-length (c ∷ text) = ground (arith, skip_line-length text)

skip_line-shorter :
    (c : ℕ) (text : List ℕ) → (c == 0) ≡ false → length (skip_line (c ∷ text)) ≤ length text
unfolding skip_line
skip_line-shorter c text some_text = ground (arith, skip_line-length text)

skip_line-halt_key : skip_line halt_key ≡ []
unfolding skip_line
skip_line-halt_key = refl

module _ (lib : CompareLib) where
  scan-nil : (fuel : ℕ) → scan lib fuel [] ≡ false
  unfolding scan
  scan-nil zero = refl
  scan-nil (suc fuel) = refl

  has_key-true :
      (text : List ℕ)
      → has_key lib text ≡ true
      → (starts_with halt_key text ≡ true) × (ltb 18 (length text) ≡ true)
  has_key-true text h = (
    take-starts_with halt_key text (
        (lib.compare_mem_iff (take 18 text) halt_key (ground (arith, length-take 18 text))).0
          (ground arith)),
    ground arith,
  )

  has_key-false :
      (text : List ℕ)
      → has_key lib text ≡ false
      → starts_with halt_key text ≡ true
      → length text ≤ 18
  has_key-false text h starts =
      let same =
        (lib.compare_mem_iff (take 18 text) halt_key
            (ap length (starts_with-take halt_key text starts))).1
          (starts_with-take halt_key text starts) in
      ground arith

  -- A text that ends with the key has nothing behind it.
  scan-halt_key :
      (fuel : ℕ) (text : List ℕ)
      → starts_with halt_key text ≡ true
      → length text ≤ 18
      → scan lib fuel (skip_line text) ≡ false
  scan-halt_key fuel text starts short =
      let whole : text ≡ halt_key =
        sym (take-all 18 text short) ∙ starts_with-take halt_key text starts in
      ap (λ t. scan lib fuel (skip_line t)) whole
      ∙ ap (scan lib fuel) skip_line-halt_key
      ∙ scan-nil fuel

  -- With more rounds than the text has characters, and with CompareMem as documented: the scan
  -- of ReadPowerOffOnHalt says that the flag is set exactly if, of the lines before the first
  -- NUL, the first that starts with POWER_OFF_ON_HALT= has a 1 as its next character, whatever
  -- follows that.
  pub scan-lines :
      (fuel : ℕ) (text : List ℕ)
      → length text < fuel
      → scan lib fuel text ≡ first_is_set (lines text)
  unfolding scan
  scan-lines zero text h = absurd (omega arith)
  scan-lines (suc fuel) [] h = refl
  scan-lines (suc fuel) (c ∷ text) h = elim (Bool-cases (c == 0)) [
    | inl nul ↦ rw nul refl
    | inr go ↦
        let x : List ℕ = c ∷ text in
        let keyed = starts_with-line halt_key x (omega arith) in
        let set = starts_with-line (halt_key ++ b'1' ∷ []) x plain_key in
        let later = scan-lines fuel (skip_line x) (omega (arith, skip_line-shorter c text go)) in
        rw (lines-line c text go, keyed, set, go)
          (elim (Bool-cases (has_key lib x)) [
            | inl yes' ↦
                let (starts, room) = has_key-true x yes' in
                rw (yes', starts, starts_with-next halt_key x b'1' starts, room) refl
            | inr no' ↦ rw no' (elim (Bool-cases (starts_with halt_key x)) [
              | inr other ↦ rw other later
              | inl starts ↦
                  let short = has_key-false x no' starts in
                  let none' : ltb 18 (length x) ≡ false = ground arith in
                  rw (starts, starts_with-next halt_key x b'1' starts, none')
                    (scan-halt_key fuel x starts short)
            ])
          ])
  ]
