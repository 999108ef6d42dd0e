-- ===== src/Blcfg/Lines.antt =====
-- A text as its lines: what the loops of BlcfgValues.c see of it.
use rpi5_uefi_build.Common.{
  ℕ, zero, suc, ◌+◌, ◌≤◌, ◌≡◌, ◌≢◌, refl, sym, ◌∙◌, ap, inl, inr, arith, true, false, Option, some,
  List, [], ◌∷◌, ◌++◌, length, length-append, append_assoc, All, drop, ◌==◌, if◌then◌else◌,
  Bool-cases, ==_ne,
}
use rpi5_uefi_build.Blcfg.{CompareLib, line_of, after_line, trim_cr, is_line_of, get_value_loop}
use rpi5_uefi_build.Blcfg.Build.{has_newline, is_unended}

-- No newline in it.
abbrev pub IsLine : List ℕ → Type 0
IsLine = All (λ c. c ≢ 10)

-- The text of lines that each end in a newline.
abbrev pub flat : List (List ℕ) → List ℕ
flat [] = []
flat (l ∷ ls) = l ++ (10 ∷ flat ls)

pub flat-append :
    (ls : List (List ℕ)) (l : List ℕ) → flat (ls ++ (l ∷ [])) ≡ flat ls ++ (l ++ (10 ∷ []))
flat-append [] l = refl
flat-append (m ∷ ls) l =
    ap (λ r. m ++ (10 ∷ r)) (flat-append ls l)
    ∙ sym (append_assoc m (10 ∷ flat ls) (l ++ (10 ∷ [])))

pub line_of-IsLine : (t : List ℕ) → IsLine (line_of t)
unfolding line_of
line_of-IsLine [] = tt
line_of-IsLine (c ∷ t) = elim (Bool-cases (c == 10)) [
  | inl e ↦ rw e tt
  | inr e ↦ rw e ((λ h. ground arith), line_of-IsLine t)
]

-- The line in front of a newline.
pub line_of-append : (l r : List ℕ) → IsLine l → line_of (l ++ (10 ∷ r)) ≡ l
unfolding line_of
line_of-append [] r h = refl
line_of-append (c ∷ l) r h = rw (==_ne c 10 h.0, line_of-append l r h.1)

pub after_line-append : (l r : List ℕ) → IsLine l → after_line (l ++ (10 ∷ r)) ≡ r
unfolding after_line
after_line-append [] r h = refl
after_line-append (c ∷ l) r h = rw (==_ne c 10 h.0) (after_line-append l r h.1)

pub after_line-length : (c : ℕ) (t : List ℕ) → length (after_line (c ∷ t)) ≤ length t
unfolding after_line
after_line-length c [] = elim (Bool-cases (c == 10)) [
  | inl e ↦ rw e (omega arith)
  | inr e ↦ rw e (omega arith)
]
after_line-length c (d ∷ t) = elim (Bool-cases (c == 10)) [
  | inl e ↦ rw e (omega arith)
  | inr e ↦ rw e (omega (arith, after_line-length d t))
]

-- Without a newline the whole text is one line.
pub no_newline : (t : List ℕ) → has_newline t ≡ false → (line_of t ≡ t) × (after_line t ≡ [])
unfolding line_of after_line has_newline
no_newline [] h = (refl, refl)
no_newline (c ∷ t) h = elim (Bool-cases (c == 10)) [
  | inl e ↦ absurd (ground arith)
  | inr e ↦ let rest = no_newline t (ground arith) in rw e (ap (λ l. c ∷ l) rest.0, rest.1)
]

-- A text of lines is ended; a line behind it is not.
pub is_unended-line : (a l : List ℕ) (c : ℕ) → IsLine (c ∷ l) → is_unended (a ++ (c ∷ l)) ≡ true
unfolding is_unended
is_unended-line [] [] c h = rw (==_ne c 10 h.0)
is_unended-line [] (d ∷ l) c h = is_unended-line [] l d h.1
is_unended-line (x ∷ []) l c h = is_unended-line [] l c h
is_unended-line (x ∷ y ∷ a) l c h = is_unended-line (y ∷ a) l c h

is_unended-append : (a r : List ℕ) (x : ℕ) → is_unended (a ++ (x ∷ r)) ≡ is_unended (x ∷ r)
unfolding is_unended
is_unended-append [] r x = refl
is_unended-append (y ∷ []) r x = refl
is_unended-append (y ∷ z ∷ a) r x = is_unended-append (z ∷ a) r x

is_unended-newline : (t : List ℕ) → is_unended t ≡ false → is_unended (10 ∷ t) ≡ false
unfolding is_unended
is_unended-newline [] h = refl
is_unended-newline (x ∷ t) h = h

pub is_unended-flat : (ls : List (List ℕ)) → is_unended (flat ls) ≡ false
unfolding is_unended
is_unended-flat [] = refl
is_unended-flat (l ∷ ls) =
    is_unended-append l (flat ls) 10 ∙ is_unended-newline (flat ls) (is_unended-flat ls)

module _ (lib : CompareLib) (name : List ℕ) where
  -- The value of the last of the lines that is one of `name`, or the one found before.
  unfoldable pub find_last : List (List ℕ) → Option (List ℕ) → Option (List ℕ)
  find_last [] found = found
  find_last (l ∷ ls) found =
      find_last ls
        (if is_line_of lib name l then some (trim_cr (drop (length name + 1) l)) else found)

  pub find_last-append :
      (ls : List (List ℕ)) (l : List ℕ) (found : Option (List ℕ))
      → find_last (ls ++ (l ∷ [])) found ≡ (
          if is_line_of lib name l
          then some (trim_cr (drop (length name + 1) l))
          else find_last ls found)
  unfolding find_last
  find_last-append [] l found = refl
  find_last-append (m ∷ ls) l found =
      find_last-append ls l
        (if is_line_of lib name m then some (trim_cr (drop (length name + 1) m)) else found)

  -- `BlTextGetValue` finds the last line of the key.
  pub get_value_loop-flat :
      (fuel : ℕ) (ls : List (List ℕ)) (found : Option (List ℕ))
      → All IsLine ls
      → length (flat ls) ≤ fuel
      → get_value_loop lib fuel name (flat ls) found ≡ find_last ls found
  unfolding get_value_loop find_last
  get_value_loop-flat zero [] found h le = refl
  get_value_loop-flat (suc fuel) [] found h le = refl
  get_value_loop-flat zero (l ∷ ls) found h le =
      absurd (omega (arith, length-append l (10 ∷ flat ls)))
  get_value_loop-flat (suc fuel) ([] ∷ ls) found h le =
      rw (line_of-append [] (flat ls) tt, after_line-append [] (flat ls) tt)
        (get_value_loop-flat fuel ls _ h.1 (omega arith))
  get_value_loop-flat (suc fuel) ((c ∷ l) ∷ ls) found h le =
      rw (line_of-append (c ∷ l) (flat ls) h.0, after_line-append (c ∷ l) (flat ls) h.0)
        (get_value_loop-flat fuel ls _ h.1 (omega (arith, length-append l (10 ∷ flat ls))))
