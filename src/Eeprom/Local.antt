-- ===== src/Eeprom/Local.antt =====
-- A walk reads only headers, and a search only headers and names: what it sees is the same in two
-- images that agree there.
use rpi5_uefi_build.Common.{
  ℕ, zero, suc, ◌+◌, ◌^◌, ◌≤◌, ◌<◌, ◌≡◌, refl, ◌∙◌, subst, arith, Mem, true, false, ◌||◌,
  Bool-cases, inl, inr, ◌==◌, List, [], ◌∷◌, ◌++◌, bit_and,
}
use rpi5_uefi_build.Eeprom.{
  Section, Query, entry, be32, look, zeros, name_matches, selects, next_section,
}
use rpi5_uefi_build.Eeprom.Layout
use rpi5_uefi_build.Eeprom.Bounds.{entry-IsHeader, next_section-eq-end_of}
use rpi5_uefi_build.Eeprom.Bytes.{be32_local}
use rpi5_uefi_build.Eeprom.Chain.{Chain, done, link}

-- Two images agree on [lo, hi).
abbrev pub Agree : Mem → Mem → ℕ → ℕ → Type 0
Agree m m' lo hi = (j : ℕ) → lo ≤ j → j < hi → m' j ≡ m j

module _ (m m' : Mem) (size : ℕ) where
  pub look_local : (at : ℕ) → Agree m m' at (at + 8) → look m' size at ≡ look m size at
  unfolding look
  look_local at same =
      let magic = be32_local m m' at (λ j p q. same j p (omega arith)) in
      let len = be32_local m m' (at + 4) (λ j p q. same j (omega arith) (omega arith)) in
      rw (magic, len)

-- A header that the walk accepts.
pub look-entry :
    (m : Mem) (size at : ℕ) (s : Section)
    → s.offset ≡ at
    → be32 m at ≡ s.magic
    → be32 m (at + 4) ≡ s.len
    → size ≤ 2 ^ 62
    → at + 8 + s.len ≤ size
    → (s.magic == 0 || s.magic == 0xffff_ffff) ≡ false
    → (bit_and s.magic Layout.section_magic_mask == Layout.section_magic) ≡ true
    → look m size at ≡ entry s
unfolding look
look-entry m size at s o g l small fits live mask = ground arith

zeros_local : (m m' : Mem) (n at : ℕ) → Agree m m' at (at + n) → zeros m' n at ≡ zeros m n at
unfolding zeros
zeros_local m m' zero at same = refl
zeros_local m m' (suc n) at same =
    let rest = zeros_local m m' n (at + 1) (λ j p q. same j (omega arith) (omega arith)) in
    rw (same at (omega arith) (omega arith), rest)

pub name_matches_local :
    (m m' : Mem) (n at : ℕ) (name : List ℕ)
    → Agree m m' at (at + n)
    → name_matches m' n at name ≡ name_matches m n at name
unfolding name_matches
name_matches_local m m' zero at [] same = refl
name_matches_local m m' zero at (c ∷ name) same = refl
name_matches_local m m' (suc n) at [] same = zeros_local m m' (suc n) at same
name_matches_local m m' (suc n) at (c ∷ name) same =
    let rest =
      name_matches_local m m' n (at + 1) name (λ j p q. same j (omega arith) (omega arith)) in
    rw (same at (omega arith) (omega arith), rest)

pub selects_local :
    (m m' : Mem) (q : Query) (s : Section)
    → (s.magic ≡ Layout.file_magic → Agree m m' (s.offset + 8) (s.offset + 20))
    → selects m' q s ≡ selects m q s
unfolding selects
selects_local m m' q s same = elim (Bool-cases (s.magic == Layout.file_magic)) [
  | inl e ↦
      let name =
        name_matches_local m m' 12 (s.offset + 8) q.name
          (λ j p t. same (ground arith) j p (omega arith)) in
      rw name
  | inr e ↦ rw e
]

module _ (m m' : Mem) (size : ℕ) (small : size ≤ 2 ^ 62) where
  -- A chain that starts behind every change is the same chain.
  pub Chain-local :
      (lo at : ℕ) (l : List Section)
      → ((j : ℕ) → lo ≤ j → m' j ≡ m j)
      → lo ≤ at
      → at < 2 ^ 63
      → Chain m size at l
      → Chain m' size at l
  Chain-local lo at [] same above low (done _ e) =
      done at (look_local m m' size at (λ j p q. same j (omega arith)) ∙ e)
  Chain-local lo at (s ∷ l) same above low (link _ _ _ e chain) =
      let header = entry-IsHeader m size at s small low e in
      let next = next_section-eq-end_of m size at s small header in
      link at s l (look_local m m' size at (λ j p q. same j (omega arith)) ∙ e) (
        Chain-local lo (next_section s) l same (omega (arith, header.at_offset)) (omega arith)
          chain)

  -- A chain reaches its sections from below.
  pub Chain-le :
      (at : ℕ) (before : List Section) (s : Section) (rest : List Section)
      → at < 2 ^ 63
      → Chain m size at (before ++ (s ∷ rest))
      → at ≤ s.offset
  Chain-le at [] s rest low (link _ _ _ e chain) =
      let header = entry-IsHeader m size at s small low e in omega (arith, header.at_offset)
  Chain-le at (t ∷ before) s rest low (link _ _ _ e chain) =
      let header = entry-IsHeader m size at t small low e in
      let next = next_section-eq-end_of m size at t small header in
      let later = Chain-le (next_section t) before s rest (omega arith) chain in
      omega (arith, header.at_offset)

  -- The sections before `s` carry over, with a new chain from `s` on.
  pub Chain-prefix :
      (at : ℕ) (before : List Section) (s : Section) (rest tail : List Section)
      → ((j : ℕ) → j < s.offset → m' j ≡ m j)
      → at < 2 ^ 63
      → Chain m size at (before ++ (s ∷ rest))
      → Chain m' size s.offset tail
      → Chain m' size at (before ++ tail)
  Chain-prefix at [] s rest tail same low (link _ _ _ e chain) new =
      let header = entry-IsHeader m size at s small low e in
      subst (λ n. Chain m' size n tail) header.at_offset new
  Chain-prefix at (t ∷ before) s rest tail same low (link _ _ _ e chain) new =
      let header = entry-IsHeader m size at t small low e in
      let next = next_section-eq-end_of m size at t small header in
      let later = Chain-le (next_section t) before s rest (omega arith) chain in
      link at t (before ++ tail)
        (look_local m m' size at (λ j p q. same j (omega (arith, header.at_offset))) ∙ e)
        (Chain-prefix (next_section t) before s rest tail same (omega arith) chain new)
