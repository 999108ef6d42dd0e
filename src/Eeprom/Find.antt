-- ===== src/Eeprom/Find.antt =====
-- What `EepromFindFileIn` returns: the first section of the chain that the query selects, and a
-- location that stays inside the image.
use rpi5_uefi_build.Common.{
  min, sub64, ◌≢◌, ◌==◌, ℕ, ◌+◌, ◌-◌, ◌%◌, ◌^◌, ◌≤◌, ◌<◌, ◌≡◌, refl, ◌⊎◌, inl, inr, sym, subst, ◌∙◌,
  ap, true, false, some, List, [], ◌∷◌, ◌++◌, arith, Mem, All, Bool-cases, Option-cases,
}
use rpi5_uefi_build.Eeprom.{
  Section, FileLoc, Query, walk_sections, selects, first_match, next_real, pad_limit, locate,
  find_file_in, file_name_matches, be32, next_section,
}
use rpi5_uefi_build.Eeprom.Layout
use rpi5_uefi_build.Eeprom.Bounds.{
  IsHeader, IsLaid, end_of, walk_sections-IsLaid, next_section-eq-end_of,
}
use rpi5_uefi_build.Eeprom.Chain.{Chain, link, walk_sections-Chain_iff}
use rpi5_uefi_build.Eeprom.WellFormed.{WellFormed, Chain-WellFormed}

-- `sections` is `before`, a selected section, and `rest`, and nothing of `before` is selected.
pub record IsFirst (image : Mem) (q : Query) (sections before : List Section) (found : Section)
    (rest : List Section) : Type 0 where
  pub splits : sections ≡ before ++ (found ∷ rest)
  pub skipped : All (λ s. selects image q s ≡ false) before
  pub selected : selects image q found ≡ true

pub first_match_sound :
    (image : Mem) (q : Query) (l : List Section) (found : Section) (rest : List Section)
    → first_match image q l ≡ some (found, rest)
    → (before : List Section) × IsFirst image q l before found rest
unfolding first_match
first_match_sound image q [] found rest h = absurd (ground arith)
first_match_sound image q (s ∷ l) found rest h = elim (Bool-cases (selects image q s)) [
  | inl e ↦ ([], record { splits = ground arith; skipped = tt; selected = ground arith })
  | inr e ↦
      let (before, first) = first_match_sound image q l found rest (ground arith) in
      (
        s ∷ before,
        record {
          splits = ap (λ r. s ∷ r) first.splits;
          skipped = (e, first.skipped);
          selected = first.selected;
        },
      )
]

pub first_match_complete :
    (image : Mem) (q : Query) (before : List Section) (found : Section) (rest : List Section)
    → All (λ s. selects image q s ≡ false) before
    → selects image q found ≡ true
    → first_match image q (before ++ (found ∷ rest)) ≡ some (found, rest)
unfolding first_match
first_match_complete image q [] found rest skipped e = rw e
first_match_complete image q (s ∷ before) found rest skipped e =
    rw (skipped.0, first_match_complete image q before found rest skipped.1 e)

-- A successful search: the chain of the walk, where the section stands in it, and the location.
pub record IsFound (image : Mem) (size : ℕ) (q : Query) (loc : FileLoc) : Type 0 where
  pub sections : List Section
  pub walked : walk_sections image size Layout.max_sections q.walk_start ≡ some sections
  pub before : List Section
  pub found : Section
  pub rest : List Section
  pub first : IsFirst image q sections before found rest
  pub located : loc ≡ locate size q (found, rest)

pub find_file_in-IsFound :
    (image : Mem) (size : ℕ) (q : Query) (loc : FileLoc)
    → find_file_in image size q ≡ some loc
    → IsFound image size q loc
unfolding find_file_in
find_file_in-IsFound image size q loc h =
    elim (Option-cases (walk_sections image size 64 q.walk_start)) [
      | inl e ↦ absurd (ground arith)
      | inr (sections, e) ↦ elim (Option-cases (first_match image q sections)) [
        | inl f ↦ absurd (ground arith)
        | inr ((found, rest), f) ↦
            let (before, first) = first_match_sound image q sections found rest f in
            record {
              sections = sections;
              walked = e;
              before = before;
              found = found;
              rest = rest;
              first = first;
              located = ground arith;
            }
      ]
    ]

pub IsFound-find_file_in :
    (image : Mem) (size : ℕ) (q : Query) (loc : FileLoc)
    → IsFound image size q loc
    → find_file_in image size q ≡ some loc
unfolding find_file_in
IsFound-find_file_in image size q loc f =
    let matched : first_match image q f.sections ≡ some (f.found, f.rest) =
      ap (first_match image q) f.first.splits
      ∙ first_match_complete image q f.before f.found f.rest f.first.skipped f.first.selected in
    ground (arith, f.walked, matched, f.located)

-- The query's tests, of a section that it selects.
pub selects-facts :
    (image : Mem) (q : Query) (s : Section)
    → selects image q s ≡ true
    → (s.magic ≡ Layout.file_magic)
      × (q.win_start ≤ s.offset)
      × (s.offset < q.win_end)
      × (file_name_matches image (s.offset + 8) q.name ≡ true)
unfolding selects
selects-facts image q s h = ground arith

pub IsLaid-append :
    (image : Mem) (size at : ℕ) (before : List Section) (s : Section) (rest : List Section)
    → IsLaid image size at (before ++ (s ∷ rest))
    → IsHeader image size s.offset s × IsLaid image size (end_of s) rest
IsLaid-append image size at [] s rest h =
    (subst (λ n. IsHeader image size n s) (sym h.0.at_offset) h.0, h.1)
IsLaid-append image size at (t ∷ before) s rest h =
    IsLaid-append image size (end_of t) before s rest h.1

-- The limit for padding, if a real section stands behind, is where that section starts.
next_real_bound :
    (image : Mem) (size at limit : ℕ) (l : List Section)
    → at % 8 ≡ 0
    → IsLaid image size at l
    → (next_real limit l ≡ limit)
      ⊎ ((at ≤ next_real limit l) × (next_real limit l + 8 ≤ size) × (next_real limit l % 8 ≡ 0))
unfolding next_real
next_real_bound image size at limit [] a h = inl refl
next_real_bound image size at limit (s ∷ rest) a h =
    ground (arith, next_real_bound image size (end_of s) limit rest (omega arith) h.1)

-- The limit for padding: where the first section behind that is no padding starts, or, if all are
-- padding, the end of the window or of the part of the image before its last erase block.
pub data IsLimit (size win_end : ℕ) (rest : List Section) (n : ℕ) : Type 0 where
  window :
      All (λ s. s.magic ≡ 0x55aa_feef) rest
      → n ≡ min win_end (sub64 size 4096)
      → IsLimit size win_end rest n
  section :
      (pads : List Section) (s : Section) (more : List Section)
      → rest ≡ pads ++ (s ∷ more)
      → All (λ t. t.magic ≡ 0x55aa_feef) pads
      → s.magic ≢ 0x55aa_feef
      → n ≡ s.offset
      → IsLimit size win_end rest n

IsLimit-pad :
    (size win_end n : ℕ) (s : Section) (rest : List Section)
    → s.magic ≡ 0x55aa_feef
    → IsLimit size win_end rest n
    → IsLimit size win_end (s ∷ rest) n
IsLimit-pad size win_end n s rest pad (window all e) = window (pad, all) e
IsLimit-pad size win_end n s rest pad (section pads t more split all real e) =
    section (s ∷ pads) t more (ap (λ l. s ∷ l) split) (pad, all) real e

next_real-IsLimit :
    (size : ℕ) (q : Query) (rest : List Section)
    → IsLimit size q.win_end rest (next_real (pad_limit size q) rest)
unfolding next_real pad_limit
next_real-IsLimit size q [] = window tt (ground arith)
next_real-IsLimit size q (s ∷ rest) = elim (Bool-cases (s.magic == Layout.pad_magic)) [
  | inl pad ↦
      rw pad (IsLimit-pad size q.win_end _ s rest (ground arith) (next_real-IsLimit size q rest))
  | inr real ↦ rw real (section [] s rest refl tt (λ e. absurd (ground arith)) refl)
]

Chain-suffix :
    (image : Mem) (size at : ℕ) (before : List Section) (s : Section) (rest : List Section)
    → Chain image size at (before ++ (s ∷ rest))
    → Chain image size (next_section s) rest
Chain-suffix image size at [] s rest (link _ _ _ e chain) = chain
Chain-suffix image size at (t ∷ before) s rest (link _ _ _ e chain) =
    Chain-suffix image size (next_section t) before s rest chain

-- What a location means: a file section of that name inside the window and inside the image, its
-- content behind the 24 bytes of header, and a limit for padding.
pub record IsPlaced (image : Mem) (size : ℕ) (q : Query) (loc : FileLoc) : Type 0 where
  pub found : Section
  pub hdr : loc.hdr_offset ≡ found.offset
  pub is_file : be32 image loc.hdr_offset ≡ Layout.file_magic
  pub named : file_name_matches image (loc.hdr_offset + 8) q.name ≡ true
  pub in_window : (q.win_start ≤ loc.hdr_offset) × (loc.hdr_offset < q.win_end)
  pub content : loc.content_offset ≡ loc.hdr_offset + 24
  pub header_len : be32 image (loc.hdr_offset + 4) ≡ found.len
  pub content_len : loc.content_len ≡ found.len - 16
  pub inside : loc.hdr_offset + 8 + found.len ≤ size
  pub next_bound :
      (loc.next_offset ≡ pad_limit size q)
      ⊎ ((end_of found ≤ loc.next_offset)
          × (loc.next_offset + 8 ≤ size)
          × (loc.next_offset % 8 ≡ 0))
  -- the sections behind, up to the end of the chain
  pub rest : List Section
  pub behind : WellFormed image size (end_of found) rest
  pub limit : IsLimit size q.win_end rest loc.next_offset

module _ (image : Mem) (size : ℕ) (q : Query) (loc : FileLoc) (small : size ≤ 2 ^ 62) where
  pub IsFound-IsPlaced :
      q.walk_start < 2 ^ 63 → IsFound image size q loc → IsPlaced image size q loc
  unfolding locate
  IsFound-IsPlaced low f =
      let laid =
        walk_sections-IsLaid image size small Layout.max_sections q.walk_start f.sections low
          f.walked in
      let (header, later) =
        IsLaid-append image size q.walk_start f.before f.found f.rest
          (subst (λ l. IsLaid image size q.walk_start l) f.first.splits laid) in
      let chain = Chain-suffix image size q.walk_start f.before f.found f.rest (
        subst (λ l. Chain image size q.walk_start l) f.first.splits
          ((walk_sections-Chain_iff image size Layout.max_sections q.walk_start f.sections).0
            f.walked).0) in
      let (magic, lo, hi, name) = selects-facts image q f.found f.first.selected in
      let bound =
        next_real_bound image size (end_of f.found) (pad_limit size q) f.rest (omega arith) later in
      let hdr : loc.hdr_offset ≡ f.found.offset = ap (λ (l : FileLoc). l.hdr_offset) f.located in
      let content : loc.content_offset ≡ f.found.offset + 24 =
        ap (λ (l : FileLoc). l.content_offset) f.located ∙ omega (arith, header.ends) in
      let content_len : loc.content_len ≡ f.found.len - 16 =
        ap (λ (l : FileLoc). l.content_len) f.located ∙ ground arith in
      let next : loc.next_offset ≡ next_real (pad_limit size q) f.rest =
        ap (λ (l : FileLoc). l.next_offset) f.located in
      record {
        found = f.found;
        hdr = hdr;
        is_file = rw hdr (sym header.reads_magic ∙ magic);
        named = rw hdr name;
        in_window = rw hdr (lo, hi);
        content = rw (hdr, content);
        header_len = rw hdr (sym header.reads_len);
        content_len = content_len;
        inside = rw hdr header.ends;
        next_bound = rw next bound;
        rest = f.rest;
        behind =
            subst (λ n. WellFormed image size n f.rest)
              (next_section-eq-end_of image size f.found.offset f.found small header).0
              (Chain-WellFormed image size (next_section f.found) f.rest chain);
        limit = rw next (next_real-IsLimit size q f.rest);
      }

  -- A location that EepromFindFileIn returns, in an image of at most 2 ^ 62 bytes and from a
  -- start below 2 ^ 63, is that of a file section with the name asked for, in the window and
  -- inside the image. Its limit for padding is the start of the first section behind it in the
  -- chain that is no padding, or, if there is none, the smaller of the window's end and the
  -- start of the image's last 4096 bytes.
  pub find_file_in-IsPlaced :
      q.walk_start < 2 ^ 63 → find_file_in image size q ≡ some loc → IsPlaced image size q loc
  find_file_in-IsPlaced low e = IsFound-IsPlaced low (find_file_in-IsFound image size q loc e)
