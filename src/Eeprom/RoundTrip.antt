-- ===== src/Eeprom/RoundTrip.antt =====
-- After `EepromReplaceFileIn` the image is a well-formed chain again, and `EepromFindFileIn` finds
-- the file with its new content.
use rpi5_uefi_build.Common.{
  ℕ, ◌+◌, ◌-◌, ◌%◌, ◌^◌, ◌≤◌, ◌<◌, ◌≡◌, refl, sym, ◌∙◌, ap, subst, arith, Mem, true, false,
  Bool-cases, inl, inr, ◌==◌, List, [], ◌∷◌, ◌++◌, All, length, length-append, some, BaseMemoryLib,
}
use rpi5_uefi_build.Eeprom.{
  Section, FileLoc, Query, stop, be32, look, selects, next_section, locate, walk_sections,
  find_file_in,
}
use rpi5_uefi_build.Eeprom.Layout
use rpi5_uefi_build.Eeprom.Bounds.{IsHeader, IsLaid, end_of, walk_sections-IsLaid}
use rpi5_uefi_build.Eeprom.Bytes.{be32_local}
use rpi5_uefi_build.Eeprom.Chain.{Chain, done, link, walk_sections-Chain_iff}
use rpi5_uefi_build.Eeprom.Find.{IsFound, IsFound-find_file_in, IsLaid-append, selects-facts}
use rpi5_uefi_build.Eeprom.Local.{
  look-entry, selects_local, name_matches_local, Chain-local, Chain-prefix,
}
use rpi5_uefi_build.Eeprom.Padding.{round8, wants_header}
use rpi5_uefi_build.Eeprom.Replace.{
  IsSized, Fits, IsWritten, next_offset_bound, replace_file_in-IsWritten,
}
use rpi5_uefi_build.Eeprom.Update.{replace_file_in}

-- Erased flash ends a walk.
look-erased :
    (m : Mem) (size at : ℕ) → ((j : ℕ) → at ≤ j → j < at + 4 → m j ≡ 0xff) → look m size at ≡ stop
unfolding look be32
look-erased m size at h = ground (
  arith,
  h at (omega arith) (omega arith),
  h (at + 1) (omega arith) (omega arith),
  h (at + 2) (omega arith) (omega arith),
  h (at + 3) (omega arith) (omega arith),
)

module _ (image : Mem) (size : ℕ) (loc : FileLoc) (content : Mem) (n : ℕ) (out : Mem)
    (w : IsWritten image loc content n out) (small : size ≤ 2 ^ 31)
    (fits : loc.content_offset + n ≤ loc.next_offset) (whole : loc.next_offset % 8 ≡ 0)
    (inside : loc.next_offset ≤ size) where
  abbrev start : ℕ
  start = round8 (loc.content_offset + n)

  abbrev pad_section : Section
  pad_section = record {
    magic = Layout.pad_magic;
    offset = start;
    len = loc.next_offset - start - 8;
  }

  -- The chain behind the new content: the padding, if there is any, and the old chain.
  Chain-behind :
      (tail : List Section)
      → Chain image size loc.next_offset tail
      → (behind : List Section) × Chain out size start behind × (length behind ≤ length tail + 1)
  Chain-behind tail chain =
      let kept =
        Chain-local image out size (omega arith) loc.next_offset loc.next_offset tail
          (λ j p. w.kept j (inr (inr p))) (omega arith) (omega arith) chain in
      elim (Bool-cases (wants_header loc start)) [
        | inl e ↦
            let (magic, len) = w.pad e in
            let pad_ends : next_section pad_section ≡ loc.next_offset = ground arith in
            (
              pad_section ∷ tail,
              link start pad_section tail
                  (look-entry out size start pad_section refl magic len (omega arith) (ground arith)
                    refl refl)
                  (subst (λ k. Chain out size k tail) (sym pad_ends) kept),
              omega arith,
            )
        | inr e ↦ elim (Bool-cases (start == loc.next_offset)) [
          | inl full ↦ (tail, subst (λ k. Chain out size k tail) (ground arith) kept, omega arith)
          | inr room ↦ (
            [],
            done start (
                look-erased out size start
                  (λ j p q. w.erased j (rw e (omega arith)) (ground arith))),
            omega arith,
          )
        ]
      ]

laid_from :
    (image : Mem) (size at : ℕ) (before : List Section) (s : Section) (rest : List Section)
    → IsLaid image size at (before ++ (s ∷ rest))
    → at ≤ s.offset
laid_from image size at [] s rest h = omega (arith, h.0.at_offset)
laid_from image size at (t ∷ before) s rest h =
    omega (arith, h.0.at_offset, laid_from image size (end_of t) before s rest h.1)

-- Sections in a chain end before those behind them.
laid_below :
    (image : Mem) (size at : ℕ) (before : List Section) (s : Section) (rest : List Section)
    → IsLaid image size at (before ++ (s ∷ rest))
    → All (λ (t : Section). t.offset + 8 + t.len ≤ s.offset) before
laid_below image size at [] s rest h = tt
laid_below image size at (t ∷ before) s rest h = (
  omega (arith, laid_from image size (end_of t) before s rest h.1),
  laid_below image size (end_of t) before s rest h.1,
)

-- A file section before the one replaced has its whole name field.
abbrev pub HasNames : List Section → Type 0
HasNames l = All (λ (s : Section). s.magic ≡ Layout.file_magic → 12 ≤ s.len) l

module _ (image : Mem) (size : ℕ) (q : Query) (loc : FileLoc) (content : Mem) (n : ℕ) (out : Mem)
    (w : IsWritten image loc content n out) (sized : IsSized size q) (f : IsFound image size q loc)
    (fits : Fits size loc n) where
  abbrev updated : Section
  updated = record { magic = f.found.magic; offset = f.found.offset; len = n + 16 }

  hdr_lem : loc.hdr_offset ≡ f.found.offset
  unfolding locate
  hdr_lem = ap (λ (l : FileLoc). l.hdr_offset) f.located

  laid : IsLaid image size q.walk_start (f.before ++ (f.found ∷ f.rest))
  laid =
      subst (λ l. IsLaid image size q.walk_start l) f.first.splits
        (walk_sections-IsLaid image size (omega (arith, sized.small)) Layout.max_sections
          q.walk_start f.sections sized.start f.walked)

  header : IsHeader image size f.found.offset f.found
  header = (IsLaid-append image size q.walk_start f.before f.found f.rest laid).0

  -- The sections before the file are selected no more than before.
  skipped_still :
      (before : List Section)
      → HasNames before
      → All (λ (s : Section). s.offset + 8 + s.len ≤ f.found.offset) before
      → All (λ s. selects image q s ≡ false) before
      → All (λ s. selects out q s ≡ false) before
  skipped_still [] names below skipped = tt
  skipped_still (s ∷ before) names below skipped = (
    selects_local image out q s (λ e j p t. w.kept j (inl (omega (arith, names.0 e, hdr_lem))))
        ∙ skipped.0,
    skipped_still before names.1 below.1 skipped.1,
  )

  bounds :
      (loc.content_offset ≡ loc.hdr_offset + 24)
      × (loc.hdr_offset < 2 ^ 31)
      × (loc.next_offset % 8 ≡ 0)
      × (loc.next_offset < 2 ^ 32)
      × (loc.next_offset ≤ size)
  bounds = next_offset_bound image size q loc sized (IsFound-find_file_in image size q loc f)

  selected_still : selects out q updated ≡ true
  unfolding selects
  selected_still =
      let (magic, lo, hi, name) = selects-facts image q f.found f.first.selected in
      let same = name_matches_local image out 12 (f.found.offset + 8) q.name (λ j p t.
        w.kept j (inr (inl (omega (arith, hdr_lem), omega (arith, hdr_lem, bounds.0))))) in
      ground (arith, magic, lo, hi, name, same)

  Chain-whole :
      (behind : List Section)
      → Chain out size (round8 (loc.content_offset + n)) behind
      → Chain out size q.walk_start (f.before ++ (updated ∷ behind))
  Chain-whole behind chain =
      let (magic, lo, hi, name) = selects-facts image q f.found f.first.selected in
      let reads_magic : be32 out f.found.offset ≡ f.found.magic =
        be32_local image out f.found.offset (λ j p t. w.kept j (inl (omega (arith, hdr_lem))))
        ∙ sym header.reads_magic in
      let reads_len : be32 out (f.found.offset + 4) ≡ n + 16 = rw hdr_lem at w.length_field in
      let seen =
        look-entry out size f.found.offset updated refl reads_magic reads_len
          (omega (arith, sized.small)) (omega (arith, fits, bounds.0, hdr_lem, sized.room))
          (ground (arith, magic)) header.masked in
      let next : next_section updated ≡ round8 (loc.content_offset + n) =
        omega (arith, hdr_lem, bounds.0, fits.0) in
      Chain-prefix image out size (omega (arith, sized.small)) q.walk_start f.before f.found f.rest
        (updated ∷ behind) (λ j p. w.kept j (inl (omega (arith, hdr_lem)))) sized.start
        (subst (λ l. Chain image size q.walk_start l) f.first.splits
          ((walk_sections-Chain_iff image size Layout.max_sections q.walk_start f.sections).0
            f.walked).0)
        (link f.found.offset updated behind seen
          (subst (λ k. Chain out size k behind) (sym next) chain))

  -- Where the file is found in the new image.
  found_again :
      (tail : List Section)
      → HasNames f.before
      → Chain image size loc.next_offset tail
      → length f.before + length tail + 2 ≤ Layout.max_sections
      → (loc' : FileLoc) × (find_file_in out size q ≡ some loc')
        × (loc'.content_offset ≡ loc.content_offset)
        × (loc'.content_len ≡ n)
  unfolding locate
  found_again tail names chain few =
      let (behind, after, more) =
        Chain-behind image size loc content n out w sized.small fits.2 bounds.2 bounds.4 tail
          chain in
      let whole = Chain-whole behind after in
      let walked =
        (walk_sections-Chain_iff out size Layout.max_sections q.walk_start
            (f.before ++ (updated ∷ behind))).1
          (whole, omega (arith, length-append f.before (updated ∷ behind))) in
      let below = laid_below image size q.walk_start f.before f.found f.rest laid in
      (
        locate size q (updated, behind),
        IsFound-find_file_in out size q _ (record {
          sections = f.before ++ (updated ∷ behind);
          walked = walked;
          before = f.before;
          found = updated;
          rest = behind;
          first = record {
            splits = refl;
            skipped = skipped_still f.before names below f.first.skipped;
            selected = selected_still;
          };
          located = refl;
        }),
        omega (arith, bounds, hdr_lem),
        ground arith,
      )

module _ (lib : BaseMemoryLib) (image : Mem) (size : ℕ) (q : Query) (content : Mem) (n : ℕ) where
  -- For sizes at which no offset wraps and the window and the image end 8-aligned, a file found
  -- at a location where the new content fits, every file section before it long enough for a
  -- name, and a chain behind its room that is well formed and leaves the array one more
  -- section: after EepromReplaceFileIn, EepromFindFileIn finds the file again, with a content
  -- of the new length that is the new bytes.
  pub find_file_in-replace_file_in :
      (loc : FileLoc) (cap : ℕ) (tail : List Section)
      → IsSized size q
      → (f : IsFound image size q loc) → Fits size loc n
      → HasNames f.before
      → walk_sections image size cap loc.next_offset ≡ some tail
      → length f.before + length tail + 2 ≤ Layout.max_sections
      → let out = (replace_file_in lib image size q content n).1 in
        (loc' : FileLoc) × (find_file_in out size q ≡ some loc')
        × (loc'.content_len ≡ n)
        × ((i : ℕ) → i < n → out (loc'.content_offset + i) ≡ content i)
  find_file_in-replace_file_in loc cap tail sized f fits names chain few =
      let out = (replace_file_in lib image size q content n).1 in
      let w =
        (replace_file_in-IsWritten lib image size q content n sized loc
          (IsFound-find_file_in image size q loc f) fits).1 in
      let (loc', e, start, len) =
        found_again image size q loc content n out w sized f fits tail names
          ((walk_sections-Chain_iff image size cap loc.next_offset tail).0 chain).0 few in
      (loc', e, len, λ i h. ap out (ap (λ k. k + i) start) ∙ w.bytes i h)
