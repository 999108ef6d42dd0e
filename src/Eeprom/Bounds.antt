-- ===== src/Eeprom/Bounds.antt =====
-- Where the sections of a chain stand: inside the image, 8-aligned and one behind the other.
-- An image of at most 2 ^ 62 bytes keeps the offsets of the walk from wrapping.
use rpi5_uefi_build.Common.{
  ℕ, ◌+◌, ◌*◌, ◌/◌, ◌^◌, ◌≤◌, ◌<◌, ◌≡◌, some, List, [], ◌∷◌, arith, Mem, subst, true, bit_and, ◌==◌,
}
use rpi5_uefi_build.Eeprom.{Section, entry, look, be32, next_section, walk_sections}
use rpi5_uefi_build.Eeprom.Layout
use rpi5_uefi_build.Eeprom.Chain.{Chain, done, link, walk_sections-Chain_iff}

-- What the header at `at` says, and that its section ends inside the image.
pub record IsHeader (image : Mem) (size at : ℕ) (s : Section) : Type 0 where
  pub at_offset : s.offset ≡ at
  pub reads_magic : s.magic ≡ be32 image at
  pub reads_len : s.len ≡ be32 image (at + 4)
  pub ends : at + 8 + s.len ≤ size
  pub masked : (bit_and s.magic Layout.section_magic_mask == Layout.section_magic) ≡ true

pub entry-IsHeader :
    (image : Mem) (size at : ℕ) (s : Section)
    → size ≤ 2 ^ 62
    → at < 2 ^ 63
    → look image size at ≡ entry s
    → IsHeader image size at s
unfolding look
entry-IsHeader image size at s small low e = ground arith

-- The start of the section behind `s`.
abbrev pub end_of : Section → ℕ
end_of s = (s.offset + 8 + s.len + 7) / 8 * 8

-- The sections of `l` stand one behind the other from `at` on, each inside the image.
abbrev pub IsLaid : Mem → ℕ → ℕ → List Section → Type 0
IsLaid image size at [] = Unit
IsLaid image size at (s ∷ rest) = IsHeader image size at s × IsLaid image size (end_of s) rest

pub next_section-eq-end_of :
    (image : Mem) (size at : ℕ) (s : Section)
    → size ≤ 2 ^ 62
    → IsHeader image size at s
    → (next_section s ≡ end_of s) × (end_of s < 2 ^ 63)
next_section-eq-end_of image size at s small h = omega arith

module _ (image : Mem) (size : ℕ) (small : size ≤ 2 ^ 62) where
  pub Chain-IsLaid :
      (at : ℕ) (l : List Section) → at < 2 ^ 63 → Chain image size at l → IsLaid image size at l
  Chain-IsLaid at [] low (done _ e) = tt
  Chain-IsLaid at (s ∷ rest) low (link _ _ _ e chain) =
      let header = entry-IsHeader image size at s small low e in
      let (same, low') = next_section-eq-end_of image size at s small header in
      (header, Chain-IsLaid (end_of s) rest low' (subst (λ n. Chain image size n rest) same chain))

  -- In an image of at most 2 ^ 62 bytes and from a start below 2 ^ 63, the sections
  -- WalkSections returns are headers that stand in the image one behind the other, each at the
  -- aligned end of the one before and each ending inside the image.
  pub walk_sections-IsLaid :
      (cap at : ℕ) (l : List Section)
      → at < 2 ^ 63
      → walk_sections image size cap at ≡ some l
      → IsLaid image size at l
  walk_sections-IsLaid cap at l low e =
      Chain-IsLaid at l low ((walk_sections-Chain_iff image size cap at l).0 e).0
