-- ===== src/Eeprom/WellFormed.antt =====
-- What makes a chain of sections well formed, header by header, and that WalkSections of EepromImage.c
-- accepts exactly these chains.
use rpi5_uefi_build.Common.{
  ℕ, ◌+◌, ◌≤◌, ◌<◌, ◌/◌, ◌*◌, ◌≡◌, ◌≢◌, sym, subst, ◌↔◌, ◌⊎◌, some, List, [], ◌∷◌, length, arith,
  bit_and, Mem, u64, sub64,
}
use rpi5_uefi_build.Eeprom.{Section, stop, entry, be32, look, next_section, walk_sections}
use rpi5_uefi_build.Eeprom.Chain.{Chain, done, link, walk_sections-Chain_iff}

-- Where the chain ends: no room for a header, or a magic of zeros or of erased flash.
abbrev pub IsEnd : Mem → ℕ → ℕ → Type 0
IsEnd image size at = (size < u64 (at + 8)) ⊎ (be32 image at ≡ 0) ⊎ (be32 image at ≡ 0xffff_ffff)

-- A section's header: its magic, with the type bits masked out, and its length, inside the image.
pub record IsSection (image : Mem) (size at : ℕ) (s : Section) : Type 0 where
  pub offset : s.offset ≡ at
  pub magic : s.magic ≡ be32 image at
  pub len : s.len ≡ be32 image (at + 4)
  pub room : u64 (at + 8) ≤ size
  pub not_blank : (s.magic ≢ 0) × (s.magic ≢ 0xffff_ffff)
  pub masked : bit_and s.magic 0xffff_f00f ≡ 0x55aa_f00f
  pub fits : s.len ≤ sub64 (sub64 size at) 8

-- The sections from `at` on: each has a header, the next is at the end of its bytes rounded up to 8.
pub data WellFormed (image : Mem) (size : ℕ) : ℕ → List Section → Type 0 where
  ends : (at : ℕ) → IsEnd image size at → WellFormed image size at []
  goes_on :
      (at : ℕ) (s : Section) (rest : List Section)
      → IsSection image size at s
      → WellFormed image size (u64 (u64 (at + 8 + s.len) + 7) / 8 * 8) rest
      → WellFormed image size at (s ∷ rest)

module _ (image : Mem) (size : ℕ) where
  look-IsEnd : (at : ℕ) → look image size at ≡ stop → IsEnd image size at
  unfolding look
  look-IsEnd at e = ground arith

  IsEnd-look : (at : ℕ) → IsEnd image size at → look image size at ≡ stop
  unfolding look
  IsEnd-look at e = ground arith

  look-IsSection : (at : ℕ) (s : Section) → look image size at ≡ entry s → IsSection image size at s
  unfolding look
  look-IsSection at s e = ground arith

  IsSection-look : (at : ℕ) (s : Section) → IsSection image size at s → look image size at ≡ entry s
  unfolding look
  IsSection-look at s h = ground arith

  pub Chain-WellFormed :
      (at : ℕ) (l : List Section) → Chain image size at l → WellFormed image size at l
  Chain-WellFormed at [] (done _ e) = ends at (look-IsEnd at e)
  Chain-WellFormed at (s ∷ rest) (link _ _ _ e chain) =
      let header = look-IsSection at s e in
      goes_on at s rest header (
        subst (λ o. WellFormed image size (u64 (u64 (o + 8 + s.len) + 7) / 8 * 8) rest)
          header.offset (Chain-WellFormed (next_section s) rest chain))

  WellFormed-Chain :
      (at : ℕ) (l : List Section) → WellFormed image size at l → Chain image size at l
  WellFormed-Chain at [] (ends _ e) = done at (IsEnd-look at e)
  WellFormed-Chain at (s ∷ rest) (goes_on _ _ _ header chain) =
      link at s rest (IsSection-look at s header) (
        subst (λ o. Chain image size (u64 (u64 (o + 8 + s.len) + 7) / 8 * 8) rest)
          (sym header.offset)
          (WellFormed-Chain (u64 (u64 (at + 8 + s.len) + 7) / 8 * 8) rest chain))

  -- WalkSections returns a list of sections exactly when that list is a well-formed chain from
  -- the start of the walk up to its end, each header with a section's magic and a length inside
  -- the image, and has at most as many sections as the array holds.
  pub walk_sections_iff :
      (cap at : ℕ) (l : List Section)
      → (walk_sections image size cap at ≡ some l) ↔ (WellFormed image size at l × (length l ≤ cap))
  walk_sections_iff cap at l =
      let walked = walk_sections-Chain_iff image size cap at l in
      (
        λ e. let (chain, short) = walked.0 e in (Chain-WellFormed at l chain, short),
        λ h. walked.1 (WellFormed-Chain at l h.0, h.1),
      )
