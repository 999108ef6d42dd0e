-- ===== src/Eeprom/Name.antt =====
-- `FileNameMatches` against its meaning: the field is the name, padded with zeros.
use rpi5_uefi_build.Common.{
  ℕ, zero, suc, ◌+◌, ◌≤◌, ◌<◌, ◌≡◌, refl, ◌↔◌, ap, sym, ◌∙◌, true, List, [], ◌∷◌, arith, length,
  get_or, u8, Mem,
}
use rpi5_uefi_build.Eeprom.{zeros, name_matches, file_name_matches}
use rpi5_uefi_build.Eeprom.Layout

-- The `n` bytes from `at` on are the characters of `name` and then zeros.
abbrev pub IsPadded : Mem → ℕ → ℕ → List ℕ → Type 0
IsPadded image at n name =
    (length name ≤ n) × ((i : ℕ) → i < n → image (at + i) ≡ u8 (get_or name i 0))

here : (image : Mem) (at : ℕ) → image (at + 0) ≡ image at
here image at = ap image (omega arith)

there : (image : Mem) (at i : ℕ) → image (at + suc i) ≡ image (at + 1 + i)
there image at i = ap image (omega arith)

zeros_sound : (image : Mem) (n at i : ℕ) → zeros image n at ≡ true → i < n → image (at + i) ≡ 0
unfolding zeros
zeros_sound image zero at i h lt = absurd (omega arith)
zeros_sound image (suc n) at zero h lt = ground (arith, here image at)
zeros_sound image (suc n) at (suc i) h lt =
    ground (arith, zeros_sound image n (at + 1) i, there image at i)

zeros_complete :
    (image : Mem) (n at : ℕ) → ((i : ℕ) → i < n → image (at + i) ≡ 0) → zeros image n at ≡ true
unfolding zeros
zeros_complete image zero at h = refl
zeros_complete image (suc n) at h =
    let rest =
      zeros_complete image n (at + 1) (λ i lt. sym (there image at i) ∙ h (suc i) (omega arith)) in
    ground (arith, rest, h 0, here image at)

name_matches_sound :
    (image : Mem) (n at : ℕ) (name : List ℕ)
    → name_matches image n at name ≡ true
    → IsPadded image at n name
unfolding name_matches
name_matches_sound image zero at [] h = (omega arith, λ i lt. absurd (omega arith))
name_matches_sound image zero at (c ∷ name) h = cc
name_matches_sound image (suc n) at [] h =
    (omega arith, λ i lt. zeros_sound image (suc n) at i h lt)
name_matches_sound image (suc n) at (c ∷ name) h =
    let (short, rest) = name_matches_sound image n (at + 1) name (ground arith) in
    (
      omega arith,
      elim [
        | zero ↦ λ lt. ground (arith, here image at)
        | suc i ↦ λ lt. there image at i ∙ rest i (omega arith)
      ],
    )

name_matches_complete :
    (image : Mem) (n at : ℕ) (name : List ℕ)
    → IsPadded image at n name
    → name_matches image n at name ≡ true
unfolding name_matches
name_matches_complete image zero at [] h = refl
name_matches_complete image zero at (c ∷ name) h = absurd (omega arith)
name_matches_complete image (suc n) at [] h = zeros_complete image (suc n) at h.1
name_matches_complete image (suc n) at (c ∷ name) h =
    let rest =
      name_matches_complete image n (at + 1) name
        (omega arith, λ i lt. sym (there image at i) ∙ h.1 (suc i) (omega arith)) in
    ground (arith, rest, h.1 0, here image at)

-- FileNameMatches holds exactly when the name has at most 12 characters and the field holds them
-- followed by zeros.
pub file_name_matches_iff :
    (image : Mem) (field : ℕ) (name : List ℕ)
    → (file_name_matches image field name ≡ true) ↔ IsPadded image field Layout.filename_len name
file_name_matches_iff image field name =
    (name_matches_sound image 12 field name, name_matches_complete image 12 field name)
