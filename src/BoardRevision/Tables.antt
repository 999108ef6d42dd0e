-- ===== src/BoardRevision/Tables.antt =====
-- The tables of BoardRevisionHelperLib.c against each other.
use Prim.Native.String.{String}
use native.Mathlib.Decide.{ℕ_discrete}
use rpi5_uefi_build.Common.{
  ℕ, zero, suc, ◌<◌, ◌≡◌, ◌≢◌, ◌↔◌, ◌⊎◌, inl, inr, refl, arith, Bool, true, false, not, ◌&&◌, ◌||◌,
  Option, none, some, ◌==◌, if◌then◌else◌, Bool-cases, Option-cases,
}
use rpi5_uefi_build.BoardRevision.{
  switch, or_else, type_field, get_model_family, get_fdt_name, fdt_names, families, is_old_scheme,
}

-- `p` holds below `n`.
unfoldable below : ℕ → (ℕ → Bool) → Bool
below zero p = true
below (suc n) p = p n && below n p

below-elim : (n : ℕ) (p : ℕ → Bool) (i : ℕ) → below n p ≡ true → i < n → p i ≡ true
unfolding below
below-elim zero p i h lt = absurd (omega arith)
below-elim (suc n) p i h lt = elim (ℕ_discrete i n) [
  | yes e ↦ rw e (ground arith)
  | no ne ↦ below-elim n p i (ground arith) (omega arith)
]

abbrev is_some : Option String → Bool
is_some none = false
is_some (some s) = true

-- A type with a device tree has a family or is 0x12, and conversely.
abbrev agree : ℕ → Bool
agree t =
    let known = not (or_else (switch t families) 0 == 0) || t == 0x12 in
    if t == 0x17 || is_some (switch t fdt_names) then known else not known

tables-agree : below 256 agree ≡ true
unfolding below switch
tables-agree = refl

type-agree : (rev : ℕ) → agree (type_field rev) ≡ true
type-agree rev = below-elim 256 agree (type_field rev) tables-agree (omega arith)

-- For a code of the new scheme, whatever the variant, a device tree is named exactly for the
-- boards that have a model family, and for type 0x12, which has none.
pub get_fdt_name-get_model_family :
    (rev variant : ℕ)
    → is_old_scheme rev ≡ false
    → (get_fdt_name rev variant ≢ none) ↔ ((get_model_family rev ≢ 0) ⊎ (type_field rev ≡ 0x12))
unfolding get_fdt_name get_model_family
get_fdt_name-get_model_family rev variant new =
    let a = type-agree rev in
    let nonzero : (rev == 0) ≡ false = ground arith in
    elim (Bool-cases (type_field rev == 0x17)) [
      | inl pi5 ↦ rw (new, pi5, nonzero) ((λ h. ground (arith, a)), (λ h e. cc))
      | inr other ↦ elim (Option-cases (switch (type_field rev) fdt_names)) [
        | inl e ↦
            rw (new, other, nonzero, e) ((λ h. absurd (h refl)), (λ h. absurd (ground (arith, a))))
        | inr (name, e) ↦ rw (new, other, nonzero, e) ((λ h. ground (arith, a)), (λ h e. cc))
      ]
    ]
