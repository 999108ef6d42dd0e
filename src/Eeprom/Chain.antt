-- ===== src/Eeprom/Chain.antt =====
-- What a section chain is, as a relation, and that `WalkSections` computes exactly it.
use mathlib.Core.Option
use rpi5_uefi_build.Common.{
  ℕ, zero, suc, ◌≤◌, ◌≡◌, refl, ◌↔◌, ◌⊎◌, Option, none, some, List, [], ◌∷◌, arith, length, Mem,
  inl, inr, sym, ◌∙◌, subst,
}
use rpi5_uefi_build.Eeprom.{Section, Seen, stop, corrupt, entry, look, next_section, walk_sections}

-- The sections from `at` on: each header is valid, the next stands at the aligned end, and the last
-- is followed by erased flash or by the end of the image.
pub data Chain (image : Mem) (size : ℕ) : ℕ → List Section → Type 0 where
  done : (at : ℕ) → look image size at ≡ stop → Chain image size at []
  link :
      (at : ℕ) (s : Section) (rest : List Section)
      → look image size at ≡ entry s
      → Chain image size (next_section s) rest
      → Chain image size at (s ∷ rest)

map-some {ℓ} :
    {A B : Type ℓ} (f : A → B) (o : Option A) {b : B}
    → Option.map f o ≡ some b
    → (a : A) × (o ≡ some a) × (b ≡ f a)
map-some f none h = ground arith
map-some f (some a) h = (a, refl, ground arith)

module _ (image : Mem) (size : ℕ) where
  pub walk-stop :
      (left at : ℕ) → look image size at ≡ stop → walk_sections image size left at ≡ some []
  unfolding walk_sections
  walk-stop zero at e = ground arith
  walk-stop (suc left) at e = ground arith

  pub walk-corrupt :
      (left at : ℕ) → look image size at ≡ corrupt → walk_sections image size left at ≡ none
  unfolding walk_sections
  walk-corrupt zero at e = ground arith
  walk-corrupt (suc left) at e = ground arith

  pub walk-full :
      (at : ℕ) (s : Section) → look image size at ≡ entry s → walk_sections image size 0 at ≡ none
  unfolding walk_sections
  walk-full at s e = ground arith

  pub walk-entry :
      (left at : ℕ) (s : Section)
      → look image size at ≡ entry s
      → walk_sections image size (suc left) at
        ≡ Option.map (λ rest. s ∷ rest) (walk_sections image size left (next_section s))
  unfolding walk_sections
  walk-entry left at s e = rw (e, walk_sections)

  Seen-cases : (x : Seen) → (x ≡ stop) ⊎ (x ≡ corrupt) ⊎ ((s : Section) × (x ≡ entry s))
  Seen-cases stop = inl refl
  Seen-cases corrupt = inr (inl refl)
  Seen-cases (entry s) = inr (inr (s, refl))

  walk_sound :
      (left at : ℕ) (l : List Section)
      → walk_sections image size left at ≡ some l
      → Chain image size at l × (length l ≤ left)
  walk_sound zero at l h = elim (Seen-cases (look image size at)) [
    | inl e ↦
        subst (λ l. Chain image size at l × (length l ≤ 0)) (cc (walk-stop 0 at e))
          (done at e, omega arith)
    | inr (inl e) ↦ absurd (cc (walk-corrupt 0 at e))
    | inr (inr (s, e)) ↦ absurd (cc (walk-full at s e))
  ]
  walk_sound (suc left) at l h = elim (Seen-cases (look image size at)) [
    | inl e ↦
        subst (λ l. Chain image size at l × (length l ≤ suc left)) (cc (walk-stop (suc left) at e))
          (done at e, omega arith)
    | inr (inl e) ↦ absurd (cc (walk-corrupt (suc left) at e))
    | inr (inr (s, e)) ↦
        let (rest, found, whole) = map-some _ _ (sym (walk-entry left at s e) ∙ h) in
        let (chain, short) = walk_sound left (next_section s) rest found in
        subst (λ l. Chain image size at l × (length l ≤ suc left)) (sym whole)
          (link at s rest e chain, omega arith)
  ]

  walk_complete :
      (left at : ℕ) (l : List Section)
      → Chain image size at l
      → length l ≤ left
      → walk_sections image size left at ≡ some l
  walk_complete left at [] (done _ e) h = walk-stop left at e
  walk_complete zero at (s ∷ rest) (link _ _ _ e chain) h = absurd (omega arith)
  walk_complete (suc left) at (s ∷ rest) (link _ _ _ e chain) h =
      rw (walk-entry left at s e, walk_complete left (next_section s) rest chain (omega arith))

  pub walk_sections-Chain_iff :
      (cap at : ℕ) (l : List Section)
      → (walk_sections image size cap at ≡ some l) ↔ (Chain image size at l × (length l ≤ cap))
  walk_sections-Chain_iff cap at l = (walk_sound cap at l, λ h. walk_complete cap at l h.0 h.1)
