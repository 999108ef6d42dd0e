-- ===== src/Common/State.antt =====
-- Actions on a state.
use mathlib.Core.Path.{◌≡◌, refl}
use mathlib.Core.Bool.{Bool, true, false}
use rpi5_uefi_build.Common.Tests.{if◌then◌else◌}

abbrev pub Act {ℓ} : Type 0 → Type ℓ → Type ℓ
Act D A = D → A × D

abbrev pub pure {ℓ} : {D : Type 0} {A : Type ℓ} → A → Act D A
pure a d = (a, d)

infixl 5 ◌>>=◌ ◌>>◌
abbrev pub ◌>>=◌ {ℓ κ} : {D : Type 0} {A : Type ℓ} {B : Type κ} → Act D A → (A → Act D B) → Act D B
◌>>=◌ m f d = let (a, d') = m d in f a d'

abbrev pub ◌>>◌ {κ} : {D : Type 0} {B : Type κ} → Act D (Unit {0}) → Act D B → Act D B
m >> k = m >>= λ _. k

-- A step that answers nothing.
abbrev pub run : {D : Type 0} → (D → D) → Act D (Unit {0})
run f d = (tt, f d)

-- What a state tells.
abbrev pub reads {ℓ} : {D : Type 0} {A : Type ℓ} → (D → A) → Act D A
reads f d = (f d, d)

-- A property of what an action under a test leaves: prove it of both branches.
pub if_both {ℓ κ} :
    {D : Type 0} {A : Type ℓ} (P : A × D → Type κ) (b : Bool) (m k : Act D A) (d : D)
    → (b ≡ true → P (m d))
    → (b ≡ false → P (k d))
    → P ((if b then m else k) d)
if_both P true m k d p q = p refl
if_both P false m k d p q = q refl
