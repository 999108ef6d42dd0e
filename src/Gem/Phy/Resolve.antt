-- ===== src/Gem/Phy/Resolve.antt =====
-- The negotiated link of Rp1GemPhyGetConfig against the order of the modes that both sides advertise.
use rpi5_uefi_build.Common.{
  ℕ, ◌/◌, ◌^◌, ◌<◌, ◌≤◌, ◌≡◌, refl, ap, ap₂, ◌∙◌, Bool, true, false, not, ◌&&◌, ◌||◌, List, [], ◌∷◌,
  ◌==◌, if◌then◌else◌, arith, u16, bit_and, bit_or, min,
}
use rpi5_uefi_build.Common.Bits.{bit, bit_le, bit-bit_and, bit_and_bound}
use rpi5_uefi_build.Common.Bits.Masks.{bit_and_one, bit_and_two}
use rpi5_uefi_build.Gem.Mac.{has}
use rpi5_uefi_build.Gem.Phy.{resolve}

-- A mode: its speed, whether it is full duplex, and whether both sides advertise it.
abbrev pub Mode : Type 0
Mode = ℕ × Bool × Bool

-- Both of two registers have a bit.
abbrev pub shared : ℕ → ℕ → Bool
shared ours theirs = ours == 1 && theirs == 1

-- The first mode that both sides advertise, else 10 Mbps half duplex.
abbrev pub best : List Mode → ℕ × Bool
best [] = (10, false)
best ((speed, full, common) ∷ rest) =
    let other = best rest in if common then (speed, full) else other

-- The modes by IEEE 802.3's priority. The partner's gigabit abilities stand two bits up.
abbrev pub modes : ℕ → ℕ → ℕ → ℕ → List Mode
modes gbcr gbsr anar anlpar =
    (1000, true, shared (bit 9 gbcr) (bit 11 gbsr))
    ∷ (1000, false, shared (bit 8 gbcr) (bit 10 gbsr))
    ∷ (100, true, shared (bit 8 anar) (bit 8 anlpar))
    ∷ (100, false, shared (bit 7 anar) (bit 7 anlpar))
    ∷ (10, true, shared (bit 6 anar) (bit 6 anlpar))
    ∷ []

shared-min : (a b : ℕ) → a ≤ 1 → b ≤ 1 → not (min a b == 0) ≡ shared b a
shared-min a b p q = ground arith

-- One bit of a conjunction of 16-bit registers.
shared-bit :
    (k a b : ℕ) → b < 2 ^ 16 → not (bit k (u16 (bit_and a b)) == 0) ≡ shared (bit k b) (bit k a)
shared-bit k a b h =
    let fits : u16 (bit_and a b) ≡ bit_and a b = omega (arith, bit_and_bound 16 a b h) in
    ap (λ x. not (bit k x == 0)) fits
    ∙ ap (λ x. not (x == 0)) (bit-bit_and k a b)
    ∙ shared-min (bit k a) (bit k b) (bit_le k a) (bit_le k b)

has_one : (k v : ℕ) → has v (2 ^ k) ≡ not (bit k v == 0)
has_one k v = ap not (bit_and_one k v)

not_and : (a b : Bool) → not (a && b) ≡ not a || not b
not_and true b = refl
not_and false b = refl

has_two : (i j v : ℕ) → has v (bit_or (2 ^ i) (2 ^ j)) ≡ not (bit i v == 0) || not (bit j v == 0)
has_two i j v = ap not (bit_and_two i j v) ∙ not_and (bit i v == 0) (bit j v == 0)

-- The choice that the code makes by its five tests.
abbrev pick : Bool → Bool → Bool → Bool → Bool → ℕ × Bool
pick gb fdx an fdx' fdx'' = if gb then (1000, fdx) else if an then (100, fdx') else (10, fdx'')

pick_agree :
    {a b c d e a' b' c' d' e' : Bool}
    → a ≡ a'
    → b ≡ b'
    → c ≡ c'
    → d ≡ d'
    → e ≡ e'
    → pick a b c d e ≡ pick a' b' c' d' e'
pick_agree p q r s t = rw (p, q, r, s, t) refl

pick-best :
    (a b c d e : Bool)
    → pick (a || b) a (c || d) c e
      ≡ best (
          (1000, true, a)
          ∷ (1000, false, b)
          ∷ (100, true, c)
          ∷ (100, false, d)
          ∷ (10, true, e)
          ∷ [])
pick-best true b c d e = refl
pick-best false true c d e = refl
pick-best false false true d e = refl
pick-best false false false true e = refl
pick-best false false false false true = refl
pick-best false false false false false = refl

-- For 16-bit values of GBCR and ANAR, the speed and duplex that Rp1GemPhyGetConfig resolves are
-- those of the first mode, in order of priority, that both sides advertise, else 10 Mbps half
-- duplex.
pub resolve-best :
    (gbcr gbsr anar anlpar : ℕ)
    → gbcr < 2 ^ 16
    → anar < 2 ^ 16
    → resolve gbcr gbsr anar anlpar ≡ best (modes gbcr gbsr anar anlpar)
unfolding resolve
resolve-best gbcr gbsr anar anlpar h h' =
    let gb = u16 (bit_and (gbsr / 2 ^ 2) gbcr) in
    let an = u16 (bit_and anlpar anar) in
    let shift : gbsr / 2 ^ 2 ≡ gbsr / 2 / 2 = omega arith in
    let g₉ = shared-bit 9 (gbsr / 2 ^ 2) gbcr h ∙ ap (λ x. shared (bit 9 gbcr) (bit 9 x)) shift in
    let g₈ = shared-bit 8 (gbsr / 2 ^ 2) gbcr h ∙ ap (λ x. shared (bit 8 gbcr) (bit 8 x)) shift in
    let a₈ = shared-bit 8 anlpar anar h' in
    let a₇ = shared-bit 7 anlpar anar h' in
    pick_agree (has_two 9 8 gb ∙ ap₂ (◌||◌) g₉ g₈) (has_one 9 gb ∙ g₉)
      (has_two 8 7 an ∙ ap₂ (◌||◌) a₈ a₇) (has_one 8 an ∙ a₈)
      (has_one 6 an ∙ shared-bit 6 anlpar anar h')
    ∙ pick-best (shared (bit 9 gbcr) (bit 11 gbsr)) (shared (bit 8 gbcr) (bit 10 gbsr))
        (shared (bit 8 anar) (bit 8 anlpar)) (shared (bit 7 anar) (bit 7 anlpar))
        (shared (bit 6 anar) (bit 6 anlpar))
