-- ===== src/Gem/Mac/Link.antt =====
-- The NET_CFG bits of GemUpdateLinkSpeed.
use rpi5_uefi_build.Common.{
  ℕ, ◌+◌, ◌∷◌, ◌^◌, ◌<◌, ◌≡◌, u32, u64, refl, inl, inr, Bool, true, ◌||◌, ◌==◌, if◌then◌else◌,
  Bool-cases, arith, not32, bit_and, bit_or, min,
}
use Prim.Native.Nat.{max}
use rpi5_uefi_build.Common.Bits.{
  bit, bit_le, bit-bit_and, bit-bit_or, bit-if_or, holds_below, holds_below-at, bit-pow,
}
use rpi5_uefi_build.Gem.Regs.{net_cfg_speed100, net_cfg_gige_en, net_cfg_full_duplex}
use rpi5_uefi_build.Common.Mmio.{Device, History, rd, wr}
use rpi5_uefi_build.Gem.{Gem}
use rpi5_uefi_build.Gem.Mac.{link_cfg, update_link_speed}

-- What bit `k` of NET_CFG is for a link.
abbrev pub link_bit : ℕ → Bool → ℕ → ℕ → ℕ
link_bit speed full_duplex cfg k =
    if k == 0
    then (if speed == 100 then 1 else 0)
    else if k == 1
    then (if full_duplex then 1 else 0)
    else if k == 10
    then (if speed == 1000 then 1 else 0)
    else bit k cfg

abbrev kept : ℕ
kept = not32 (bit_or (bit_or net_cfg_speed100 net_cfg_gige_en) net_cfg_full_duplex)

masks : ℕ → Bool
masks k = bit k kept == (if k == 0 || k == 1 || k == 10 then 0 else 1)

masks_all : holds_below masks 32 ≡ true
unfolding masks
masks_all = refl

==_eq : (a b : ℕ) → (a == b) ≡ true → a ≡ b
==_eq a b h = ground arith

module _ (k : ℕ) (less : k < 32) where
  bit-kept : bit k kept ≡ (if k == 0 || k == 1 || k == 10 then 0 else 1)
  unfolding masks
  bit-kept = ==_eq (bit k kept) _ (holds_below-at masks 32 k masks_all less)

  bit-link_cfg :
      (speed : ℕ) (full_duplex : Bool) (cfg : ℕ)
      → bit k (link_cfg speed full_duplex cfg)
        ≡ max
            (max
              (min (bit k cfg) (bit k kept))
              (if speed == 1000 then bit k (2 ^ 10) else if speed == 100 then bit k (2 ^ 0) else 0))
            (if full_duplex then bit k (2 ^ 1) else 0)
  unfolding link_cfg
  bit-link_cfg speed full_duplex cfg =
      let clear = bit_and cfg kept in
      let c = bit-bit_and k cfg kept in
      elim (Bool-cases (speed == 1000)) [
        | inl gige ↦
            let sped = bit-bit_or k clear (2 ^ 10) in
            rw gige
              (omega (arith, bit-if_or k (bit_or clear (2 ^ 10)) (2 ^ 1) full_duplex, c, sped))
        | inr other ↦ elim (Bool-cases (speed == 100)) [
          | inl fast ↦
              let sped = bit-bit_or k clear (2 ^ 0) in
              rw (other, fast)
                (omega (arith, bit-if_or k (bit_or clear (2 ^ 0)) (2 ^ 1) full_duplex, c, sped))
          | inr slow ↦ rw (other, slow) (omega (arith, bit-if_or k clear (2 ^ 1) full_duplex, c))
        ]
      ]

  link_cfg-bits :
      (speed : ℕ) (full_duplex : Bool) (cfg : ℕ)
      → bit k (link_cfg speed full_duplex cfg) ≡ link_bit speed full_duplex cfg k
  link_cfg-bits speed full_duplex cfg = ground (
    arith,
    bit-link_cfg speed full_duplex cfg,
    bit-kept,
    bit_le k cfg,
    bit-pow k 0,
    bit-pow k 1,
    bit-pow k 10,
  )

-- For each of the 32 bits of NET_CFG: GemUpdateLinkSpeed reads the register, writes it once and
-- touches no other; what it writes has SPEED100, GIGE_EN and FULL_DUPLEX by the speed and duplex
-- given, and every other bit as it was read.
pub update_link_speed-bits :
    (device : Device) (gem : Gem) (k speed : ℕ) (full_duplex : Bool) (h : History)
    → k < 32
    → let a = u64 (gem.gem_base + 4) in
      let cfg = u32 (device.reply h a) in
      (v : ℕ) × (update_link_speed device gem speed full_duplex h ≡ (tt, wr a v ∷ rd a cfg ∷ h))
      × (bit k v ≡ link_bit speed full_duplex cfg k)
unfolding update_link_speed
update_link_speed-bits device gem k speed full_duplex h less =
    let cfg = u32 (device.reply h (u64 (gem.gem_base + 4))) in
    (link_cfg speed full_duplex cfg, refl, link_cfg-bits k less speed full_duplex cfg)
