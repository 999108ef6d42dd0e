-- ===== src/Eeprom/Padding.antt =====
-- The padding that `EepromReplaceFileIn` puts behind new content.
use rpi5_uefi_build.Common.{
  ℕ, ◌+◌, ◌-◌, ◌*◌, ◌/◌, ◌%◌, ◌^◌, ◌≤◌, ◌<◌, ◌≡◌, ◌∙◌, ◌⊎◌, arith, u32, u64, sub64, Mem, Bool, true,
  false, not, ◌&&◌, Bool-cases, inl, inr, leb, if◌then◌else◌, BaseMemoryLib,
}
use rpi5_uefi_build.Eeprom.{FileLoc, be32, put_be32}
use rpi5_uefi_build.Eeprom.Layout
use rpi5_uefi_build.Eeprom.Update.{fill_to_8, pad_from, pad_after}
use rpi5_uefi_build.Eeprom.Bytes.{fill_to_8-IsFilled, put_be32_outside, be32-put_be32, be32_local}

abbrev pub round8 : ℕ → ℕ
round8 n = (n + 7) / 8 * 8

-- The bytes of [end, next) in `out`: 0xFF up to `start`, then a pad header if one is wanted, then
-- 0xFF. All other bytes are those of `m`.
pub record IsPaddedTo (m : Mem) (end start next : ℕ) (header : Bool) (out : Mem) : Type 0 where
  pub same : (j : ℕ) → (j < end) ⊎ (next ≤ j) → out j ≡ m j
  pub gap : (j : ℕ) → end ≤ j → j < start → out j ≡ 0xff
  pub erased : (j : ℕ) → (if header then start + 8 else start) ≤ j → j < next → out j ≡ 0xff
  pub pad :
      header ≡ true
      → (be32 out start ≡ Layout.pad_magic) × (be32 out (start + 4) ≡ next - start - 8)

abbrev pub wants_header : FileLoc → ℕ → Bool
wants_header loc start = leb 8 (loc.next_offset - start) && not loc.is_last

-- A pad section from `start` up to `next`, as the code writes it.
abbrev with_header : BaseMemoryLib → Mem → ℕ → ℕ → Mem
with_header lib filled start next =
    lib.set_mem
      (put_be32 (put_be32 filled start Layout.pad_magic) (start + 4) (u32 (next - start - 8)))
      (start + 8) (next - start - 8) 0xff

module _ (lib : BaseMemoryLib) (filled : Mem) (start next : ℕ) (room : start + 8 ≤ next) where
  with_header_same :
      (j : ℕ) → (j < start) ⊎ (next ≤ j) → with_header lib filled start next j ≡ filled j
  with_header_same j o = ground (
    arith,
    lib.set_mem_lem
        (put_be32 (put_be32 filled start Layout.pad_magic) (start + 4) (u32 (next - start - 8)))
        (start + 8) (next - start - 8) 0xff j,
    put_be32_outside (put_be32 filled start Layout.pad_magic) (start + 4) (u32 (next - start - 8))
        j,
    put_be32_outside filled start Layout.pad_magic j,
  )

  with_header_erased :
      (j : ℕ) → start + 8 ≤ j → j < next → with_header lib filled start next j ≡ 0xff
  with_header_erased j p q = ground (
    arith,
    lib.set_mem_lem
        (put_be32 (put_be32 filled start Layout.pad_magic) (start + 4) (u32 (next - start - 8)))
        (start + 8) (next - start - 8) 0xff j,
  )

  with_header_pad :
      next < 2 ^ 32
      → (be32 (with_header lib filled start next) start ≡ Layout.pad_magic)
        × (be32 (with_header lib filled start next) (start + 4) ≡ next - start - 8)
  with_header_pad low =
      let magic = put_be32 filled start Layout.pad_magic in
      let headed = put_be32 magic (start + 4) (u32 (next - start - 8)) in
      let below : (j : ℕ) → j < start + 8 → with_header lib filled start next j ≡ headed j =
        λ j h. ground (arith, lib.set_mem_lem headed (start + 8) (next - start - 8) 0xff j) in
      let magic_kept : be32 headed start ≡ be32 magic start =
        be32_local magic headed start (λ j p q.
          put_be32_outside magic (start + 4) (u32 (next - start - 8)) j (inl (omega arith))) in
      (
        be32_local headed _ start (λ j p q. below j (omega arith))
            ∙ magic_kept
            ∙ be32-put_be32 filled start Layout.pad_magic (omega arith),
        be32_local headed _ (start + 4) (λ j p q. below j (omega arith))
            ∙ be32-put_be32 magic (start + 4) (u32 (next - start - 8)) (omega arith)
            ∙ omega arith,
      )

module _ (lib : BaseMemoryLib) (m : Mem) (loc : FileLoc) (start : ℕ)
    (room : start ≤ loc.next_offset) (low : loc.next_offset < 2 ^ 32) where
  -- The differences of `pad_from` in range.
  pad_from-eq : pad_from lib m loc start ≡ (
      if wants_header loc start
      then with_header lib m start loc.next_offset
      else lib.set_mem m start (loc.next_offset - start) 0xff)
  unfolding pad_from
  pad_from-eq =
      let bytes : sub64 loc.next_offset start ≡ loc.next_offset - start = omega arith in
      let behind : u64 (start + 8) ≡ start + 8 = omega arith in rw (bytes, behind)

  plain-IsPadded :
      IsPaddedTo m start start loc.next_offset false
        (lib.set_mem m start (loc.next_offset - start) 0xff)
  plain-IsPadded = record {
    same = λ j o. ground (arith, lib.set_mem_lem m start (loc.next_offset - start) 0xff j);
    gap = λ j p q. absurd (omega arith);
    erased = λ j p q. ground (arith, lib.set_mem_lem m start (loc.next_offset - start) 0xff j);
    pad = λ h. absurd (cc);
  }

  headed-IsPadded :
      8 ≤ loc.next_offset - start
      → IsPaddedTo m start start loc.next_offset true (with_header lib m start loc.next_offset)
  headed-IsPadded h = record {
    same = with_header_same lib m start loc.next_offset (omega arith);
    gap = λ j p q. absurd (omega arith);
    erased = with_header_erased lib m start loc.next_offset (omega arith);
    pad = λ _. with_header_pad lib m start loc.next_offset (omega arith) low;
  }

  pad_from-IsPadded :
      IsPaddedTo m start start loc.next_offset (wants_header loc start) (pad_from lib m loc start)
  pad_from-IsPadded = elim (Bool-cases (wants_header loc start)) [
    | inl e ↦ rw (pad_from-eq, e) (headed-IsPadded (ground arith))
    | inr e ↦ rw (pad_from-eq, e) plain-IsPadded
  ]

-- With the content inside [.., next) and an 8-aligned next section, the padding fills exactly what
-- lies between.
pub pad_after-IsPadded :
    (lib : BaseMemoryLib) (m : Mem) (loc : FileLoc) (end : ℕ)
    → end ≤ loc.next_offset
    → loc.next_offset % 8 ≡ 0
    → loc.next_offset < 2 ^ 32
    → IsPaddedTo m end
        (round8 end)
        loc.next_offset
        (wants_header loc (round8 end))
        (pad_after lib m loc end)
unfolding pad_after
pad_after-IsPadded lib m loc end room whole low =
    let fill = fill_to_8-IsFilled 7 m end (omega arith) (omega arith) in
    let padded = pad_from-IsPadded lib (fill_to_8 7 m end).0 loc (round8 end) (omega arith) low in
    rw fill.ends (record {
      same = λ j o. padded.same j (omega arith) ∙ fill.same j (omega arith);
      gap = λ j p q. padded.same j (omega arith) ∙ fill.filled j p q;
      erased = padded.erased;
      pad = padded.pad;
    })
