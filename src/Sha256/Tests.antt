-- ===== src/Sha256/Tests.antt =====
-- SHA-256 of sample messages.
use rpi5_uefi_build.Common.{Mem, ◌≡◌, refl, ◌/◌, arith, [], ◌∷◌, get_or}
use rpi5_uefi_build.Sha256.{
  bl_sha256, bl_sha256_state, whole_blocks, finish, build_tail, write_loop, sha256_block,
  load_words, extend_words, rounds, add_regs, Stream, initial_state,
}
use rpi5_uefi_build.Sha256.Blocks.{hash_blocks, IsStreamed, whole_blocks-IsStreamed}
use rpi5_uefi_build.Sha256.Padding.{padded, padded_len}
use rpi5_uefi_build.Sha256.Refine.{bl_sha256_state-padded}

abc : Mem
abc i = get_or (b'a' ∷ b'b' ∷ b'c' ∷ []) i 0

bl_sha256-abc :
    bl_sha256 (λ i. 0) abc 3
    ≡ 0xba ∷ 0x78 ∷ 0x16 ∷ 0xbf ∷ 0x8f ∷ 0x01 ∷ 0xcf ∷ 0xea ∷ 0x41 ∷ 0x41 ∷ 0x40 ∷ 0xde ∷ 0x5d
      ∷ 0xae ∷ 0x22 ∷ 0x23 ∷ 0xb0 ∷ 0x03 ∷ 0x61 ∷ 0xa3 ∷ 0x96 ∷ 0x17 ∷ 0x7a ∷ 0x9c ∷ 0xb4 ∷ 0x10
      ∷ 0xff ∷ 0x61 ∷ 0xf2 ∷ 0x00 ∷ 0x15 ∷ 0xad ∷ []
unfolding bl_sha256 bl_sha256_state whole_blocks finish build_tail write_loop sha256_block
    load_words extend_words rounds add_regs abc
bl_sha256-abc = refl

bl_sha256_state-padded_example :
    bl_sha256_state (λ i. 0) abc 3 ≡ hash_blocks (padded_len 3 / 64) initial_state (padded abc 3)
bl_sha256_state-padded_example = bl_sha256_state-padded (λ i. 0) abc 3

-- A message of 130 bytes: two whole blocks and two bytes.
abbrev long : Stream
long = record { state = initial_state; rest = abc; remain = 130 }

whole_blocks-IsStreamed_example : IsStreamed long (whole_blocks 130 long)
whole_blocks-IsStreamed_example = whole_blocks-IsStreamed 130 long (omega arith)
